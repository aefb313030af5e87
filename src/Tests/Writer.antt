-- ===== src/Tests/Writer.antt =====
-- A writer that has taken one entry in part, with another one waiting.
use molten_db.Prelude.{ℕ, [], Bytes}
use molten_db.Disk.Writer.{AsyncDiskStorage, no_errors, new, write_entry, round}
use molten_db.Disk.Writer.Reach.{Reach}
use molten_db.Tests.Storage.{put}

abbrev seven : Bytes → ℕ
seven held = 7

abbrev sent : AsyncDiskStorage
sent = (write_entry put (write_entry put (new [])).1).1

abbrev busy : AsyncDiskStorage
busy = round seven no_errors sent
