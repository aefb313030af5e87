-- ===== src/Disk/Writer/Crash.antt =====
-- What a read of the log file gives while the writer runs, and after it has ended.
use molten_db.Prelude.{◌≡◌, ℕ, false, none, some, List, [], ◌∷◌, ◌++◌, Bytes, All}
use molten_db.Wal.Entry.{LogEntry}
use molten_db.Disk.{write_compacted_log_no_tx}
use molten_db.Disk.Laws.{IsWritable}
use molten_db.Disk.Writer.{AsyncDiskStorage}
use molten_db.Disk.Writer.Reach.{Waiting, Reach}
use molten_db.Disk.Writer.Rounds.{Logged}

-- The entries in the log after what waits was taken.
unfoldable pub settle : List LogEntry → List Waiting → List LogEntry
settle h [] = h
settle h (some e ∷ q) = settle (h ++ e ∷ []) q
settle h (none ∷ q) = settle [] q

module _ (spill : Bytes → ℕ) where
  abbrev Ended : List LogEntry → AsyncDiskStorage → Type 0
  Ended h s = (s.running ≡ false) × (s.file ≡ write_compacted_log_no_tx h) × All IsWritable h
