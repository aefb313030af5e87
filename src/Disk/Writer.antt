-- ===== src/Disk/Writer.antt =====
-- The asynchronous writer of the log: moltendb-core/src/engine/storage/disk/async_storage.rs. A round is one
-- turn of the loop of the background task. How much of its bytes a `BufWriter` passes on before it is
-- flushed is a parameter.
pub mod Reach
pub mod Prefix
pub mod Rounds
pub mod Logged
pub mod Crash
use molten_db.Prelude.{
  ℕ, zero, suc, Bool, true, false, List, [], ◌∷◌, ◌++◌, Bytes, length, take, drop, if◌then◌else◌,
}
use molten_db.Wal.Entry.{LogEntry}
use molten_db.Engine.Types.{write_error, Result, ok, err}
use molten_db.Disk.{write_msgpack_entry, write_compacted_log_no_tx}

-- An entry, or a swap of the log for a file with these bytes.
pub data WriterMsg : Type 0 where
  write : Bytes → WriterMsg
  compact : Bytes → WriterMsg

-- `sender` tells whether the channel is open, and `running` whether the task is in its loop.
pub record AsyncDiskStorage : Type 0 where
  pub sender : Bool
  pub queue : List WriterMsg
  pub buffer : Bytes
  pub file : Bytes
  pub running : Bool
  pub io_fault : Bool

-- What the file system says: no error, or an error after as many bytes.
pub data Io : Type 0 where
  fine : Io
  fails : ℕ → Io

-- The same for one round: for its writes and flushes, for the renaming of a swap, and for the opening
-- of the file after it.
pub record Turn : Type 0 where
  pub io : Io
  pub renamed : Bool
  pub reopened : Bool

abbrev pub no_errors : Turn
no_errors = record { io = fine; renamed = true; reopened = true }

unfoldable pub new : Bytes → AsyncDiskStorage
new file = record {
  sender = true;
  queue = [];
  buffer = [];
  file = file;
  running = true;
  io_fault = false;
}

-- A send fails when the task has ended, which drops the receiver.
unfoldable pub send : WriterMsg → AsyncDiskStorage → Result (Unit {0}) × AsyncDiskStorage
send m s =
    if s.running then (ok tt, record s { queue = s.queue ++ m ∷ [] }) else (err write_error, s)

unfoldable pub write_entry : LogEntry → AsyncDiskStorage → Result (Unit {0}) × AsyncDiskStorage
unfolding send write_msgpack_entry
write_entry e s = if s.sender then send (write (write_msgpack_entry e)) s else (ok tt, s)

-- The file that is to take the log's place is written first. The wait for the task is left out.
unfoldable pub swap_log : AsyncDiskStorage → Result (Unit {0}) × AsyncDiskStorage
unfolding send write_compacted_log_no_tx
swap_log s =
    if s.sender
    then send (compact (write_compacted_log_no_tx [])) s
    else (ok tt, record s { file = write_compacted_log_no_tx [] })

-- A fatal error: what the buffer still holds is gone.
unfoldable pub fault : ℕ → Bytes → AsyncDiskStorage → AsyncDiskStorage
fault n held s = record s {
  file = s.file ++ take n held;
  buffer = [];
  running = false;
  io_fault = true;
}

unfoldable pub flush : Io → AsyncDiskStorage → AsyncDiskStorage
unfolding fault
flush fine s = record s { file = s.file ++ s.buffer; buffer = [] }
flush (fails n) s = fault n s.buffer s

-- After the loop the buffer is flushed, and errors are ignored.
unfoldable pub stop : Io → AsyncDiskStorage → AsyncDiskStorage
stop fine s = record s { file = s.file ++ s.buffer; buffer = []; running = false }
stop (fails n) s = record s { file = s.file ++ take n s.buffer; buffer = []; running = false }

-- When no message has come for 50 ms, or the channel is closed.
unfoldable pub idle : Io → AsyncDiskStorage → AsyncDiskStorage
unfolding flush stop
idle io s = if s.sender then flush io s else stop io s

-- What the log has after a flush before a swap, the error of which is only reported.
unfoldable pub flushed : Io → Bytes → Bytes → Bytes
flushed fine file buffer = file ++ buffer
flushed (fails n) file buffer = file ++ take n buffer

-- If the renaming fails, the old log stays; if the opening fails, the task ends.
unfoldable pub handle_compact : Turn → Bytes → AsyncDiskStorage → AsyncDiskStorage
unfolding flushed
handle_compact t temp s = record s {
  file = if t.renamed then temp else flushed t.io s.file s.buffer;
  buffer = [];
  running = t.reopened;
}

module _ (spill : Bytes → ℕ) where
  unfoldable pub handle_write : Io → Bytes → AsyncDiskStorage → AsyncDiskStorage
  unfolding fault
  handle_write fine bytes s =
      let held = s.buffer ++ bytes in
      record s { file = s.file ++ take (spill held) held; buffer = drop (spill held) held }
  handle_write (fails n) bytes s = fault n (s.buffer ++ bytes) s

  unfoldable pub handle_msg : Turn → WriterMsg → AsyncDiskStorage → AsyncDiskStorage
  unfolding handle_write handle_compact
  handle_msg t (write bytes) s = handle_write t.io bytes s
  handle_msg t (compact temp) s = handle_compact t temp s

  unfoldable pub round_on : Turn → AsyncDiskStorage → Bool → List WriterMsg → AsyncDiskStorage
  unfolding handle_msg idle
  round_on t s false queue = s
  round_on t s true [] = idle t.io s
  round_on t s true (m ∷ queue) = handle_msg t m (record s { queue = queue })

  unfoldable pub round : Turn → AsyncDiskStorage → AsyncDiskStorage
  unfolding round_on
  round t s = round_on t s s.running s.queue

  unfoldable pub rounds : ℕ → AsyncDiskStorage → AsyncDiskStorage
  unfolding round
  rounds zero s = s
  rounds (suc n) s = rounds n (round no_errors s)

  -- The channel is closed, and the end of the task is awaited. A round for each message, and one more.
  unfoldable pub drop_storage : AsyncDiskStorage → AsyncDiskStorage
  unfolding rounds
  drop_storage s = rounds (suc (length s.queue)) (record s { sender = false })
