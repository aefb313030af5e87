-- ===== src/Disk/Writer/Reach.antt =====
-- The states that the writer can reach, with the entries that it has taken since the last swap and the
-- messages that wait.
use molten_db.Prelude.{
  ◌≡◌, ◌⊎◌, ℕ, true, false, Option, none, some, List, [], ◌∷◌, ◌++◌, Bytes, All,
}
use molten_db.Wal.Entry.{LogEntry}
use molten_db.Disk.{write_compacted_log_no_tx}
use molten_db.Disk.Laws.{IsWritable}
use molten_db.Disk.Writer.{AsyncDiskStorage, Turn, fine, new, write_entry, swap_log, round}

-- An entry that waits, or a swap.
abbrev pub Waiting : Type 0
Waiting = Option LogEntry

pub data Reach (spill : Bytes → ℕ) : List LogEntry → List Waiting → AsyncDiskStorage → Type 0 where
  opened :
      (es : List LogEntry)
      → All IsWritable es
      → Reach spill es [] (new (write_compacted_log_no_tx es))
  entry_sent :
      {h : List LogEntry} {q : List Waiting} {s : AsyncDiskStorage} (e : LogEntry)
      → IsWritable e
      → s.sender ≡ true
      → s.running ≡ true
      → Reach spill h q s
      → Reach spill h (q ++ some e ∷ []) (write_entry e s).1
  swap_sent :
      {h : List LogEntry} {q : List Waiting} {s : AsyncDiskStorage}
      → s.sender ≡ true
      → s.running ≡ true
      → Reach spill h q s
      → Reach spill h (q ++ none ∷ []) (swap_log s).1
  closed :
      {h : List LogEntry} {q : List Waiting} {s : AsyncDiskStorage}
      → Reach spill h q s
      → Reach spill h q (record s { sender = false })
  entry_taken :
      {h : List LogEntry} {e : LogEntry} {q : List Waiting} {s : AsyncDiskStorage} (t : Turn)
      → s.running ≡ true
      → Reach spill h (some e ∷ q) s
      → Reach spill (h ++ e ∷ []) q (round spill t s)
  swap_done :
      {h : List LogEntry} {q : List Waiting} {s : AsyncDiskStorage} (t : Turn)
      → t.renamed ≡ true
      → s.running ≡ true
      → Reach spill h (none ∷ q) s
      → Reach spill [] q (round spill t s)
  -- If the renaming fails, then the flush before it has not, or the file is not opened again.
  swap_failed :
      {h : List LogEntry} {q : List Waiting} {s : AsyncDiskStorage} (t : Turn)
      → t.renamed ≡ false
      → (t.io ≡ fine) ⊎ (t.reopened ≡ false)
      → s.running ≡ true
      → Reach spill h (none ∷ q) s
      → Reach spill h q (round spill t s)
  waited :
      {h : List LogEntry} {s : AsyncDiskStorage} (t : Turn)
      → s.running ≡ true
      → Reach spill h [] s
      → Reach spill h [] (round spill t s)
