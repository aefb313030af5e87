-- ===== src/Disk/Writer/Rounds.antt =====
-- The invariant of the writer, and that each round keeps it.
use mathlib.Core.List.{append_assoc, append-nil}
use mathlib.Core.Path.{subst}
use molten_db.Prelude.{
  ◌≡◌, ◌⊎◌, inl, inr, refl, ap, ap₂, sym, ◌∙◌, ℕ, zero, suc, ◌+◌, Bool, true, false, none, some,
  List, [], ◌∷◌, ◌++◌, Bytes, length, take, drop, All, All-append, map, if◌then◌else◌,
}
use molten_db.Wal.Entry.{LogEntry}
use molten_db.Disk.{write_msgpack_entry, write_compacted_log_no_tx}
use molten_db.Disk.Laws.{IsWritable}
use molten_db.Disk.Writer.{
  WriterMsg, write, compact, AsyncDiskStorage, Io, fine, fails, Turn, flushed, fault, flush, stop,
  idle, handle_write, handle_compact, handle_msg, round_on, round,
}
use molten_db.Disk.Writer.Reach.{Waiting}
use molten_db.Disk.Writer.Prefix.{take-append, frames-append}

abbrev pub message : Waiting → WriterMsg
message none = compact []
message (some e) = write (write_msgpack_entry e)

abbrev pub MayWait : Waiting → Type 0
MayWait none = Unit
MayWait (some e) = IsWritable e

-- The file is a part of the log of the entries, and with the buffer all of it while the task runs.
pub record Logged (h : List LogEntry) (q : List Waiting) (s : AsyncDiskStorage) : Type 0 where
  pub queued : s.queue ≡ map message q
  pub taken : All IsWritable h
  pub waiting : All MayWait q
  pub prefix : (n : ℕ) × (s.file ≡ take n (write_compacted_log_no_tx h))
  pub complete : s.running ≡ true → s.file ++ s.buffer ≡ write_compacted_log_no_tx h

take-all : (xs : Bytes) → take (length xs) xs ≡ xs
take-all [] = refl
take-all (x ∷ xs) = ap (λ l. x ∷ l) (take-all xs)

take-drop : (n : ℕ) (xs : Bytes) → take n xs ++ drop n xs ≡ xs
take-drop zero xs = refl
take-drop (suc n) [] = refl
take-drop (suc n) (x ∷ xs) = ap (λ l. x ∷ l) (take-drop n xs)

-- More of what is to come behind a part of a log.
cut :
    (file held log : Bytes) (k : ℕ)
    → file ++ held ≡ log
    → (n : ℕ) × (file ++ take k held ≡ take n log)
cut file held log k e = (length file + k, rw (sym e) (sym (take-append k file held)))

pub all_of : (file log : Bytes) → file ≡ log → (n : ℕ) × (file ≡ take n log)
all_of file log e = (length log, e ∙ sym (take-all log))

module _ (spill : Bytes → ℕ) where
  pub round-message :
      (t : Turn) (s : AsyncDiskStorage) (m : WriterMsg) (queue : List WriterMsg)
      → s.running ≡ true
      → s.queue ≡ m ∷ queue
      → round spill t s ≡ handle_msg spill t m (record s { queue = queue })
  unfolding round round_on
  round-message t s m queue r e = ap₂ (round_on spill t s) r e

  pub round-idle :
      (t : Turn) (s : AsyncDiskStorage)
      → s.running ≡ true
      → s.queue ≡ []
      → round spill t s ≡ idle t.io s
  unfolding round round_on
  round-idle t s r e = ap₂ (round_on spill t s) r e

  pub entry-Logged :
      (t : Turn) (h : List LogEntry) (e : LogEntry) (q : List Waiting) (s : AsyncDiskStorage)
      → s.running ≡ true
      → Logged h (some e ∷ q) s
      → Logged (h ++ e ∷ []) q (round spill t s)
  unfolding handle_msg handle_write fault
  entry-Logged t h e q s r l =
      let frame = write_msgpack_entry e in
      let both : s.file ++ (s.buffer ++ frame) ≡ write_compacted_log_no_tx (h ++ e ∷ []) =
        sym (append_assoc s.file s.buffer frame)
        ∙ ap (λ b. b ++ frame) (l.complete r)
        ∙ sym (frames-append h e) in
      subst (Logged (h ++ e ∷ []) q) (sym (round-message t s _ (map message q) r l.queued))
        (taken_on t.io both)
    where
      held : Bytes
      held = s.buffer ++ write_msgpack_entry e

      written : Io → AsyncDiskStorage
      written o = handle_write spill o (write_msgpack_entry e) (record s { queue = map message q })

      taken_on :
          (o : Io)
          → s.file ++ (s.buffer ++ write_msgpack_entry e) ≡ write_compacted_log_no_tx (h ++ e ∷ [])
          → Logged (h ++ e ∷ []) q (written o)
      taken_on fine both = record {
        queued = refl;
        taken = All-append IsWritable h (e ∷ []) l.taken (l.waiting.0, tt);
        waiting = l.waiting.1;
        prefix = cut s.file held _ (spill held) both;
        complete = λ x.
            append_assoc s.file (take (spill held) held) (drop (spill held) held)
            ∙ ap (λ t. s.file ++ t) (take-drop (spill held) held)
            ∙ both;
      }
      taken_on (fails n) both = record {
        queued = refl;
        taken = All-append IsWritable h (e ∷ []) l.taken (l.waiting.0, tt);
        waiting = l.waiting.1;
        prefix = cut s.file held _ n both;
        complete = λ x. absurd (cc x);
      }

  pub swap-Logged :
      (t : Turn) (h : List LogEntry) (q : List Waiting) (s : AsyncDiskStorage)
      → t.renamed ≡ true
      → s.running ≡ true
      → Logged h (none ∷ q) s
      → Logged [] q (round spill t s)
  unfolding handle_msg handle_compact write_compacted_log_no_tx
  swap-Logged t h q s done r l =
      let new_log : (if t.renamed then [] else flushed t.io s.file s.buffer) ≡ [] = rw done refl in
      subst (Logged [] q) (sym (round-message t s _ (map message q) r l.queued)) record {
        queued = refl;
        taken = tt;
        waiting = l.waiting.1;
        prefix = (0, new_log);
        complete = λ x. ap (λ (f : Bytes). f ++ []) new_log;
      }

  -- The old log with what the flush has written, which is all that is missing if the task goes on.
  flushed-prefix :
      (o : Io) (log : Bytes) (s : AsyncDiskStorage)
      → s.file ++ s.buffer ≡ log
      → (n : ℕ) × (flushed o s.file s.buffer ≡ take n log)
  unfolding flushed
  flushed-prefix fine log s e = all_of (s.file ++ s.buffer) log e
  flushed-prefix (fails n) log s e = cut s.file s.buffer log n e

  flushed_complete :
      (t : Turn) (log : Bytes) (s : AsyncDiskStorage)
      → (t.io ≡ fine) ⊎ (t.reopened ≡ false)
      → s.file ++ s.buffer ≡ log
      → t.reopened ≡ true
      → flushed t.io s.file s.buffer ++ [] ≡ log
  unfolding flushed
  flushed_complete t log s (inl good) e x = append-nil (flushed t.io s.file s.buffer) ∙ rw good e
  flushed_complete t log s (inr ended) e x = absurd (cc (x, ended))

  pub no_swap-Logged :
      (t : Turn) (h : List LogEntry) (q : List Waiting) (s : AsyncDiskStorage)
      → t.renamed ≡ false
      → (t.io ≡ fine) ⊎ (t.reopened ≡ false)
      → s.running ≡ true
      → Logged h (none ∷ q) s
      → Logged h q (round spill t s)
  unfolding handle_msg handle_compact flushed
  no_swap-Logged t h q s failed one r l =
      let old_log : (if t.renamed then [] else flushed t.io s.file s.buffer)
          ≡ flushed t.io s.file s.buffer =
        rw failed refl in
      let part = flushed-prefix t.io _ s (l.complete r) in
      subst (Logged h q) (sym (round-message t s _ (map message q) r l.queued)) record {
        queued = refl;
        taken = l.taken;
        waiting = l.waiting.1;
        prefix = (part.0, old_log ∙ part.1);
        complete = λ x. ap (λ f. f ++ []) old_log ∙ flushed_complete t _ s one (l.complete r) x;
      }

  pub idle-Logged :
      (t : Turn) (h : List LogEntry) (s : AsyncDiskStorage)
      → s.running ≡ true
      → Logged h [] s
      → Logged h [] (round spill t s)
  unfolding idle flush stop fault
  idle-Logged t h s r l = subst (Logged h []) (sym (round-idle t s r l.queued)) (on t.io s.sender)
    where
      on : (o : Io) (b : Bool) → Logged h [] (if b then flush o s else stop o s)
      on fine true = record {
        queued = l.queued;
        taken = l.taken;
        waiting = tt;
        prefix = all_of (s.file ++ s.buffer) _ (l.complete r);
        complete = λ x. append-nil (s.file ++ s.buffer) ∙ l.complete r;
      }
      on fine false = record {
        queued = l.queued;
        taken = l.taken;
        waiting = tt;
        prefix = all_of (s.file ++ s.buffer) _ (l.complete r);
        complete = λ x. absurd (cc x);
      }
      on (fails n) true = record {
        queued = l.queued;
        taken = l.taken;
        waiting = tt;
        prefix = cut s.file s.buffer _ n (l.complete r);
        complete = λ x. absurd (cc x);
      }
      on (fails n) false = record {
        queued = l.queued;
        taken = l.taken;
        waiting = tt;
        prefix = cut s.file s.buffer _ n (l.complete r);
        complete = λ x. absurd (cc x);
      }
