-- ===== src/Disk/Writer/Logged.antt =====
-- Every state that the writer can reach has the invariant.
use mathlib.Core.List.{append-nil}
use mathlib.Core.Path.{subst}
use molten_db.Prelude.{
  ◌≡◌, refl, ap, sym, ◌∙◌, ℕ, Bool, true, none, some, List, [], ◌∷◌, ◌++◌, Bytes, All-append, map,
  if◌then◌else◌,
}
use molten_db.Wal.Entry.{LogEntry}
use molten_db.Disk.{write_compacted_log_no_tx}
use molten_db.Engine.Types.{write_error, Result, ok, err}
use molten_db.Disk.Writer.{AsyncDiskStorage, new, send, write_entry, swap_log}
use molten_db.Disk.Writer.Reach.{
  Waiting, Reach, opened, entry_sent, swap_sent, closed, entry_taken, swap_done, swap_failed,
  waited,
}
use molten_db.Disk.Writer.Rounds.{
  message, MayWait, Logged, all_of, entry-Logged, swap-Logged, no_swap-Logged, idle-Logged,
}

map-append_message :
    (q : List Waiting) (w : Waiting) → map message (q ++ w ∷ []) ≡ map message q ++ message w ∷ []
map-append_message [] w = refl
map-append_message (v ∷ q) w = ap (λ l. message v ∷ l) (map-append_message q w)

abbrev Answered : Type 0
Answered = Result (Unit {0}) × AsyncDiskStorage

abbrev state_if : Bool → Answered → Answered → AsyncDiskStorage
state_if b x y = let r : Answered = if b then x else y in r.1

module _ (spill : Bytes → ℕ) where
  enqueued :
      (h : List LogEntry) (q : List Waiting) (s : AsyncDiskStorage) (w : Waiting)
      → MayWait w
      → Logged h q s
      → Logged h (q ++ w ∷ []) (record s { queue = s.queue ++ message w ∷ [] })
  enqueued h q s w may l = record {
    queued = ap (λ t. t ++ message w ∷ []) l.queued ∙ sym (map-append_message q w);
    taken = l.taken;
    waiting = All-append MayWait q (w ∷ []) l.waiting (may, tt);
    prefix = l.prefix;
    complete = l.complete;
  }

  sent_entry :
      (e : LogEntry) (s : AsyncDiskStorage)
      → s.sender ≡ true
      → s.running ≡ true
      → (write_entry e s).1 ≡ record s { queue = s.queue ++ message (some e) ∷ [] }
  unfolding write_entry send
  sent_entry e s o r =
      ap (λ b. state_if b (send (message (some e)) s) (ok tt, s)) o
      ∙ ap
          (λ b.
            state_if b (ok tt, record s { queue = s.queue ++ message (some e) ∷ [] })
              (err write_error, s))
          r

  sent_swap :
      (s : AsyncDiskStorage)
      → s.sender ≡ true
      → s.running ≡ true
      → (swap_log s).1 ≡ record s { queue = s.queue ++ message none ∷ [] }
  unfolding swap_log send write_compacted_log_no_tx
  sent_swap s o r =
      ap (λ b. state_if b (send (message none) s) (ok tt, record s { file = [] })) o
      ∙ ap
          (λ b.
            state_if b (ok tt, record s { queue = s.queue ++ message none ∷ [] })
              (err write_error, s))
          r

  pub Reach-Logged :
      {h : List LogEntry} {q : List Waiting} {s : AsyncDiskStorage}
      → Reach spill h q s
      → Logged h q s
  unfolding new
  Reach-Logged (opened es ws) = record {
    queued = refl;
    taken = ws;
    waiting = tt;
    prefix = all_of (write_compacted_log_no_tx es) _ refl;
    complete = λ x. append-nil (write_compacted_log_no_tx es);
  }
  Reach-Logged (entry_sent {h} {q} {s} e w o r before) =
      subst (Logged h (q ++ some e ∷ [])) (sym (sent_entry e s o r))
        (enqueued h q s (some e) w (Reach-Logged before))
  Reach-Logged (swap_sent {h} {q} {s} o r before) =
      subst (Logged h (q ++ none ∷ [])) (sym (sent_swap s o r))
        (enqueued h q s none tt (Reach-Logged before))
  Reach-Logged (closed before) =
      let l = Reach-Logged before in
      record {
        queued = l.queued;
        taken = l.taken;
        waiting = l.waiting;
        prefix = l.prefix;
        complete = l.complete;
      }
  Reach-Logged (entry_taken {h} {e} {q} {s} t r before) =
      entry-Logged spill t h e q s r (Reach-Logged before)
  Reach-Logged (swap_done {h} {q} {s} t done r before) =
      swap-Logged spill t h q s done r (Reach-Logged before)
  Reach-Logged (swap_failed {h} {q} {s} t failed one r before) =
      no_swap-Logged spill t h q s failed one r (Reach-Logged before)
  Reach-Logged (waited {h} {s} t r before) = idle-Logged spill t h s r (Reach-Logged before)
