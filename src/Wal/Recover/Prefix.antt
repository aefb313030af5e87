-- ===== src/Wal/Recover/Prefix.antt =====
-- A recovery is the replay of the part of the log that was asked for.
use molten_db.Prelude.{
  ◌≡◌, refl, ap, arith, ℕ, zero, suc, ◌+◌, ◌-◌, ◌≤◌, ◌<◌, Bool, true, false, Option, none, some,
  List, [], ◌∷◌, ◌++◌, take, leb→le, ◌∙◌, Bool-cases, inl, inr, if◌then◌else◌,
}
use molten_db.Json.{Value}
use molten_db.Wal.Entry.{LogEntry}
use molten_db.Wal.Replay.{Memory, Replay, empty, replay_step, replay_from, stream_into_state}
use molten_db.Wal.Recover.{
  is_after, is_full, recover_loop, recover_to, state_entries, schema_entries,
}

-- The entries before the first one that is later than the time.
unfoldable pub not_after : Option ℕ → List LogEntry → List LogEntry
not_after t [] = []
not_after t (e ∷ log) = let rest = not_after t log in if is_after t e then [] else e ∷ rest

-- The first entries, or all.
unfoldable pub first_of : Option ℕ → List LogEntry → List LogEntry
first_of none log = log
first_of (some s) log = take s log

-- The number that is still to come.
abbrev left : Option ℕ → ℕ → Option ℕ
left none count = none
left (some s) count = some (s - count)

minus_zero : (n : ℕ) → n - 0 ≡ n
minus_zero n = omega arith

none_left : (s count : ℕ) → s ≤ count → s - count ≡ 0
none_left s count h = omega (arith, h)

left-zero : (s : Option ℕ) → left s 0 ≡ s
left-zero none = refl
left-zero (some s) = ap some (minus_zero s)

remaining : (s count : ℕ) → count < s → s - count ≡ suc (s - (count + 1))
remaining s count h = omega (arith, h)

first_of-nil : (o : Option ℕ) → first_of o [] ≡ []
unfolding first_of
first_of-nil none = refl
first_of-nil (some zero) = refl
first_of-nil (some (suc n)) = refl

first_of-full :
    (s : Option ℕ) (count : ℕ) (xs : List LogEntry)
    → is_full s count ≡ true
    → first_of (left s count) xs ≡ []
unfolding first_of is_full
first_of-full none count xs h = ground (arith, h)
first_of-full (some s) count xs h = ap (λ n. take n xs) (none_left s count (leb→le s count h))

first_of-more :
    (s : Option ℕ) (count : ℕ) (e : LogEntry) (xs : List LogEntry)
    → is_full s count ≡ false
    → first_of (left s count) (e ∷ xs) ≡ e ∷ first_of (left s (count + 1)) xs
unfolding first_of is_full
first_of-more none count e xs h = refl
first_of-more (some s) count e xs h =
    ap (λ n. take n (e ∷ xs)) (remaining s count (ground (arith, h)))

module _ (compiles : Value → Bool) (now : ℕ) (t s : Option ℕ) where
  recover_loop-replay_from :
      (count : ℕ) (r : Replay) (log : List LogEntry)
      → recover_loop compiles now t s count r log
        ≡ replay_from compiles now r (first_of (left s count) (not_after t log))
  unfolding recover_loop not_after replay_from
  recover_loop-replay_from count r [] = rw (first_of-nil (left s count)) refl
  recover_loop-replay_from count r (e ∷ log) = elim (Bool-cases (is_after t e)) [
    | inl late ↦ rw (late, first_of-nil (left s count)) refl
    | inr early ↦ elim (Bool-cases (is_full s count)) [
      | inl full ↦ rw (early, full, first_of-full s count (e ∷ not_after t log) full) refl
      | inr more ↦
          rw (early, more, first_of-more s count e (not_after t log) more)
            (recover_loop-replay_from (count + 1) (replay_step compiles now r e) log)
    ]
  ]

  -- What is recovered is what a replay makes of the entries before the first one that is later than
  -- the time, and of no more of them than the number, where a time and a number are given: its
  -- documents that can be decoded, and its schemas.
  pub recover_to-stream_into_state :
      (log : List LogEntry)
      → recover_to compiles now t s log ≡ (
          let m : Memory = stream_into_state compiles now empty (first_of s (not_after t log)) in
          state_entries now m.state ++ schema_entries now m.schemas)
  unfolding recover_to stream_into_state
  recover_to-stream_into_state log =
      ap (λ r. state_entries now r.memory.state ++ schema_entries now r.memory.schemas)
        (recover_loop-replay_from 0 (record { memory = empty; active_tx = none; tx_buffer = [] })
            log
          ∙ ap
              (λ o.
                replay_from compiles now
                  (record { memory = empty; active_tx = none; tx_buffer = [] })
                  (first_of o (not_after t log)))
              (left-zero s))
