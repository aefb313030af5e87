-- ===== src/RateLimit/Limit.antt =====
-- No address gets more requests through than the limit in any window.
use mathlib.Core.Path.{subst, subst⁻¹}
use mathlib.Core.List.{append_assoc, append-nil}
use molten_db.Prelude.{
  ◌≡◌, refl, sym, ap, ◌∙◌, arith, ℕ, ◌+◌, ◌*◌, ◌≤◌, List, [], ◌∷◌, ◌++◌, nat_eq, nat_beq,
  nat_beq_iff, ltb, length, if◌then◌else◌, length-append, Bool-cases, inl, inr,
}
use molten_db.Prelude.Map
use molten_db.Prelude.Map.{Map}
use molten_db.RateLimit.{
  RateLimiter, new, nanos, allowed, limited, panicked, recent, check_rate_limit, cleanup,
}
use molten_db.RateLimit.Window.{
  check_rate_limit-outcome, entry_of, recent-recent, recent-append, entry-clean_requests,
  within-append, length-within-le, entry-admit, settings-admit, counted-check, counted, within,
  accepted, Event, request, clean, InOrder,
}

module _ (ip last now : ℕ) (r : RateLimiter) (history : List ℕ) (later : last ≤ now)
    (kept : (at : ℕ) → last ≤ at → recent r.window at (entry_of r ip) ≡ recent r.window at history)
    (bounded : (at : ℕ) → length (within r.window at history) ≤ r.max_requests) where
  same_kept :
      (j at : ℕ)
      → now ≤ at
      → j ≡ ip
      → recent r.window at (entry_of (check_rate_limit now j r).1 ip)
        ≡ recent r.window at (history ++ counted ip now j r)
  unfolding check_rate_limit
  same_kept j at h e =
      let entry : List ℕ = recent r.window now (entry_of r j) in
      ground (
        arith,
        e,
        entry-admit r now j ip entry,
        counted-check r now j ip,
        recent-recent r.window r.window now at (entry_of r j) h (omega arith),
        recent-append r.window at entry (now ∷ []),
        recent-append r.window at history (now ∷ []),
        kept at (omega (arith, h, later)),
        append-nil history,
      )

  check-kept :
      (j at : ℕ)
      → now ≤ at
      → recent r.window at (entry_of (check_rate_limit now j r).1 ip)
        ≡ recent r.window at (history ++ counted ip now j r)
  unfolding check_rate_limit
  check-kept j at h = elim (Bool-cases (nat_beq j ip)) [
    | inl e ↦ same_kept j at h ((nat_beq_iff j ip).0 e)
    | inr e ↦
        ap (recent r.window at)
          (entry-admit r now j ip (recent r.window now (entry_of r j)) ∙ ground (arith, e))
        ∙ kept at (omega (arith, h, later))
        ∙ ap (recent r.window at) (sym (append-nil history))
        ∙ ap (λ c. recent r.window at (history ++ c))
            (sym (counted-check r now j ip ∙ ground (arith, e)))
  ]

  check-bounded :
      (j at : ℕ) → length (within r.window at (history ++ counted ip now j r)) ≤ r.max_requests
  check-bounded j at = ground (
    arith,
    counted-check r now j ip,
    nat_beq_iff j ip,
    within-append r.window at history (now ∷ []),
    length-append (within r.window at history) (within r.window at (now ∷ [])),
    length-within-le r.window now at history,
    kept now later,
    bounded at,
    append-nil history,
  )

settings-check :
    (r : RateLimiter) (now j : ℕ)
    → ((check_rate_limit now j r).1.window ≡ r.window)
      × ((check_rate_limit now j r).1.max_requests ≡ r.max_requests)
unfolding check_rate_limit
settings-check r now j = settings-admit r now j (recent r.window now (entry_of r j))

-- What a limiter knows of an address, against the times at which it let the address through.
record Tracks (ip last : ℕ) (r : RateLimiter) (history : List ℕ) : Type 0 where
  kept : (at : ℕ) → last ≤ at → recent r.window at (entry_of r ip) ≡ recent r.window at history
  bounded : (at : ℕ) → length (within r.window at history) ≤ r.max_requests

check-Tracks :
    (ip last now j : ℕ) (r : RateLimiter) (history : List ℕ)
    → Tracks ip last r history
    → last ≤ now
    → Tracks ip now (check_rate_limit now j r).1 (history ++ counted ip now j r)
check-Tracks ip last now j r history t later =
    let settings = settings-check r now j in
    record {
      kept = λ at h.
          subst⁻¹
            (λ w.
              recent w at (entry_of (check_rate_limit now j r).1 ip)
              ≡ recent w at (history ++ counted ip now j r))
            settings.0 (check-kept ip last now r history later t.kept t.bounded j at h);
      bounded = λ at.
          subst⁻¹
            (λ w.
              length (within w at (history ++ counted ip now j r))
              ≤ (check_rate_limit now j r).1.max_requests)
            settings.0
            (subst⁻¹ (λ m. length (within r.window at (history ++ counted ip now j r)) ≤ m)
              settings.1 (check-bounded ip last now r history later t.kept t.bounded j at));
    }

cleanup-Tracks :
    (ip last now : ℕ) (r : RateLimiter) (history : List ℕ)
    → Tracks ip last r history
    → last ≤ now
    → Tracks ip now (cleanup now r) history
unfolding cleanup
cleanup-Tracks ip last now r history t later = record {
  kept = λ at h.
      ap (recent r.window at) (entry-clean_requests r.window now r.requests ip)
      ∙ recent-recent r.window (r.window + 60 * nanos) now at (entry_of r ip) h (omega arith)
      ∙ t.kept at (omega (arith, h, later));
  bounded = t.bounded;
}

accepted-le :
    (ip last : ℕ) (r : RateLimiter) (history : List ℕ) (events : List Event) (at : ℕ)
    → Tracks ip last r history
    → InOrder last events
    → length (within r.window at (history ++ accepted ip r events)) ≤ r.max_requests
unfolding accepted cleanup
accepted-le ip last r history [] at t o =
    subst⁻¹ (λ xs. length (within r.window at xs) ≤ r.max_requests) (append-nil history)
      (t.bounded at)
accepted-le ip last r history (request now j ∷ events) at t o =
    let r1 : RateLimiter = (check_rate_limit now j r).1 in
    let settings = settings-check r now j in
    subst (λ xs. length (within r.window at xs) ≤ r.max_requests)
      (append_assoc history (counted ip now j r) (accepted ip r1 events))
      (subst
        (λ m.
          length (within r.window at ((history ++ counted ip now j r) ++ accepted ip r1 events))
          ≤ m)
        settings.1
        (subst
          (λ w.
            length (within w at ((history ++ counted ip now j r) ++ accepted ip r1 events))
            ≤ r1.max_requests)
          settings.0
          (accepted-le ip now r1 (history ++ counted ip now j r) events at
            (check-Tracks ip last now j r history t o.0) o.1)))
accepted-le ip last r history (clean now ∷ events) at t o =
    accepted-le ip now (cleanup now r) history events at
      (cleanup-Tracks ip last now r history t o.0) o.1

-- In any run of checks and cleanups of a new limiter, whose times do not go back, and for every
-- address: at most the limit of requests of the address are let through in any window of time.
pub accepted-limit :
    (max secs ip at : ℕ) (events : List Event)
    → InOrder 0 events
    → length (within (secs * nanos) at (accepted ip (new max secs) events)) ≤ max
unfolding new Map.get
accepted-limit max secs ip at events o =
    accepted-le ip 0 (new max secs) [] events at
      (record { kept = λ at h. refl; bounded = λ at. omega arith }) o

-- A cleanup does not change what any later check of any address answers.
pub check_rate_limit-cleanup :
    (r : RateLimiter) (now later ip : ℕ)
    → now ≤ later
    → (check_rate_limit later ip (cleanup now r)).0 ≡ (check_rate_limit later ip r).0
unfolding cleanup
check_rate_limit-cleanup r now later ip h =
    check_rate_limit-outcome (cleanup now r) later ip
    ∙ ap
        (λ entry.
          if ltb (length entry) r.max_requests
          then allowed
          else if nat_beq (length entry) 0
          then panicked
          else limited 1 r.max_requests)
        (ap (recent r.window later) (entry-clean_requests r.window now r.requests ip)
          ∙ recent-recent r.window (r.window + 60 * nanos) now later (entry_of r ip) h
              (omega arith))
    ∙ sym (check_rate_limit-outcome r later ip)
