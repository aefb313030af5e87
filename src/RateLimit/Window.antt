-- ===== src/RateLimit/Window.antt =====
-- The checks and cleanups of one limiter, and what they keep of an address.
use molten_db.Prelude.{
  ◌≡◌, refl, arith, ℕ, ◌+◌, ◌*◌, ◌≤◌, ◌<◌, ◌&&◌, Bool, true, false, List, [], ◌∷◌, ◌++◌, nat_eq,
  nat_beq, ltb, leb, length, retain, get_or, if◌then◌else◌,
}
use molten_db.Prelude.Map
use molten_db.Prelude.Map.{Map}
use molten_db.RateLimit.{
  RateLimiter, nanos, Outcome, allowed, limited, panicked, recent, retry_after, refusal, admit,
  check_rate_limit, clean_requests, cleanup,
}

-- The timestamps of an address, none if it is not there.
abbrev pub entry_of : RateLimiter → ℕ → List ℕ
entry_of r ip = get_or (Map.get r.requests ip) []

-- What is recent at a time was recent at every earlier time, and in every wider window.
pub recent-recent :
    (window wider now later : ℕ) (xs : List ℕ)
    → now ≤ later
    → window ≤ wider
    → recent window later (recent wider now xs) ≡ recent window later xs
recent-recent window wider now later [] h k = refl
recent-recent window wider now later (x ∷ xs) h k =
    ground (arith, recent-recent window wider now later xs h k)

pub recent-append :
    (window now : ℕ) (xs ys : List ℕ)
    → recent window now (xs ++ ys) ≡ recent window now xs ++ recent window now ys
recent-append window now [] ys = refl
recent-append window now (x ∷ xs) ys = ground (arith, recent-append window now xs ys)

pub entry-clean_requests :
    (window now : ℕ) (m : Map ℕ (List ℕ)) (ip : ℕ)
    → get_or (Map.get (clean_requests window now m) ip) []
      ≡ recent (window + 60 * nanos) now (get_or (Map.get m ip) [])
unfolding clean_requests Map.get
entry-clean_requests window now [] ip = refl
entry-clean_requests window now ((j, ts) ∷ m) ip =
    elim (recent (window + 60 * nanos) now ts)
        as (λ xs.
          recent (window + 60 * nanos) now ts ≡ xs
          → get_or
              (Map.get
                (elim xs as (λ _. Map ℕ (List ℕ)) [
                  | [] ↦ Map.remove j (clean_requests window now m)
                  | t ∷ ts' ↦ (j, t ∷ ts') ∷ clean_requests window now m
                ])
                ip)
              []
            ≡ recent (window + 60 * nanos) now (get_or (Map.get ((j, ts) ∷ m) ip) [])) [
              | [] ↦ λ h. ground (
                arith,
                h,
                Map.get-remove j ip (clean_requests window now m),
                entry-clean_requests window now m ip,
              )
              | t ∷ ts' ↦ λ h. ground (arith, h, entry-clean_requests window now m ip)
            ]
      refl

retry_after-recent :
    (window now oldest : ℕ) → now < oldest + window → retry_after window now oldest ≡ 1
unfolding retry_after
retry_after-recent window now oldest h = ground arith

recent-first :
    (window now x : ℕ) (xs ys : List ℕ) → recent window now xs ≡ x ∷ ys → now < x + window
recent-first window now x [] ys h = ground (arith, h)
recent-first window now x (y ∷ xs) ys h = ground (arith, h, recent-first window now x xs ys)

admit-outcome :
    (r : RateLimiter) (now ip : ℕ) (entry : List ℕ)
    → ((x : ℕ) (xs : List ℕ) → entry ≡ x ∷ xs → now < x + r.window)
    → (admit now ip r entry).0 ≡ (
        if ltb (length entry) r.max_requests
        then allowed
        else if nat_beq (length entry) 0
        then panicked
        else limited 1 r.max_requests)
unfolding admit refusal
admit-outcome r now ip [] h = ground arith
admit-outcome r now ip (x ∷ xs) h = ground (arith, retry_after-recent r.window now x (h x xs refl))

-- A request is allowed if and only if fewer than the limit are recent. Another one is told to come
-- back after one second, however long its address has to wait, unless no request is recent, which
-- with a limit of 0 ends in a panic.
pub check_rate_limit-outcome :
    (r : RateLimiter) (now ip : ℕ)
    → (check_rate_limit now ip r).0 ≡ (
        let entry : List ℕ = recent r.window now (entry_of r ip) in
        if ltb (length entry) r.max_requests
        then allowed
        else if nat_beq (length entry) 0
        then panicked
        else limited 1 r.max_requests)
unfolding check_rate_limit
check_rate_limit-outcome r now ip =
    admit-outcome r now ip (recent r.window now (entry_of r ip))
      (λ x xs h. recent-first r.window now x (entry_of r ip) xs h)

-- The requests and the cleanups that a limiter sees, each at its time.
pub data Event : Type 0 where
  -- time, address
  request : ℕ → ℕ → Event
  clean : ℕ → Event

abbrev pub time_of : Event → ℕ
time_of (request now ip) = now
time_of (clean now) = now

abbrev pub InOrder : ℕ → List Event → Type 0
InOrder last [] = Unit
InOrder last (e ∷ es) = (last ≤ time_of e) × InOrder (time_of e) es

abbrev is_allowed : Outcome → Bool
is_allowed allowed = true
is_allowed _ = false

-- The time of the request, if it is of the address and let through.
abbrev pub counted : ℕ → ℕ → ℕ → RateLimiter → List ℕ
counted ip now j r =
    if is_allowed (check_rate_limit now j r).0 && nat_beq j ip then now ∷ [] else []

-- The times at which requests of an address are let through.
unfoldable pub accepted : ℕ → RateLimiter → List Event → List ℕ
accepted ip r [] = []
accepted ip r (request now j ∷ es) =
    counted ip now j r ++ accepted ip (check_rate_limit now j r).1 es
accepted ip r (clean now ∷ es) = accepted ip (cleanup now r) es

-- The times in the window that ends at a time.
abbrev pub within : ℕ → ℕ → List ℕ → List ℕ
within window at xs = retain (λ t. ltb at (t + window) && leb t at) xs

pub within-append :
    (window at : ℕ) (xs ys : List ℕ)
    → within window at (xs ++ ys) ≡ within window at xs ++ within window at ys
within-append window at [] ys = refl
within-append window at (x ∷ xs) ys = ground (arith, within-append window at xs ys)

pub length-within-le :
    (window now at : ℕ) (xs : List ℕ)
    → now ≤ at
    → length (within window at xs) ≤ length (recent window now xs)
length-within-le window now at [] h = omega arith
length-within-le window now at (x ∷ xs) h = ground (arith, length-within-le window now at xs h)

pub entry-admit :
    (r : RateLimiter) (now j ip : ℕ) (entry : List ℕ)
    → entry_of (admit now j r entry).1 ip ≡ (
        if nat_beq j ip
        then (if leb r.max_requests (length entry) then entry else entry ++ now ∷ [])
        else entry_of r ip)
unfolding admit
entry-admit r now j ip entry = ground (
  arith,
  Map.get-insert j ip entry r.requests,
  Map.get-insert j ip (entry ++ now ∷ []) r.requests,
)

pub settings-admit :
    (r : RateLimiter) (now j : ℕ) (entry : List ℕ)
    → ((admit now j r entry).1.window ≡ r.window)
      × ((admit now j r entry).1.max_requests ≡ r.max_requests)
unfolding admit
settings-admit r now j entry = (ground arith, ground arith)

pub counted-check :
    (r : RateLimiter) (now j ip : ℕ)
    → counted ip now j r ≡ (
        if leb r.max_requests (length (recent r.window now (entry_of r j)))
        then []
        else if nat_beq j ip
        then now ∷ []
        else [])
counted-check r now j ip = ground (arith, check_rate_limit-outcome r now j)
