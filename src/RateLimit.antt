-- ===== src/RateLimit.antt =====
-- The sliding window of moltendb-server/src/rate_limit.rs. Times are nanoseconds, and the clock
-- stands still during a call. An address is a number.
pub mod Window
pub mod Limit
use molten_db.Prelude.{
  ℕ, ◌+◌, ◌-◌, ◌*◌, ◌/◌, Bool, List, [], ◌∷◌, ◌++◌, nat_eq, ltb, leb, length, retain, get_or,
  if◌then◌else◌,
}
use molten_db.Prelude.Map
use molten_db.Prelude.Map.{Map}

pub record RateLimiter : Type 0 where
  pub requests : Map ℕ (List ℕ)
  pub max_requests : ℕ
  pub window : ℕ

abbrev pub nanos : ℕ
nanos = 1000000000

unfoldable pub new : ℕ → ℕ → RateLimiter
new max_requests window_secs = record {
  requests = [];
  max_requests = max_requests;
  window = window_secs * nanos;
}

-- `RateLimitError` with its fields, or a panic: `first().unwrap()` on no timestamps.
pub data Outcome : Type 0 where
  allowed : Outcome
  limited : ℕ → ℕ → Outcome
  panicked : Outcome

-- `timestamp > now - window`; an `Instant` may lie before the start of the clock.
abbrev pub recent : ℕ → ℕ → List ℕ → List ℕ
recent window now timestamps = retain (λ t. ltb now (t + window)) timestamps

-- `oldest.elapsed().as_secs().saturating_sub(window.as_secs()).max(1)`
unfoldable pub retry_after : ℕ → ℕ → ℕ → ℕ
retry_after window now oldest =
    let secs : ℕ = (now - oldest) / nanos - window / nanos in if ltb secs 1 then 1 else secs

unfoldable pub refusal : RateLimiter → ℕ → List ℕ → Outcome
unfolding retry_after
refusal r now [] = panicked
refusal r now (oldest ∷ entry) = limited (retry_after r.window now oldest) r.max_requests

-- The rest of a check, for the timestamps that are left.
unfoldable pub admit : ℕ → ℕ → RateLimiter → List ℕ → Outcome × RateLimiter
unfolding refusal
admit now ip r entry =
    if leb r.max_requests (length entry)
    then (refusal r now entry, record r { requests = Map.insert ip entry r.requests })
    else (allowed, record r { requests = Map.insert ip (entry ++ now ∷ []) r.requests })

unfoldable pub check_rate_limit : ℕ → ℕ → RateLimiter → Outcome × RateLimiter
unfolding admit
check_rate_limit now ip r = admit now ip r (recent r.window now (get_or (Map.get r.requests ip) []))

-- An address that has no timestamps left goes. The keys of a map differ, so that the removal takes no
-- other entry with it.
unfoldable pub clean_requests : ℕ → ℕ → Map ℕ (List ℕ) → Map ℕ (List ℕ)
clean_requests window now [] = []
clean_requests window now ((ip, timestamps) ∷ m) =
    let rest = clean_requests window now m in
    elim (recent (window + 60 * nanos) now timestamps) [
      | [] ↦ Map.remove ip rest
      | t ∷ ts ↦ (ip, t ∷ ts) ∷ rest
    ]

unfoldable pub cleanup : ℕ → RateLimiter → RateLimiter
unfolding clean_requests
cleanup now r = record r { requests = clean_requests r.window now r.requests }
