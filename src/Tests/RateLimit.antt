-- ===== src/Tests/RateLimit.antt =====
-- A limiter of two requests in a second.
use molten_db.Prelude.{◌≡◌, ℕ, ◌*◌, ◌≤◌, List, [], ◌∷◌, length, nat_beq, ltb, if◌then◌else◌, arith}
use molten_db.RateLimit.{
  RateLimiter, new, nanos, allowed, limited, panicked, recent, check_rate_limit, cleanup,
}
use molten_db.RateLimit.Window.{
  entry_of, Event, request, clean, within, accepted, check_rate_limit-outcome,
}
use molten_db.RateLimit.Limit.{accepted-limit, check_rate_limit-cleanup}

abbrev limiter : RateLimiter
limiter = (check_rate_limit 20 7 (check_rate_limit 10 7 (new 2 1)).1).1

check_rate_limit-outcome_example : (check_rate_limit 30 7 limiter).0 ≡ (
    let entry : List ℕ = recent limiter.window 30 (entry_of limiter 7) in
    if ltb (length entry) limiter.max_requests
    then allowed
    else if nat_beq (length entry) 0
    then panicked
    else limited 1 limiter.max_requests)
check_rate_limit-outcome_example = check_rate_limit-outcome limiter 30 7

abbrev events : List Event
events = request 10 7 ∷ request 20 7 ∷ clean 25 ∷ request 30 7 ∷ []

accepted-limit_example : length (within (1 * nanos) 30 (accepted 7 (new 2 1) events)) ≤ 2
accepted-limit_example =
    accepted-limit 2 1 7 30 events (omega arith, (omega arith, (omega arith, (omega arith, tt))))

check_rate_limit-cleanup_example :
    (check_rate_limit 30 7 (cleanup 25 limiter)).0 ≡ (check_rate_limit 30 7 limiter).0
check_rate_limit-cleanup_example = check_rate_limit-cleanup limiter 25 30 7 (omega arith)
