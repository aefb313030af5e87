-- ===== src/Prelude/Decimal.antt =====
-- `u64::to_string` and `str::parse::<u64>`.
use mathlib.Core.Path.{◌≡◌, refl, ◌∙◌}
use mathlib.Core.Bool.{◌&&◌}
use mathlib.Core.Option.{Option, none, some}
use mathlib.Core.List.{[], ◌∷◌}
use Prim.Native.Nat.{ℕ, zero, suc, ◌+◌, ◌-◌, ◌*◌, ◌/◌, ◌%◌, ◌^◌, ◌<◌}
use native.Mathlib.Nat.{pow-suc}
use native.Mathlib.Omega.{arith}
use molten_db.Prelude.Tests.{ltb, leb, nat_beq, if◌then◌else◌}
use molten_db.Prelude.Strings.{Str}

-- The digits of a number below 10 ^ (fuel + 1), in front of `tail`.
digits : ℕ → ℕ → Str → Str
digits zero n tail = (b'0' + n % 10) ∷ tail
digits (suc fuel) n tail =
    let more = digits fuel (n / 10) ((b'0' + n % 10) ∷ tail) in
    if ltb n 10 then (b'0' + n) ∷ tail else more

-- A `u64` has twenty digits at most.
unfoldable pub to_string : ℕ → Str
unfolding digits
to_string n = digits 20 n []

-- Digits only, and no overflow on the way.
parse_digits : ℕ → Str → Option ℕ
parse_digits acc [] = some acc
parse_digits acc (c ∷ s) =
    if leb b'0' c && leb c b'9' && ltb (acc * 10 + (c - b'0')) (2 ^ 64)
    then parse_digits (acc * 10 + (c - b'0')) s
    else none

-- One leading `+` is allowed, and some digit has to follow.
unfoldable pub parse_u64 : Str → Option ℕ
unfolding parse_digits
parse_u64 [] = none
parse_u64 (c ∷ []) = parse_digits 0 (c ∷ [])
parse_u64 (c ∷ d ∷ s) =
    if nat_beq c b'+' then parse_digits 0 (d ∷ s) else parse_digits 0 (c ∷ d ∷ s)

parse_digits-digits :
    (fuel n : ℕ) (tail : Str)
    → n < 10 ^ suc fuel
    → n < 2 ^ 64
    → parse_digits 0 (digits fuel n tail) ≡ parse_digits n tail
unfolding digits parse_digits
parse_digits-digits zero n tail h k =
    let digit : n % 10 ≡ n = omega arith in rw digit (ground arith)
parse_digits-digits (suc fuel) n tail h k =
    let bound : n < 10 ^ suc fuel * 10 = rw pow-suc at h in
    ground (arith, parse_digits-digits fuel (n / 10) ((b'0' + n % 10) ∷ tail))

-- The first character of a number is a digit, and so no `+`.
digits_first :
    (fuel n : ℕ) (tail : Str) → parse_u64 (digits fuel n tail) ≡ parse_digits 0 (digits fuel n tail)
unfolding parse_u64 digits
digits_first zero n [] = refl
digits_first zero n (c ∷ tail) = ground arith
digits_first (suc fuel) n [] = ground (arith, digits_first fuel (n / 10) ((b'0' + n % 10) ∷ []))
digits_first (suc fuel) n (c ∷ tail) =
    ground (arith, digits_first fuel (n / 10) ((b'0' + n % 10) ∷ c ∷ tail))

pub parse_u64-to_string : (n : ℕ) → n < 2 ^ 64 → parse_u64 (to_string n) ≡ some n
unfolding to_string parse_digits
parse_u64-to_string n h = digits_first 20 n [] ∙ parse_digits-digits 20 n [] (omega arith) h
