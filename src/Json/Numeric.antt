-- ===== src/Json/Numeric.antt =====
-- `serde_json::Number`: a `u64`, a negative `i64`, or a finite `f64`.
use molten_db.Prelude.{
  ℕ, zero, suc, ◌+◌, ◌-◌, ◌*◌, ◌/◌, ◌%◌, ◌^◌, Option, none, some, ltb, nat_beq, if◌then◌else◌,
}

-- `neg_int n` is -(n + 1). A float is its IEEE 754 bit pattern.
pub data Number : Type 0 where
  pos_int : ℕ → Number
  neg_int : ℕ → Number
  float : ℕ → Number

-- `Number::from_f64`, which has no NaN and no infinity: those have every exponent bit set.
unfoldable pub from_f64 : ℕ → Option Number
from_f64 bits = if nat_beq (bits / 2 ^ 52 % 2 ^ 11) 2047 then none else some (float bits)

-- `Number::as_u64`
unfoldable pub as_u64 : Number → Option ℕ
as_u64 (pos_int u) = some u
as_u64 (neg_int n) = none
as_u64 (float bits) = none

-- The position of the highest set bit of a number below 2 ^ (fuel + 1).
highest_bit : ℕ → ℕ → ℕ
highest_bit zero n = 0
highest_bit (suc fuel) n = let rest = highest_bit fuel (n / 2) in if ltb n 2 then 0 else suc rest

-- `f32 as f64`, on bit patterns. A subnormal `f32` becomes a normal `f64`.
unfoldable pub widen : ℕ → ℕ
unfolding highest_bit
widen bits =
    let sign : ℕ = bits / 2 ^ 31 % 2 * 2 ^ 63 in
    let exponent : ℕ = bits / 2 ^ 23 % 2 ^ 8 in
    let mantissa : ℕ = bits % 2 ^ 23 in
    let high = highest_bit 22 mantissa in
    if nat_beq exponent 255
    then sign + 2047 * 2 ^ 52 + mantissa * 2 ^ 29
    else if ltb 0 exponent
    then sign + (exponent + 896) * 2 ^ 52 + mantissa * 2 ^ 29
    else if nat_beq mantissa 0
    then sign
    else sign + (high + 874) * 2 ^ 52 + (mantissa - 2 ^ high) * 2 ^ (52 - high)
