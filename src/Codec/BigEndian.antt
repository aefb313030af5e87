-- ===== src/Codec/BigEndian.antt =====
-- `to_be_bytes` and `from_be_bytes`, and reading a given number of bytes off the front of a buffer.
use native.Mathlib.Nat.{pow-suc}
use molten_db.Prelude.{
  ℕ, zero, suc, ◌+◌, ◌*◌, ◌/◌, ◌%◌, ◌^◌, ◌<◌, ◌≡◌, refl, ap, ◌∙◌, Option, none, some, [], ◌∷◌, ◌++◌,
  arith, Bytes, length, ◌>>=◌,
}

-- The `n` low bytes of `v`, the highest first: `(v as uN).to_be_bytes()`.
unfoldable pub write_be : ℕ → ℕ → Bytes
write_be zero v = []
write_be (suc n) v = write_be n (v / 256) ++ v % 256 ∷ []

unfoldable pub from_be : ℕ → Bytes → ℕ
from_be acc [] = acc
from_be acc (b ∷ bs) = from_be (acc * 256 + b) bs

-- The first `n` bytes and the rest, if there are so many.
unfoldable pub split_bytes : ℕ → Bytes → Option (Bytes × Bytes)
split_bytes zero bs = some ([], bs)
split_bytes (suc n) [] = none
split_bytes (suc n) (b ∷ bs) = do (xs, rest) ← split_bytes n bs; some (b ∷ xs, rest)

-- `uN::from_be_bytes` of the next `n` bytes, or `none` if the buffer ends before.
unfoldable pub read_be : ℕ → Bytes → Option (ℕ × Bytes)
unfolding from_be split_bytes
read_be n bs = do (xs, rest) ← split_bytes n bs; some (from_be 0 xs, rest)

pub split_bytes-append : (xs rest : Bytes) → split_bytes (length xs) (xs ++ rest) ≡ some (xs, rest)
unfolding split_bytes
split_bytes-append [] rest = refl
split_bytes-append (x ∷ xs) rest = rw (split_bytes-append xs rest)

length-snoc : (xs : Bytes) (b : ℕ) → length (xs ++ b ∷ []) ≡ suc (length xs)
length-snoc [] b = refl
length-snoc (x ∷ xs) b = ap suc (length-snoc xs b)

pub length-write_be : (n v : ℕ) → length (write_be n v) ≡ n
unfolding write_be
length-write_be zero v = refl
length-write_be (suc n) v =
    length-snoc (write_be n (v / 256)) (v % 256) ∙ ap suc (length-write_be n (v / 256))

from_be-snoc :
    (acc : ℕ) (xs : Bytes) (b : ℕ) → from_be acc (xs ++ b ∷ []) ≡ from_be acc xs * 256 + b
unfolding from_be
from_be-snoc acc [] b = refl
from_be-snoc acc (x ∷ xs) b = from_be-snoc (acc * 256 + x) xs b

from_be-write_be : (n v : ℕ) → v < 256 ^ n → from_be 0 (write_be n v) ≡ v
unfolding write_be from_be
from_be-write_be zero v h = omega arith
from_be-write_be (suc n) v h =
    let bound : v < 256 ^ n * 256 = rw pow-suc at h in
    rw from_be-snoc (omega (arith, from_be-write_be n (v / 256) (omega arith)))

-- What was written reads back, if it fits its width.
pub read_be-write_be :
    (n v : ℕ) (rest : Bytes) → v < 256 ^ n → read_be n (write_be n v ++ rest) ≡ some (v, rest)
unfolding read_be
read_be-write_be n v rest h =
    let split : split_bytes n (write_be n v ++ rest) ≡ some (write_be n v, rest) =
      rw (length-write_be n v) at (split_bytes-append (write_be n v) rest) in
    rw split (rw (from_be-write_be n v h))
