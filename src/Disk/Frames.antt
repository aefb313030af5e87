-- ===== src/Disk/Frames.antt =====
-- A frame that was written reads back, and one that is cut off does not.
use mathlib.Core.List.{append_assoc, append-nil}
use mathlib.Core.Path.{subst}
use native.Mathlib.Nat.{pow-suc}
use molten_db.Prelude.{
  ◌≡◌, refl, ◌∙◌, arith, ℕ, zero, suc, ◌+◌, ◌*◌, ◌/◌, ◌^◌, ◌<◌, ◌≤◌, none, some, [], ◌∷◌, ◌++◌,
  Bytes, length, length-append, take,
}
use molten_db.Codec.BigEndian.{split_bytes, split_bytes-append}
use molten_db.Wal.Entry.{LogEntry}
use molten_db.Wal.Encoding.{log_entry_to_msgpack}
use molten_db.Disk.{write_le, from_le, write_msgpack_entry, next_frame}

pub from_le-write_le : (n v : ℕ) → v < 256 ^ n → from_le (write_le n v) ≡ v
unfolding from_le write_le
from_le-write_le zero v h = omega (arith, h)
from_le-write_le (suc n) v h =
    let bound : v < 256 ^ n * 256 = rw pow-suc at h in
    omega (arith, from_le-write_le n (v / 256) (omega arith))

split_bytes-short : (n : ℕ) (bs : Bytes) → length bs < n → split_bytes n bs ≡ none
unfolding split_bytes
split_bytes-short zero bs h = absurd (omega (arith, h))
split_bytes-short (suc n) [] h = refl
split_bytes-short (suc n) (b ∷ bs) h = rw (split_bytes-short n bs (omega arith)) refl

length-take-le : (n : ℕ) (bs : Bytes) → length (take n bs) ≤ n
length-take-le zero bs = omega arith
length-take-le (suc n) [] = omega arith
length-take-le (suc n) (b ∷ bs) = omega (arith, length-take-le n bs)

-- The frame of a payload that follows its length.
next_frame-write_le :
    (n : ℕ) (bs : Bytes) → n < 2 ^ 32 → next_frame (write_le 4 n ++ bs) ≡ split_bytes n bs
unfolding next_frame write_le
next_frame-write_le n bs h =
    let back : from_le (write_le 4 n) ≡ n = from_le-write_le 4 n (omega arith) in rw back refl

module _ (e : LogEntry) (small : length (log_entry_to_msgpack e) < 2 ^ 32) where
  pub next_frame-write_msgpack_entry :
      (rest : Bytes)
      → next_frame (write_msgpack_entry e ++ rest) ≡ some (log_entry_to_msgpack e, rest)
  unfolding write_msgpack_entry
  next_frame-write_msgpack_entry rest =
      rw
        (
          append_assoc (write_le 4 (length (log_entry_to_msgpack e))) (log_entry_to_msgpack e) rest,
          next_frame-write_le (length (log_entry_to_msgpack e)) (log_entry_to_msgpack e ++ rest)
              small,
        )
        (split_bytes-append (log_entry_to_msgpack e) rest)

  -- The length of an entry and a part of its payload, with too little behind them.
  pub next_frame-cut :
      (k : ℕ) (more : Bytes)
      → k + length more < length (log_entry_to_msgpack e)
      → next_frame (
          write_le 4 (length (log_entry_to_msgpack e)) ++ (take k (log_entry_to_msgpack e) ++ more))
        ≡ none
  next_frame-cut k more h =
      next_frame-write_le (length (log_entry_to_msgpack e))
        (take k (log_entry_to_msgpack e) ++ more) small
      ∙ split_bytes-short (length (log_entry_to_msgpack e))
          (take k (log_entry_to_msgpack e) ++ more)
          (omega (
            arith,
            length-append (take k (log_entry_to_msgpack e)) more,
            length-take-le k (log_entry_to_msgpack e),
          ))

  pub next_frame-take :
      (k : ℕ)
      → k < length (write_msgpack_entry e)
      → next_frame (take k (write_msgpack_entry e)) ≡ none
  unfolding write_msgpack_entry write_le next_frame
  next_frame-take zero h = refl
  next_frame-take (suc zero) h = refl
  next_frame-take (suc (suc zero)) h = refl
  next_frame-take (suc (suc (suc zero))) h = refl
  next_frame-take (suc (suc (suc (suc k)))) h =
      subst (λ t. next_frame (write_le 4 (length (log_entry_to_msgpack e)) ++ t) ≡ none)
        (append-nil (take k (log_entry_to_msgpack e))) (next_frame-cut k [] (omega (arith, h)))
