-- ===== src/Codec/RoundTrip/Scalars.antt =====
-- Numbers and strings read back.
use mathlib.Core.List.{append_assoc}
use molten_db.Prelude.{ℕ, suc, ◌+◌, ◌-◌, ◌/◌, ◌^◌, ◌<◌, ◌≡◌, some, ◌++◌, arith, Bytes, Str, length}
use molten_db.Json.{Number, pos_int, neg_int, float, number, string}
use molten_db.Codec.BigEndian.{write_be, split_bytes-append, read_be-write_be}
use molten_db.Codec.Canon.{IsText, IsNumber}
use molten_db.Codec.Marker.Bytes.{
  marker-fix_pos, marker-fix_neg, marker-fix_str, marker_uint_1, marker_uint_2, marker_uint_4,
  marker_uint_8, marker_int_1, marker_int_2, marker_int_4, marker_int_8, marker_f64, marker_str_1,
  marker_str_2, marker_str_4,
}
use molten_db.Codec.Read.{from_signed, read_text, read_marked, read_value}
use molten_db.Codec.Write.{write_number, write_str}

pub read_text-append : (s rest : Str) → IsText s → read_text (length s) (s ++ rest) ≡ some (s, rest)
unfolding read_text
read_text-append s rest t = rw (split_bytes-append s rest) (rw t.utf8)

module _ (s : Str) (t : IsText s) (fuel : ℕ) (rest : Bytes) where
  pub read_value-write_str : read_value (suc fuel) (write_str s ++ rest) ≡ some (string s, rest)
  unfolding read_value read_marked write_str
  read_value-write_str = ground (
    arith,
    marker-fix_str (length s),
    marker_str_1,
    marker_str_2,
    marker_str_4,
    read_be-write_be 1 (length s) (s ++ rest),
    read_be-write_be 2 (length s) (s ++ rest),
    read_be-write_be 4 (length s) (s ++ rest),
    append_assoc (write_be 1 (length s)) s rest,
    append_assoc (write_be 2 (length s)) s rest,
    append_assoc (write_be 4 (length s)) s rest,
    read_text-append s rest t,
  )

pub from_signed_neg :
    (w n : ℕ) → 256 ^ w / 2 + n < 256 ^ w → from_signed w (256 ^ w - 1 - n) ≡ neg_int n
unfolding from_signed
from_signed_neg w n h = ground arith

module _ (fuel : ℕ) (rest : Bytes) where
  pub read_value-write_number :
      (n : Number)
      → IsNumber n
      → read_value (suc fuel) (write_number n ++ rest) ≡ some (number n, rest)
  unfolding read_value read_marked write_number
  read_value-write_number (pos_int u) h = ground (
    arith,
    marker-fix_pos u,
    marker_uint_1,
    marker_uint_2,
    marker_uint_4,
    marker_uint_8,
    read_be-write_be 1 u rest,
    read_be-write_be 2 u rest,
    read_be-write_be 4 u rest,
    read_be-write_be 8 u rest,
  )
  read_value-write_number (neg_int n) h = ground (
    arith,
    marker-fix_neg n,
    marker_int_1,
    marker_int_2,
    marker_int_4,
    marker_int_8,
    from_signed_neg 1 n,
    from_signed_neg 2 n,
    from_signed_neg 4 n,
    from_signed_neg 8 n,
    read_be-write_be 1 (0xff - n) rest,
    read_be-write_be 2 (0xffff - n) rest,
    read_be-write_be 4 (0xffff_ffff - n) rest,
    read_be-write_be 8 (0xffff_ffff_ffff_ffff - n) rest,
  )
  read_value-write_number (float bits) h =
      rw marker_f64 (rw (read_be-write_be 8 bits rest h.0) (rw h.1))
