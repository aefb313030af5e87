-- ===== src/Codec/Token/Headers.antt =====
-- What the readers of tokens find at the head of a written value.
use mathlib.Core.List.{append_assoc}
use molten_db.Prelude.{
  ℕ, suc, ◌^◌, ◌<◌, ◌≤◌, ◌≡◌, Option, none, some, true, false, ◌++◌, arith, Bytes, Str, length,
  ◌>>=◌,
}
use molten_db.Json.{
  Number, pos_int, neg_int, float, Value, null, bool, number, string, array, object,
}
use molten_db.Json.Numeric
use molten_db.Json.Object
use molten_db.Codec.BigEndian.{split_bytes-append, write_be, read_be-write_be}
use molten_db.Codec.Canon.{IsText, IsEncodable}
use molten_db.Codec.Marker.Bytes.{
  marker-fix_pos, marker-fix_neg, marker-fix_str, marker_uint_1, marker_uint_2, marker_uint_4,
  marker_uint_8, marker_int_1, marker_int_2, marker_int_4, marker_int_8, marker_f64, marker_str_1,
  marker_str_2, marker_str_4, marker-fix_map, marker_dict_2, marker_dict_4, marker-fix_array,
  marker_list_2, marker_list_4, marker_null, marker_boolean_true, marker_boolean_false,
}
use molten_db.Codec.Token.{read_map_header, read_uint_at, skip_key, find_token}
use molten_db.Codec.Write.{
  write_number, write_str, write_array_header, write_map_header, write_value,
}

-- The `u64` at the front, as the readers give it.
abbrev pub first {ℓ} : {A : Type ℓ} → Option (A × Bytes) → Option A
first o = o >>= λ p. some p.0

pub read_uint_at-pos_int :
    (u : ℕ) (rest : Bytes)
    → u < 2 ^ 64
    → read_uint_at (write_number (pos_int u) ++ rest) ≡ some (u, rest)
unfolding read_uint_at write_number
read_uint_at-pos_int u rest h = ground (
  arith,
  marker-fix_pos u,
  marker_uint_1,
  marker_uint_2,
  marker_uint_4,
  marker_uint_8,
  read_be-write_be 1 u rest,
  read_be-write_be 2 u rest,
  read_be-write_be 4 u rest,
  read_be-write_be 8 u rest,
)

read_uint_at-write_number :
    (n : Number) (rest : Bytes)
    → IsEncodable (number n)
    → first (read_uint_at (write_number n ++ rest)) ≡ Numeric.as_u64 n
unfolding read_uint_at write_number Numeric.as_u64
read_uint_at-write_number (pos_int u) rest h = ground (
  arith,
  marker-fix_pos u,
  marker_uint_1,
  marker_uint_2,
  marker_uint_4,
  marker_uint_8,
  read_be-write_be 1 u rest,
  read_be-write_be 2 u rest,
  read_be-write_be 4 u rest,
  read_be-write_be 8 u rest,
)
read_uint_at-write_number (neg_int n) rest h =
    ground (arith, marker-fix_neg n, marker_int_1, marker_int_2, marker_int_4, marker_int_8)
read_uint_at-write_number (float bits) rest h = ground (arith, marker_f64)

pub read_uint_at-write_value :
    (v : Value) (rest : Bytes)
    → IsEncodable v
    → first (read_uint_at (write_value v ++ rest)) ≡ Object.as_u64 v
unfolding write_value Object.as_u64 read_uint_at
read_uint_at-write_value null rest e = ground (arith, marker_null)
read_uint_at-write_value (bool true) rest e = ground (arith, marker_boolean_true)
read_uint_at-write_value (bool false) rest e = ground (arith, marker_boolean_false)
read_uint_at-write_value (number n) rest e = read_uint_at-write_number n rest e
read_uint_at-write_value (string s) rest e =
    unfold write_str in
    ground (arith, marker-fix_str (length s), marker_str_1, marker_str_2, marker_str_4)
read_uint_at-write_value (array xs) rest e =
    unfold write_array_header in
    ground (arith, marker-fix_array (Object.count xs), marker_list_2, marker_list_4)
read_uint_at-write_value (object fs) rest e =
    unfold write_map_header in
    ground (arith, marker-fix_map (Object.len fs), marker_dict_2, marker_dict_4)

pub read_map_header-write_map_header :
    (n : ℕ) (rest : Bytes)
    → n < 2 ^ 32
    → read_map_header (write_map_header n ++ rest) ≡ some (n, rest)
unfolding read_map_header write_map_header
read_map_header-write_map_header n rest h = ground (
  arith,
  marker-fix_map n,
  marker_dict_2,
  marker_dict_4,
  read_be-write_be 2 n rest,
  read_be-write_be 4 n rest,
)

abbrev pub IsNoObject : Value → Type 0
IsNoObject (object fs) = ⊥
IsNoObject _ = Unit

pub read_map_header-write_scalar :
    (v : Value) → IsNoObject v → read_map_header (write_value v) ≡ none
unfolding read_map_header write_value write_number write_str write_array_header
read_map_header-write_scalar null h = ground (arith, marker_null)
read_map_header-write_scalar (bool true) h = ground (arith, marker_boolean_true)
read_map_header-write_scalar (bool false) h = ground (arith, marker_boolean_false)
read_map_header-write_scalar (number (pos_int u)) h =
    ground (arith, marker-fix_pos u, marker_uint_1, marker_uint_2, marker_uint_4, marker_uint_8)
read_map_header-write_scalar (number (neg_int n)) h =
    ground (arith, marker-fix_neg n, marker_int_1, marker_int_2, marker_int_4, marker_int_8)
read_map_header-write_scalar (number (float bits)) h = ground (arith, marker_f64)
read_map_header-write_scalar (string s) h =
    ground (arith, marker-fix_str (length s), marker_str_1, marker_str_2, marker_str_4)
read_map_header-write_scalar (array xs) h =
    ground (arith, marker-fix_array (Object.count xs), marker_list_2, marker_list_4)
read_map_header-write_scalar (object fs) h = absurd h

-- A string key is passed over.
pub string_key :
    (t : ℕ) (skip : Bytes → Option Bytes) (k : Str) (n : ℕ) (tail : Bytes)
    → 0xe0 ≤ t
    → IsText k
    → find_token skip t (suc n) (write_str k ++ tail) ≡ (skip tail >>= find_token skip t n)
unfolding find_token skip_key write_str
string_key t skip k n tail high e = ground (
  arith,
  marker-fix_str (length k),
  marker_str_1,
  marker_str_2,
  marker_str_4,
  read_be-write_be 1 (length k) (k ++ tail),
  read_be-write_be 2 (length k) (k ++ tail),
  read_be-write_be 4 (length k) (k ++ tail),
  append_assoc (write_be 1 (length k)) k tail,
  append_assoc (write_be 2 (length k)) k tail,
  append_assoc (write_be 4 (length k)) k tail,
  split_bytes-append k tail,
  e.short,
)
