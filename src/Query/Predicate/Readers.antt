-- ===== src/Query/Predicate/Readers.antt =====
-- What the readers of query.rs find at the front of an encoded value.
use mathlib.Core.List.{append_assoc}
use molten_db.Prelude.{
  ◌≡◌, refl, arith, ℕ, ◌-◌, ◌<◌, ◌^◌, Bool, true, false, Option, none, some, ◌++◌, Bytes, length,
  ◌>>=◌,
}
use molten_db.Json.{
  Value, Items, null, bool, number, string, array, object, pos_int, neg_int, float, Number,
}
use molten_db.Json.Object
use molten_db.Codec.BigEndian.{read_be-write_be}
use molten_db.Codec.Canon.{IsEncodable}
use molten_db.Codec.RoundTrip.Scalars.{from_signed_neg}
use molten_db.Codec.Marker.Bytes.{
  marker-fix_pos, marker-fix_neg, marker-fix_str, marker_uint_1, marker_uint_2, marker_uint_4,
  marker_uint_8, marker_int_1, marker_int_2, marker_int_4, marker_int_8, marker_f64, marker_str_1,
  marker_str_2, marker_str_4, marker-fix_map, marker_dict_2, marker_dict_4, marker-fix_array,
  marker_list_2, marker_list_4, marker_null, marker_boolean_true, marker_boolean_false,
}
use molten_db.Codec.Write.{
  write_number, write_str, write_array_header, write_map_header, write_value, write_items,
}
use molten_db.Query.Host.{Host, to_f64, as_f64}
use molten_db.Query.Bytes.{
  read_msgpack_str, read_msgpack_array_len, read_msgpack_number, read_msgpack_bool, read_str_value,
}
use molten_db.Query.Bytes.Headers.{read_msgpack_str-write_str}
use molten_db.Query.Predicate.{as_text}

abbrev pub IsNoText : Value → Type 0
IsNoText (string s) = ⊥
IsNoText _ = Unit

pub read_msgpack_str-write_other :
    (v : Value) (rest : Bytes) → IsNoText v → read_msgpack_str (write_value v ++ rest) ≡ none
unfolding read_msgpack_str write_value write_number write_array_header write_map_header
read_msgpack_str-write_other null rest h = ground (arith, marker_null)
read_msgpack_str-write_other (bool true) rest h = ground (arith, marker_boolean_true)
read_msgpack_str-write_other (bool false) rest h = ground (arith, marker_boolean_false)
read_msgpack_str-write_other (number (pos_int u)) rest h =
    ground (arith, marker-fix_pos u, marker_uint_1, marker_uint_2, marker_uint_4, marker_uint_8)
read_msgpack_str-write_other (number (neg_int n)) rest h =
    ground (arith, marker-fix_neg n, marker_int_1, marker_int_2, marker_int_4, marker_int_8)
read_msgpack_str-write_other (number (float bits)) rest h = ground (arith, marker_f64)
read_msgpack_str-write_other (string s) rest h = absurd h
read_msgpack_str-write_other (array xs) rest h =
    ground (arith, marker-fix_array (Object.count xs), marker_list_2, marker_list_4)
read_msgpack_str-write_other (object fs) rest h =
    ground (arith, marker-fix_map (Object.len fs), marker_dict_2, marker_dict_4)

abbrev pub as_bool : Value → Option Bool
as_bool (bool b) = some b
as_bool _ = none

pub read_msgpack_bool-write_value :
    (v : Value) (rest : Bytes) → read_msgpack_bool (write_value v ++ rest) ≡ as_bool v
unfolding read_msgpack_bool write_value write_number write_str write_array_header write_map_header
read_msgpack_bool-write_value null rest = ground (arith, marker_null)
read_msgpack_bool-write_value (bool true) rest = ground (arith, marker_boolean_true)
read_msgpack_bool-write_value (bool false) rest = ground (arith, marker_boolean_false)
read_msgpack_bool-write_value (number (pos_int u)) rest =
    ground (arith, marker-fix_pos u, marker_uint_1, marker_uint_2, marker_uint_4, marker_uint_8)
read_msgpack_bool-write_value (number (neg_int n)) rest =
    ground (arith, marker-fix_neg n, marker_int_1, marker_int_2, marker_int_4, marker_int_8)
read_msgpack_bool-write_value (number (float bits)) rest = ground (arith, marker_f64)
read_msgpack_bool-write_value (string s) rest =
    ground (arith, marker-fix_str (length s), marker_str_1, marker_str_2, marker_str_4)
read_msgpack_bool-write_value (array xs) rest =
    ground (arith, marker-fix_array (Object.count xs), marker_list_2, marker_list_4)
read_msgpack_bool-write_value (object fs) rest =
    ground (arith, marker-fix_map (Object.len fs), marker_dict_2, marker_dict_4)

module _ (h : Host) where
  read_number-write_number :
      (n : Number) (rest : Bytes)
      → IsEncodable (number n)
      → read_msgpack_number h (write_number n ++ rest) ≡ some (to_f64 h n)
  unfolding read_msgpack_number write_number to_f64
  read_number-write_number (pos_int u) rest e = ground (
    arith,
    marker-fix_pos u,
    marker_uint_1,
    marker_uint_2,
    marker_uint_4,
    marker_uint_8,
    read_be-write_be 1 u rest,
    read_be-write_be 2 u rest,
    read_be-write_be 4 u rest,
    read_be-write_be 8 u rest,
  )
  read_number-write_number (neg_int n) rest e = ground (
    arith,
    marker-fix_neg n,
    marker_int_1,
    marker_int_2,
    marker_int_4,
    marker_int_8,
    from_signed_neg 1 n,
    from_signed_neg 2 n,
    from_signed_neg 4 n,
    from_signed_neg 8 n,
    read_be-write_be 1 (0xff - n) rest,
    read_be-write_be 2 (0xffff - n) rest,
    read_be-write_be 4 (0xffff_ffff - n) rest,
    read_be-write_be 8 (0xffff_ffff_ffff_ffff - n) rest,
  )
  read_number-write_number (float bits) rest e =
      rw marker_f64 (rw (read_be-write_be 8 bits rest e.0) refl)

  pub read_msgpack_number-write_value :
      (v : Value) (rest : Bytes)
      → IsEncodable v
      → read_msgpack_number h (write_value v ++ rest) ≡ as_f64 h v
  unfolding read_msgpack_number write_value as_f64
  read_msgpack_number-write_value null rest e = ground (arith, marker_null)
  read_msgpack_number-write_value (bool true) rest e = ground (arith, marker_boolean_true)
  read_msgpack_number-write_value (bool false) rest e = ground (arith, marker_boolean_false)
  read_msgpack_number-write_value (number n) rest e = read_number-write_number n rest e
  read_msgpack_number-write_value (string s) rest e =
      unfold write_str in
      ground (arith, marker-fix_str (length s), marker_str_1, marker_str_2, marker_str_4)
  read_msgpack_number-write_value (array xs) rest e =
      unfold write_array_header in
      ground (arith, marker-fix_array (Object.count xs), marker_list_2, marker_list_4)
  read_msgpack_number-write_value (object fs) rest e =
      unfold write_map_header in
      ground (arith, marker-fix_map (Object.len fs), marker_dict_2, marker_dict_4)

  pub read_str_value-write_value :
      (v : Value) (rest : Bytes)
      → IsEncodable v
      → read_str_value h (write_value v ++ rest) ≡ (as_text v >>= λ s. some (h.lowercase s))
  unfolding read_str_value write_value
  read_str_value-write_value (string s) rest e = rw (read_msgpack_str-write_str s rest e)
  read_str_value-write_value null rest e = rw (read_msgpack_str-write_other null rest tt)
  read_str_value-write_value (bool b) rest e = rw (read_msgpack_str-write_other (bool b) rest tt)
  read_str_value-write_value (number n) rest e =
      rw (read_msgpack_str-write_other (number n) rest tt)
  read_str_value-write_value (array xs) rest e =
      rw (read_msgpack_str-write_other (array xs) rest tt)
  read_str_value-write_value (object fs) rest e =
      rw (read_msgpack_str-write_other (object fs) rest tt)

array_len-header :
    (n : ℕ) (rest : Bytes)
    → n < 2 ^ 32
    → read_msgpack_array_len (write_array_header n ++ rest) ≡ some (n, rest)
unfolding read_msgpack_array_len write_array_header
array_len-header n rest h = ground (
  arith,
  marker-fix_array n,
  marker_list_2,
  marker_list_4,
  read_be-write_be 2 n rest,
  read_be-write_be 4 n rest,
)

pub read_msgpack_array_len-write_array :
    (xs : Items) (rest : Bytes)
    → Object.count xs < 2 ^ 32
    → read_msgpack_array_len (write_value (array xs) ++ rest)
      ≡ some (Object.count xs, write_items xs ++ rest)
unfolding write_value
read_msgpack_array_len-write_array xs rest e =
    rw (append_assoc (write_array_header (Object.count xs)) (write_items xs) rest)
      (array_len-header (Object.count xs) (write_items xs ++ rest) e)

abbrev pub IsNoArray : Value → Type 0
IsNoArray (array xs) = ⊥
IsNoArray _ = Unit

pub read_msgpack_array_len-write_other :
    (v : Value) (rest : Bytes) → IsNoArray v → read_msgpack_array_len (write_value v ++ rest) ≡ none
unfolding read_msgpack_array_len write_value write_number write_str write_map_header
read_msgpack_array_len-write_other null rest h = ground (arith, marker_null)
read_msgpack_array_len-write_other (bool true) rest h = ground (arith, marker_boolean_true)
read_msgpack_array_len-write_other (bool false) rest h = ground (arith, marker_boolean_false)
read_msgpack_array_len-write_other (number (pos_int u)) rest h =
    ground (arith, marker-fix_pos u, marker_uint_1, marker_uint_2, marker_uint_4, marker_uint_8)
read_msgpack_array_len-write_other (number (neg_int n)) rest h =
    ground (arith, marker-fix_neg n, marker_int_1, marker_int_2, marker_int_4, marker_int_8)
read_msgpack_array_len-write_other (number (float bits)) rest h = ground (arith, marker_f64)
read_msgpack_array_len-write_other (string s) rest h =
    ground (arith, marker-fix_str (length s), marker_str_1, marker_str_2, marker_str_4)
read_msgpack_array_len-write_other (array xs) rest h = absurd h
read_msgpack_array_len-write_other (object fs) rest h =
    ground (arith, marker-fix_map (Object.len fs), marker_dict_2, marker_dict_4)
