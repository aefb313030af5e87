-- ===== src/Query/Bytes/Headers.antt =====
-- The readers of query.rs on the front of an encoded value.
use mathlib.Core.List.{append_assoc}
use molten_db.Prelude.{◌≡◌, arith, ℕ, ◌<◌, ◌^◌, true, false, none, some, ◌++◌, Bytes, Str, length}
use molten_db.Json.{Value, null, bool, number, string, array, object, pos_int, neg_int, float}
use molten_db.Json.Object
use molten_db.Codec.BigEndian.{write_be, read_be-write_be, split_bytes-append}
use molten_db.Codec.Canon.{IsText}
use molten_db.Codec.Marker.Bytes.{
  marker-fix_pos, marker-fix_neg, marker-fix_str, marker_uint_1, marker_uint_2, marker_uint_4,
  marker_uint_8, marker_int_1, marker_int_2, marker_int_4, marker_int_8, marker_f64, marker_str_1,
  marker_str_2, marker_str_4, marker-fix_map, marker_dict_2, marker_dict_4, marker-fix_array,
  marker_list_2, marker_list_4, marker_null, marker_boolean_true, marker_boolean_false,
}
use molten_db.Codec.Read.{read_text}
use molten_db.Codec.Token.Headers.{IsNoObject}
use molten_db.Codec.Write.{
  write_number, write_str, write_array_header, write_map_header, write_value,
}
use molten_db.Query.Bytes.{read_msgpack_str, read_msgpack_map_len}

pub read_msgpack_str-write_str :
    (s : Str) (rest : Bytes) → IsText s → read_msgpack_str (write_str s ++ rest) ≡ some (s, rest)
unfolding read_msgpack_str read_text write_str
read_msgpack_str-write_str s rest e = ground (
  arith,
  marker-fix_str (length s),
  marker_str_1,
  marker_str_2,
  marker_str_4,
  read_be-write_be 1 (length s) (s ++ rest),
  read_be-write_be 2 (length s) (s ++ rest),
  read_be-write_be 4 (length s) (s ++ rest),
  append_assoc (write_be 1 (length s)) s rest,
  append_assoc (write_be 2 (length s)) s rest,
  append_assoc (write_be 4 (length s)) s rest,
  split_bytes-append s rest,
  e.short,
  e.utf8,
)

pub read_msgpack_map_len-write_map_header :
    (n : ℕ) (rest : Bytes)
    → n < 2 ^ 32
    → read_msgpack_map_len (write_map_header n ++ rest) ≡ some (n, rest)
unfolding read_msgpack_map_len write_map_header
read_msgpack_map_len-write_map_header n rest h = ground (
  arith,
  marker-fix_map n,
  marker_dict_2,
  marker_dict_4,
  read_be-write_be 2 n rest,
  read_be-write_be 4 n rest,
)

pub read_msgpack_map_len-write_scalar :
    (v : Value) (rest : Bytes) → IsNoObject v → read_msgpack_map_len (write_value v ++ rest) ≡ none
unfolding read_msgpack_map_len write_value write_number write_str write_array_header
read_msgpack_map_len-write_scalar null rest h = ground (arith, marker_null)
read_msgpack_map_len-write_scalar (bool true) rest h = ground (arith, marker_boolean_true)
read_msgpack_map_len-write_scalar (bool false) rest h = ground (arith, marker_boolean_false)
read_msgpack_map_len-write_scalar (number (pos_int u)) rest h =
    ground (arith, marker-fix_pos u, marker_uint_1, marker_uint_2, marker_uint_4, marker_uint_8)
read_msgpack_map_len-write_scalar (number (neg_int n)) rest h =
    ground (arith, marker-fix_neg n, marker_int_1, marker_int_2, marker_int_4, marker_int_8)
read_msgpack_map_len-write_scalar (number (float bits)) rest h = ground (arith, marker_f64)
read_msgpack_map_len-write_scalar (string s) rest h =
    ground (arith, marker-fix_str (length s), marker_str_1, marker_str_2, marker_str_4)
read_msgpack_map_len-write_scalar (array xs) rest h =
    ground (arith, marker-fix_array (Object.count xs), marker_list_2, marker_list_4)
read_msgpack_map_len-write_scalar (object fs) rest h = absurd h
