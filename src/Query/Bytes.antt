-- ===== src/Query/Bytes.antt =====
-- The readers of query.rs that walk MsgPack bytes. `rmp::decode::read_marker` gives the marker of the
-- first byte. `skip` is the deserialization of an ignored value by `rmp_serde`, which may fail.
pub mod Headers
pub mod Points
pub mod Laws
use molten_db.Prelude.{
  ℕ, zero, suc, Bool, true, false, Option, none, some, List, [], ◌∷◌, Bytes, Str, str_beq, leb,
  get_or, ◌>>=◌, if◌then◌else◌,
}
use molten_db.Json.Numeric
use molten_db.Json.{pos_int, neg_int}
use molten_db.Codec.BigEndian.{read_be}
use molten_db.Codec.Marker.{
  Marker, marker, fix_pos, fix_neg, fix_array, fix_str, fix_map, uint, int, str, list, dict,
  boolean, f32, f64,
}
use molten_db.Codec.Read.{Reader, read_text, from_signed}
use molten_db.Query.Host.{Host, to_f64}

unfoldable pub str_marked : Marker → Reader Str
unfolding read_text
str_marked (fix_str n) bs = read_text n bs
str_marked (str w) bs = do (n, rest) ← read_be w bs; read_text n rest
str_marked _ bs = none

unfoldable pub read_msgpack_str : Reader Str
unfolding str_marked
read_msgpack_str [] = none
read_msgpack_str (b ∷ bs) = str_marked (marker b) bs

unfoldable pub map_marked : Marker → Reader ℕ
map_marked (fix_map n) bs = some (n, bs)
map_marked (dict w) bs = read_be w bs
map_marked _ bs = none

unfoldable pub read_msgpack_map_len : Reader ℕ
unfolding map_marked
read_msgpack_map_len [] = none
read_msgpack_map_len (b ∷ bs) = map_marked (marker b) bs

unfoldable pub array_marked : Marker → Reader ℕ
array_marked (fix_array n) bs = some (n, bs)
array_marked (list w) bs = read_be w bs
array_marked _ bs = none

unfoldable pub read_msgpack_array_len : Reader ℕ
unfolding array_marked
read_msgpack_array_len [] = none
read_msgpack_array_len (b ∷ bs) = array_marked (marker b) bs

-- The number at the front as a double.
unfoldable pub number_marked : Host → Marker → Bytes → Option ℕ
unfolding to_f64 from_signed
number_marked h (fix_pos n) bs = some (to_f64 h (pos_int n))
number_marked h (fix_neg n) bs = some (to_f64 h (neg_int n))
number_marked h (uint w) bs = do (v, _) ← read_be w bs; some (to_f64 h (pos_int v))
number_marked h (int w) bs = do (v, _) ← read_be w bs; some (to_f64 h (from_signed w v))
number_marked h f32 bs = do (bits, _) ← read_be 4 bs; some (Numeric.widen bits)
number_marked h f64 bs = do (bits, _) ← read_be 8 bs; some bits
number_marked h _ bs = none

unfoldable pub read_msgpack_number : Host → Bytes → Option ℕ
unfolding number_marked
read_msgpack_number h [] = none
read_msgpack_number h (b ∷ bs) = number_marked h (marker b) bs

unfoldable pub bool_marked : Marker → Option Bool
bool_marked (boolean b) = some b
bool_marked _ = none

unfoldable pub read_msgpack_bool : Bytes → Option Bool
unfolding bool_marked
read_msgpack_bool [] = none
read_msgpack_bool (b ∷ bs) = bool_marked (marker b)

unfoldable pub read_str_value : Host → Bytes → Option Str
unfolding read_msgpack_str
read_str_value h bs = do (s, _) ← read_msgpack_str bs; some (h.lowercase s)

module _ (skip : Bytes → Option Bytes) where
  -- Nothing is left where the value cannot be skipped.
  abbrev pub skip_value : Bytes → Bytes
  skip_value bs = get_or (skip bs) []

  -- Of `n` entries of a map, the bytes from the value of a key on. Keys of one byte are passed over.
  unfoldable pub scan_map : Str → ℕ → Bytes → Option Bytes
  unfolding read_msgpack_str
  scan_map segment zero bs = none
  scan_map segment (suc n) [] = none
  scan_map segment (suc n) (b ∷ bs) =
      let past_token = scan_map segment n (skip_value bs) in
      let past_key = (do
        (key, rest) ← read_msgpack_str (b ∷ bs)
        if str_beq key segment then some rest else scan_map segment n (skip_value rest)) in
      if leb 0xe0 b then past_token else past_key

  unfoldable pub find_msgpack_value : List Str → Bytes → Option Bytes
  unfolding read_msgpack_map_len scan_map
  find_msgpack_value [] bs = none
  find_msgpack_value (segment ∷ []) bs = do
    (n, rest) ← read_msgpack_map_len bs
    scan_map segment n rest
  find_msgpack_value (segment ∷ (next ∷ path)) bs = do
    (n, rest) ← read_msgpack_map_len bs
    value ← scan_map segment n rest
    find_msgpack_value (next ∷ path) value
