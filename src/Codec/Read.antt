-- ===== src/Codec/Read.antt =====
-- `msgpack_to_value` of moltendb-core/src/common/system_field_tokens.rs. The source advances a
-- position in the buffer; here a reader takes what stands from the position on, and returns what
-- is left. Each nested value lies behind at least one byte of its container, so the nesting is
-- bounded by the bytes that are left, which is the fuel.
use molten_db.Prelude.{
  ℕ, zero, suc, ◌+◌, ◌-◌, ◌/◌, ◌%◌, ◌^◌, Option, none, some, [], ◌∷◌, Bytes, Str, length, drop, ltb,
  leb, nat_beq, ◌>>=◌, if◌then◌else◌,
}
use molten_db.Json.{
  Number, pos_int, neg_int, Value, Items, Fields, number, string, array, object, nil, cons, end,
  bool,
}
use molten_db.Json.Numeric
use molten_db.Json.Object
use molten_db.Codec.BigEndian.{split_bytes, read_be}
use molten_db.Codec.Marker.{
  Marker, marker, fix_pos, fix_neg, fix_map, fix_array, fix_str, uint, int, bin, str, list, dict,
  boolean, f32, f64, reserved,
}
use molten_db.Codec.SystemFields
use molten_db.Codec.Utf8.{is_utf8}

abbrev pub Reader : Type 0 → Type 0
Reader A = Bytes → Option (A × Bytes)

-- Two's complement of `w` bytes, as `Number::from(i64)` stores it.
unfoldable pub from_signed : ℕ → ℕ → Number
from_signed w v = if ltb v (256 ^ w / 2) then pos_int v else neg_int (256 ^ w - 1 - v)

unfoldable pub read_text : ℕ → Reader Str
read_text n bs = do (s, rest) ← split_bytes n bs; if is_utf8 s then some (s, rest) else none

-- `format!("{}", byte as i8)` of a byte from 0xe0 to 0xf9
unfoldable pub negative_name : ℕ → Str
negative_name b =
    let n = 256 - b in
    if ltb n 10 then b'-' ∷ (b'0' + n) ∷ [] else b'-' ∷ (b'0' + n / 10) ∷ (b'0' + n % 10) ∷ []

text_only : Option (Value × Bytes) → Option (Str × Bytes)
text_only (some (string s, rest)) = some (s, rest)
text_only _ = none

module _ (read : Reader Value) where
  unfoldable pub read_map_key : Reader Str
  unfolding text_only negative_name
  read_map_key [] = none
  read_map_key (b ∷ bs) =
      if nat_beq b SystemFields.tok_version
      then some (SystemFields.ikey_version, bs)
      else if nat_beq b SystemFields.tok_key
      then some (SystemFields.ikey_key, bs)
      else if nat_beq b SystemFields.tok_seq
      then some (SystemFields.ikey_seq, bs)
      else if nat_beq b SystemFields.tok_created_at
      then some (SystemFields.ikey_created_at, bs)
      else if nat_beq b SystemFields.tok_modified_at
      then some (SystemFields.ikey_modified_at, bs)
      else if nat_beq b SystemFields.tok_expires_at
      then some (SystemFields.ikey_expires_at, bs)
      else if leb 0xe0 b
      then some (negative_name b, bs)
      else text_only (read (b ∷ bs))

  unfoldable pub read_items : ℕ → Reader Items
  read_items zero bs = some (nil, bs)
  read_items (suc n) bs = do
    (v, rest) ← read bs
    (vs, rest') ← read_items n rest
    some (cons v vs, rest')

  unfoldable pub read_entries : ℕ → Fields → Reader Fields
  read_entries zero map bs = some (map, bs)
  read_entries (suc n) map bs = do
    (k, rest) ← read_map_key bs
    (v, rest') ← read rest
    read_entries n (Object.insert k v map) rest'

  unfoldable pub read_array : ℕ → Reader Value
  read_array n bs = do (vs, rest) ← read_items n bs; some (array vs, rest)

  unfoldable pub read_map : ℕ → Reader Value
  read_map n bs = do (fs, rest) ← read_entries n end bs; some (object fs, rest)

  unfoldable pub read_marked : Marker → Reader Value
  read_marked (fix_pos n) bs = some (number (pos_int n), bs)
  read_marked (fix_neg n) bs = some (number (neg_int n), bs)
  read_marked (fix_map n) bs = read_map n bs
  read_marked (fix_array n) bs = read_array n bs
  read_marked (fix_str n) bs = do (s, rest) ← read_text n bs; some (string s, rest)
  read_marked (uint w) bs = do (v, rest) ← read_be w bs; some (number (pos_int v), rest)
  read_marked (int w) bs = do (v, rest) ← read_be w bs; some (number (from_signed w v), rest)
  -- Binary data is skipped, also where it is longer than what is left.
  read_marked (bin w) bs = do (n, rest) ← read_be w bs; some (Value.null, drop n rest)
  read_marked (str w) bs = do
    (n, rest) ← read_be w bs
    (s, rest') ← read_text n rest
    some (string s, rest')
  read_marked (list w) bs = do (n, rest) ← read_be w bs; read_array n rest
  read_marked (dict w) bs = do (n, rest) ← read_be w bs; read_map n rest
  read_marked (boolean b) bs = some (bool b, bs)
  read_marked Marker.null bs = some (Value.null, bs)
  read_marked f32 bs = do
    (bits, rest) ← read_be 4 bs
    x ← Numeric.from_f64 (Numeric.widen bits)
    some (number x, rest)
  read_marked f64 bs = do
    (bits, rest) ← read_be 8 bs
    x ← Numeric.from_f64 bits
    some (number x, rest)
  read_marked reserved bs = none

unfoldable pub read_value : ℕ → Reader Value
read_value zero bs = none
read_value (suc fuel) [] = none
read_value (suc fuel) (b ∷ bs) = read_marked (read_value fuel) (marker b) bs

-- What follows the value is not looked at.
unfoldable pub msgpack_to_value : Bytes → Option Value
msgpack_to_value bs = do (v, _) ← read_value (length bs) bs; some v
