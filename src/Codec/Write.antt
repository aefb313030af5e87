-- ===== src/Codec/Write.antt =====
-- `value_to_msgpack` of moltendb-core/src/common/system_field_tokens.rs: the keys of system fields
-- become one byte. A buffer that the source appends to is the list of the bytes appended.
use molten_db.Prelude.{
  ℕ, ◌+◌, ◌-◌, true, false, [], ◌∷◌, ◌++◌, ◌||◌, Bytes, Str, length, leb, str_beq, if◌then◌else◌,
}
use molten_db.Json.{
  Number, pos_int, neg_int, float, Value, Items, Fields, null, bool, number, string, array, object,
  nil, cons, end, field,
}
use molten_db.Json.Object
use molten_db.Codec.BigEndian.{write_be}
use molten_db.Codec.SystemFields

unfoldable pub write_number : Number → Bytes
write_number (pos_int u) =
    if leb u 0x7f
    then u ∷ []
    else if leb u 0xff
    then 0xcc ∷ write_be 1 u
    else if leb u 0xffff
    then 0xcd ∷ write_be 2 u
    else if leb u 0xffff_ffff
    then 0xce ∷ write_be 4 u
    else 0xcf ∷ write_be 8 u
-- The value is -(n + 1), and its two's complement in `w` bytes is that of 256 ^ w - 1 - n.
write_number (neg_int n) =
    if leb n 31
    then (0xff - n) ∷ []
    else if leb n 0x7f
    then 0xd0 ∷ write_be 1 (0xff - n)
    else if leb n 0x7fff
    then 0xd1 ∷ write_be 2 (0xffff - n)
    else if leb n 0x7fff_ffff
    then 0xd2 ∷ write_be 4 (0xffff_ffff - n)
    else 0xd3 ∷ write_be 8 (0xffff_ffff_ffff_ffff - n)
write_number (float bits) = 0xcb ∷ write_be 8 bits

-- `0xa0 | len` for `len <= 31` is a sum: the bits are apart. So for the other headers.
unfoldable pub str_header : ℕ → Bytes
str_header n =
    if leb n 31
    then (0xa0 + n) ∷ []
    else if leb n 0xff
    then 0xd9 ∷ write_be 1 n
    else if leb n 0xffff
    then 0xda ∷ write_be 2 n
    else 0xdb ∷ write_be 4 n

unfoldable pub write_str : Str → Bytes
unfolding str_header
write_str s = str_header (length s) ++ s

unfoldable pub write_array_header : ℕ → Bytes
write_array_header n =
    if leb n 15
    then (0x90 + n) ∷ []
    else if leb n 0xffff
    then 0xdc ∷ write_be 2 n
    else 0xdd ∷ write_be 4 n

unfoldable pub write_map_header : ℕ → Bytes
write_map_header n =
    if leb n 15
    then (0x80 + n) ∷ []
    else if leb n 0xffff
    then 0xde ∷ write_be 2 n
    else 0xdf ∷ write_be 4 n

-- A public name and the key in memory get the same token.
unfoldable pub write_map_key : Str → Bytes
write_map_key k =
    if str_beq k SystemFields.version || str_beq k SystemFields.ikey_version
    then SystemFields.tok_version ∷ []
    else if str_beq k SystemFields.key || str_beq k SystemFields.ikey_key
    then SystemFields.tok_key ∷ []
    else if str_beq k SystemFields.seq || str_beq k SystemFields.ikey_seq
    then SystemFields.tok_seq ∷ []
    else if str_beq k SystemFields.created_at || str_beq k SystemFields.ikey_created_at
    then SystemFields.tok_created_at ∷ []
    else if str_beq k SystemFields.modified_at || str_beq k SystemFields.ikey_modified_at
    then SystemFields.tok_modified_at ∷ []
    else if str_beq k SystemFields.expires_at || str_beq k SystemFields.ikey_expires_at
    then SystemFields.tok_expires_at ∷ []
    else write_str k

unfoldable mutual
  pub write_value : Value → Bytes
  write_value null = 0xc0 ∷ []
  write_value (bool true) = 0xc3 ∷ []
  write_value (bool false) = 0xc2 ∷ []
  write_value (number n) = write_number n
  write_value (string s) = write_str s
  write_value (array xs) = write_array_header (Object.count xs) ++ write_items xs
  write_value (object fs) = write_map_header (Object.len fs) ++ write_fields fs

  pub write_items : Items → Bytes
  write_items nil = []
  write_items (cons x xs) = write_value x ++ write_items xs

  pub write_fields : Fields → Bytes
  write_fields end = []
  write_fields (field k v fs) = write_map_key k ++ (write_value v ++ write_fields fs)

-- It never fails.
unfoldable pub value_to_msgpack : Value → Bytes
value_to_msgpack v = write_value v
