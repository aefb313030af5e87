-- ===== src/Codec/Token.antt =====
-- The readers of system_field_tokens.rs that pick one number out of an encoded document without
-- decoding it: `read_token_u64` and `read_msgpack_seq_token`. They skip over the values of other
-- keys with `rmp_serde` (a library), which is the parameter `skip`.
pub mod Headers
pub mod Keys
pub mod Laws
use molten_db.Prelude.{
  ℕ, zero, suc, ◌-◌, ◌^◌, Option, none, some, [], ◌∷◌, Bytes, nat_beq, str_beq, Str, get_or, ◌>>=◌,
  if◌then◌else◌,
}
use molten_db.Codec.BigEndian.{split_bytes, read_be}
use molten_db.Codec.Marker.{Marker, marker, fix_pos, fix_map, fix_str, uint, str, dict}
use molten_db.Codec.Read.{Reader}
use molten_db.Codec.SystemFields

unfoldable pub map_header : Marker → Reader ℕ
map_header (fix_map n) bs = some (n, bs)
map_header (dict w) bs = read_be w bs
map_header _ bs = none

unfoldable pub read_map_header : Reader ℕ
unfolding map_header
read_map_header [] = none
read_map_header (b ∷ bs) = map_header (marker b) bs

unfoldable pub uint_at : Marker → Reader ℕ
uint_at (fix_pos n) bs = some (n, bs)
uint_at (uint w) bs = read_be w bs
uint_at _ bs = none

unfoldable pub read_uint_at : Reader ℕ
unfolding uint_at
read_uint_at [] = none
read_uint_at (b ∷ bs) = uint_at (marker b) bs

-- Past the bytes of a string key whose first byte was read. A string that is cut off makes the
-- source slice out of bounds; no encoded document has one.
unfoldable pub skip_key : Marker → Bytes → Option Bytes
skip_key (fix_str n) bs = do (_, rest) ← split_bytes n bs; some rest
skip_key (str w) bs = do (n, rest) ← read_be w bs; (_, rest') ← split_bytes n rest; some rest'
skip_key _ bs = some bs

module _ (skip : Bytes → Option Bytes) where
  unfoldable pub find_token : ℕ → ℕ → Bytes → Option ℕ
  find_token token zero bs = none
  find_token token (suc n) [] = none
  find_token token (suc n) (b ∷ bs) =
      let found = (do (v, _) ← read_uint_at bs; some v) in
      let rest = (do bs' ← skip_key (marker b) bs; bs'' ← skip bs'; find_token token n bs'') in
      if nat_beq b token then found else rest

  unfoldable pub read_token_u64 : Bytes → ℕ → Option ℕ
  unfolding find_token
  read_token_u64 bs token = do (n, rest) ← read_map_header bs; find_token token n rest

  -- `u64::MAX` if there is none.
  unfoldable pub read_msgpack_seq_token : Bytes → ℕ
  read_msgpack_seq_token bs = get_or (read_token_u64 bs SystemFields.tok_seq) (2 ^ 64 - 1)

-- The tokens of the system fields that a query may name.
unfoldable pub system_token : Str → Option ℕ
system_token name =
    if str_beq name SystemFields.seq
    then some SystemFields.tok_seq
    else if str_beq name SystemFields.created_at
    then some SystemFields.tok_created_at
    else if str_beq name SystemFields.modified_at
    then some SystemFields.tok_modified_at
    else if str_beq name SystemFields.expires_at
    then some SystemFields.tok_expires_at
    else if str_beq name SystemFields.version
    then some SystemFields.tok_version
    else none

-- moltendb-core/src/query.rs
unfoldable pub read_msgpack_system_field_u64 : (Bytes → Option Bytes) → Bytes → Str → Option ℕ
unfolding system_token
read_msgpack_system_field_u64 skip bs name = do
  token ← system_token name
  read_token_u64 skip bs token
