-- ===== src/Codec/Marker.antt =====
-- The first byte of a MsgPack value: the byte ranges on which `read_value`, `read_string` and
-- `read_map_header` match.
pub mod Bytes
use molten_db.Prelude.{ℕ, ◌-◌, Bool, true, false, leb, nat_beq, if◌then◌else◌}

-- The number in `uint`, `int`, `bin`, `str`, `list` and `dict` is that of the bytes that follow,
-- which hold the value or the length. `fix_neg n` is the value -(n + 1).
pub data Marker : Type 0 where
  fix_pos fix_neg fix_map fix_array fix_str : ℕ → Marker
  uint int bin str list dict : ℕ → Marker
  boolean : Bool → Marker
  null f32 f64 reserved : Marker

-- The bytes of numbers, and of lengths that do not fit the first byte.
number_marker : ℕ → Marker
number_marker b =
    if nat_beq b 0xcc
    then uint 1
    else if nat_beq b 0xcd
    then uint 2
    else if nat_beq b 0xce
    then uint 4
    else if nat_beq b 0xcf
    then uint 8
    else if nat_beq b 0xd0
    then int 1
    else if nat_beq b 0xd1
    then int 2
    else if nat_beq b 0xd2
    then int 4
    else if nat_beq b 0xd3
    then int 8
    else if nat_beq b 0xd9
    then str 1
    else if nat_beq b 0xda
    then str 2
    else if nat_beq b 0xdb
    then str 4
    else if nat_beq b 0xdc
    then list 2
    else if nat_beq b 0xdd
    then list 4
    else if nat_beq b 0xde
    then dict 2
    else if nat_beq b 0xdf
    then dict 4
    else reserved

-- The bytes from 0xc0 to 0xdf.
wide_marker : ℕ → Marker
unfolding number_marker
wide_marker b =
    if nat_beq b 0xc0
    then null
    else if nat_beq b 0xc2
    then boolean false
    else if nat_beq b 0xc3
    then boolean true
    else if nat_beq b 0xc4
    then bin 1
    else if nat_beq b 0xc5
    then bin 2
    else if nat_beq b 0xc6
    then bin 4
    else if nat_beq b 0xca
    then f32
    else if nat_beq b 0xcb
    then f64
    else number_marker b

unfoldable pub marker : ℕ → Marker
unfolding wide_marker
marker b =
    if leb b 0x7f
    then fix_pos b
    else if leb b 0x8f
    then fix_map (b - 0x80)
    else if leb b 0x9f
    then fix_array (b - 0x90)
    else if leb b 0xbf
    then fix_str (b - 0xa0)
    else if leb 0xe0 b
    then fix_neg (255 - b)
    else wide_marker b
