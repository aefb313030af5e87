-- ===== src/Codec/Marker/Bytes.antt =====
-- The first bytes that the writer puts in front of a value are read as what they were written for.
use molten_db.Prelude.{◌+◌, ◌-◌, ◌≤◌, ◌≡◌, refl, ℕ, true, false, arith}
use molten_db.Codec.Marker.{
  marker, fix_pos, fix_neg, fix_map, fix_array, fix_str, uint, int, str, list, dict, boolean, null,
  f64,
}

pub marker-fix_pos : (n : ℕ) → n ≤ 0x7f → marker n ≡ fix_pos n
unfolding marker
marker-fix_pos n h = ground arith

pub marker-fix_neg : (n : ℕ) → n ≤ 31 → marker (0xff - n) ≡ fix_neg n
unfolding marker
marker-fix_neg n h = ground arith

pub marker-fix_map : (n : ℕ) → n ≤ 15 → marker (0x80 + n) ≡ fix_map n
unfolding marker
marker-fix_map n h = ground arith

pub marker-fix_array : (n : ℕ) → n ≤ 15 → marker (0x90 + n) ≡ fix_array n
unfolding marker
marker-fix_array n h = ground arith

pub marker-fix_str : (n : ℕ) → n ≤ 31 → marker (0xa0 + n) ≡ fix_str n
unfolding marker
marker-fix_str n h = ground arith

pub marker_null : marker 0xc0 ≡ null
unfolding marker
marker_null = refl

pub marker_boolean_false : marker 0xc2 ≡ boolean false
unfolding marker
marker_boolean_false = refl

pub marker_boolean_true : marker 0xc3 ≡ boolean true
unfolding marker
marker_boolean_true = refl

pub marker_uint_1 : marker 0xcc ≡ uint 1
unfolding marker
marker_uint_1 = refl

pub marker_uint_2 : marker 0xcd ≡ uint 2
unfolding marker
marker_uint_2 = refl

pub marker_uint_4 : marker 0xce ≡ uint 4
unfolding marker
marker_uint_4 = refl

pub marker_uint_8 : marker 0xcf ≡ uint 8
unfolding marker
marker_uint_8 = refl

pub marker_int_1 : marker 0xd0 ≡ int 1
unfolding marker
marker_int_1 = refl

pub marker_int_2 : marker 0xd1 ≡ int 2
unfolding marker
marker_int_2 = refl

pub marker_int_4 : marker 0xd2 ≡ int 4
unfolding marker
marker_int_4 = refl

pub marker_int_8 : marker 0xd3 ≡ int 8
unfolding marker
marker_int_8 = refl

pub marker_f64 : marker 0xcb ≡ f64
unfolding marker
marker_f64 = refl

pub marker_str_1 : marker 0xd9 ≡ str 1
unfolding marker
marker_str_1 = refl

pub marker_str_2 : marker 0xda ≡ str 2
unfolding marker
marker_str_2 = refl

pub marker_str_4 : marker 0xdb ≡ str 4
unfolding marker
marker_str_4 = refl

pub marker_list_2 : marker 0xdc ≡ list 2
unfolding marker
marker_list_2 = refl

pub marker_list_4 : marker 0xdd ≡ list 4
unfolding marker
marker_list_4 = refl

pub marker_dict_2 : marker 0xde ≡ dict 2
unfolding marker
marker_dict_2 = refl

pub marker_dict_4 : marker 0xdf ≡ dict 4
unfolding marker
marker_dict_4 = refl

pub ruleset markers = (
  marker_null, marker_boolean_false, marker_boolean_true, marker_uint_1, marker_uint_2,
  marker_uint_4, marker_uint_8, marker_int_1, marker_int_2, marker_int_4, marker_int_8, marker_f64,
  marker_str_1, marker_str_2, marker_str_4, marker_list_2, marker_list_4, marker_dict_2,
  marker_dict_4,
)
