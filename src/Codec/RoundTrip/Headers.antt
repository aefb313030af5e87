-- ===== src/Codec/RoundTrip/Headers.antt =====
-- The headers of arrays and maps, and the keys of maps, read back.
use molten_db.Prelude.{ℕ, suc, ◌^◌, ◌<◌, ◌≡◌, some, ◌++◌, arith, Bytes, Str}
use molten_db.Codec.BigEndian.{read_be-write_be}
use molten_db.Codec.Canon.{IsText, canon_key}
use molten_db.Codec.Marker.Bytes.{
  marker-fix_map, marker-fix_array, marker_list_2, marker_list_4, marker_dict_2, marker_dict_4,
}
use molten_db.Codec.Read.{read_map_key, read_array, read_map, read_value, read_marked}
use molten_db.Codec.RoundTrip.Scalars.{read_value-write_str}
use molten_db.Codec.Write.{write_str, write_array_header, write_map_header, write_map_key}

module _ (fuel n : ℕ) (rest : Bytes) (fits : n < 2 ^ 32) where
  pub read_value-write_array_header :
      read_value (suc fuel) (write_array_header n ++ rest) ≡ read_array (read_value fuel) n rest
  unfolding read_value read_marked write_array_header
  read_value-write_array_header = ground (
    arith,
    marker-fix_array n,
    marker_list_2,
    marker_list_4,
    read_be-write_be 2 n rest,
    read_be-write_be 4 n rest,
  )

  pub read_value-write_map_header :
      read_value (suc fuel) (write_map_header n ++ rest) ≡ read_map (read_value fuel) n rest
  unfolding read_value read_marked write_map_header
  read_value-write_map_header = ground (
    arith,
    marker-fix_map n,
    marker_dict_2,
    marker_dict_4,
    read_be-write_be 2 n rest,
    read_be-write_be 4 n rest,
  )

module _ (fuel : ℕ) (k : Str) (rest : Bytes) (t : IsText k) where
  -- the first byte of a string is no token
  read_map_key-write_str :
      read_map_key (read_value (suc fuel)) (write_str k ++ rest) ≡ some (k, rest)
  unfolding read_map_key write_str
  read_map_key-write_str = ground (arith, read_value-write_str k t fuel rest)

  pub read_map_key-write_map_key :
      read_map_key (read_value (suc fuel)) (write_map_key k ++ rest) ≡ some (canon_key k, rest)
  unfolding write_map_key canon_key read_map_key
  read_map_key-write_map_key = ground (arith, read_map_key-write_str)
