-- ===== src/Tests/Codec.antt =====
-- The codec on a small document, as the engine stores it.
use molten_db.Prelude.{
  ◌≡◌, refl, Option, some, [], ◌∷◌, ◌++◌, ◌^◌, ◌-◌, Bytes, arith, str_beq, str_ltb, length-append,
  codes, length, get_or, ◌>>=◌,
}
use molten_db.Json.{pos_int, neg_int, number, string, array, object, nil, cons, end, field, Value}
use molten_db.Json.Object
use molten_db.Codec.BigEndian.{write_be}
use molten_db.Codec.Canon.{IsText, IsEncodable, canon_key}
use molten_db.Codec.Read.{msgpack_to_value, read_value}
use molten_db.Codec.RoundTrip.{read_value-write_value}
use molten_db.Codec.Stored.{IsStored, decode-encode}
use molten_db.Codec.SystemFields
use molten_db.Codec.Token.{read_msgpack_seq_token, read_msgpack_system_field_u64, system_token}
use molten_db.Codec.Token.Laws.{
  Skips, read_msgpack_seq_token-lookup, read_msgpack_system_field_u64-lookup,
}
use molten_db.Codec.Utf8.{is_utf8}
use molten_db.Codec.Write.{
  write_value, write_number, write_str, write_map_key, write_map_header, write_array_header,
  value_to_msgpack,
}

-- {"-1": 300, "-3": 7, "n": [-41, "x"]}
abbrev pub doc : Value
doc = object (
    field (codes "-1") (number (pos_int 300)) (
      field (codes "-3") (number (pos_int 7)) (
        field (codes "n") (array (cons (number (neg_int 40)) (cons (string (codes "x")) nil)))
          end)))

doc_bytes :
    value_to_msgpack doc
    ≡ 0x83 ∷ 0xff ∷ 0xcd ∷ 1 ∷ 44 ∷ 0xfd ∷ 7 ∷ 0xa1 ∷ 110 ∷ 0x92 ∷ 0xd0 ∷ 215 ∷ 0xa1 ∷ 120 ∷ []
unfolding value_to_msgpack write_value write_number write_str write_map_key write_map_header
    write_array_header write_be Object.len Object.count str_beq
doc_bytes = refl

n_IsText : IsText (codes "n")
unfolding is_utf8
n_IsText = record { short = omega arith; utf8 = refl }

x_IsText : IsText (codes "x")
unfolding is_utf8
x_IsText = record { short = omega arith; utf8 = refl }

version_IsText : IsText (codes "-1")
unfolding is_utf8
version_IsText = record { short = omega arith; utf8 = refl }

seq_IsText : IsText (codes "-3")
unfolding is_utf8
seq_IsText = record { short = omega arith; utf8 = refl }

pub doc-IsEncodable : IsEncodable doc
unfolding Object.len Object.count
doc-IsEncodable = (
  omega arith,
  (
    version_IsText,
    omega arith,
    (seq_IsText, omega arith, (n_IsText, (omega arith, (omega arith, (x_IsText, tt))), tt)),
  ),
)

pub doc-IsStored : IsStored doc
unfolding canon_key str_beq str_ltb
doc-IsStored =
    (refl, tt, (refl, (refl, tt)), (refl, tt, (refl, tt), (refl, (tt, (tt, tt)), tt, tt)))

-- A skipper of values, as `rmp_serde` has one.
abbrev pub skip_one : Bytes → Option Bytes
skip_one bs = do (_, rest) ← read_value (length bs) bs; some rest

pub skip_one-Skips : Skips skip_one
skip_one-Skips v rest e = rw (
    read_value-write_value v (length (write_value v ++ rest)) rest e
      (omega (arith, length-append (write_value v) rest)))

decode-encode_example : msgpack_to_value (value_to_msgpack doc) ≡ some doc
decode-encode_example = decode-encode doc doc-IsEncodable doc-IsStored

read_msgpack_seq_token-lookup_example :
    read_msgpack_seq_token skip_one (value_to_msgpack doc)
    ≡ get_or (Object.lookup doc SystemFields.ikey_seq >>= Object.as_u64) (2 ^ 64 - 1)
read_msgpack_seq_token-lookup_example =
    read_msgpack_seq_token-lookup skip_one skip_one-Skips doc doc-IsEncodable doc-IsStored

version_token : system_token (codes "_v") ≡ some 0xff
unfolding system_token str_beq
version_token = refl

read_msgpack_system_field_u64-lookup_example :
    read_msgpack_system_field_u64 skip_one (value_to_msgpack doc) (codes "_v")
    ≡ (Object.lookup doc (canon_key (codes "_v")) >>= Object.as_u64)
read_msgpack_system_field_u64-lookup_example =
    read_msgpack_system_field_u64-lookup skip_one skip_one-Skips doc doc-IsEncodable doc-IsStored
      (codes "_v") 0xff version_token
