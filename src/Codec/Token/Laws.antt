-- ===== src/Codec/Token/Laws.antt =====
-- The readers of one token agree with decoding the document.
use molten_db.Prelude.{
  ℕ, ◌-◌, ◌^◌, ◌≡◌, refl, ap, inl, inr, Option, some, ◌++◌, arith, Bytes, Str, str_beq, str_beq_iff,
  str_beq→eq, Bool-cases, get_or, ◌∙◌, ◌>>=◌,
}
use molten_db.Json.{Value, Fields, null, bool, number, string, array, object, end, field}
use molten_db.Json.Object
use molten_db.Codec.Canon.{IsEncodable, HasEncodable, canon_key}
use molten_db.Codec.Stored.{HasStored, IsStored}
use molten_db.Codec.SystemFields
use molten_db.Codec.Token.{
  find_token, read_token_u64, read_msgpack_seq_token, system_token, read_msgpack_system_field_u64,
}
use molten_db.Codec.Write.{write_value, write_fields, value_to_msgpack}
use molten_db.Codec.Token.Headers.{
  read_uint_at-write_value, read_map_header-write_map_header, read_map_header-write_scalar,
}
use molten_db.Codec.Token.Keys.{
  Finds, version_Finds, seq_Finds, created_at_Finds, modified_at_Finds, expires_at_Finds,
}

-- `rmp_serde` passes over exactly one value.
abbrev pub Skips : (Bytes → Option Bytes) → Type 0
Skips skip = (v : Value) (rest : Bytes) → IsEncodable v → skip (write_value v ++ rest) ≡ some rest

module _ (skip : Bytes → Option Bytes) (skips : Skips skip) (t : ℕ) (ikey : Str)
    (finds : Finds skip t ikey) where
  find_token-write_fields :
      (fs : Fields)
      → HasEncodable fs
      → HasStored fs
      → find_token skip t (Object.len fs) (write_fields fs) ≡ (Object.get fs ikey >>= Object.as_u64)
  unfolding write_value Object.get Object.len
  find_token-write_fields end e s = unfold find_token in refl
  find_token-write_fields (field k v fs) e s = elim (Bool-cases (str_beq k ikey)) [
    | inl own ↦
        rw (own, str_beq→eq k ikey own)
          (finds.hit (Object.len fs) (write_value v ++ write_fields fs)
            ∙ read_uint_at-write_value v (write_fields fs) e.1)
    | inr other ↦ rw other (
        finds.miss k (Object.len fs) (write_value v ++ write_fields fs) e.0 s.0 other
        ∙ rw (skips v (write_fields fs) e.1) (find_token-write_fields fs e.2 s.3))
  ]

  read_token_u64-lookup :
      (v : Value)
      → IsEncodable v
      → IsStored v
      → read_token_u64 skip (value_to_msgpack v) t ≡ (Object.lookup v ikey >>= Object.as_u64)
  unfolding read_token_u64 value_to_msgpack write_value Object.lookup
  read_token_u64-lookup (object fs) e s =
      rw (read_map_header-write_map_header (Object.len fs) (write_fields fs) e.0)
        (find_token-write_fields fs e.1 s)
  read_token_u64-lookup null e s = rw (read_map_header-write_scalar null tt)
  read_token_u64-lookup (bool b) e s = rw (read_map_header-write_scalar (bool b) tt)
  read_token_u64-lookup (number n) e s = rw (read_map_header-write_scalar (number n) tt)
  read_token_u64-lookup (string t) e s = rw (read_map_header-write_scalar (string t) tt)
  read_token_u64-lookup (array xs) e s = rw (read_map_header-write_scalar (array xs) tt)

module _ (skip : Bytes → Option Bytes) (skips : Skips skip) (v : Value) (e : IsEncodable v)
    (s : IsStored v) where
  -- The sequence number that is read off the bytes of a stored value that MsgPack can hold is the one
  -- that the value has, and 2 ^ 64 - 1 if it has none, where the skipper passes over exactly one
  -- encoded value.
  pub read_msgpack_seq_token-lookup :
      read_msgpack_seq_token skip (value_to_msgpack v)
      ≡ get_or (Object.lookup v SystemFields.ikey_seq >>= Object.as_u64) (2 ^ 64 - 1)
  unfolding read_msgpack_seq_token
  read_msgpack_seq_token-lookup =
      ap (λ o. get_or o (2 ^ 64 - 1))
        (read_token_u64-lookup skip skips SystemFields.tok_seq SystemFields.ikey_seq
          (seq_Finds skip) v e s)

  -- A system field that a query names by a name with a token is read off the bytes of a stored value
  -- that MsgPack can hold as the number that the value has there, if it has one, where the skipper
  -- passes over exactly one encoded value.
  pub read_msgpack_system_field_u64-lookup :
      (name : Str) (t : ℕ)
      → system_token name ≡ some t
      → read_msgpack_system_field_u64 skip (value_to_msgpack v) name
        ≡ (Object.lookup v (canon_key name) >>= Object.as_u64)
  unfolding read_msgpack_system_field_u64 canon_key
  read_msgpack_system_field_u64-lookup name t h = ground (
    arith,
    str_beq_iff name SystemFields.seq,
    str_beq_iff name SystemFields.created_at,
    str_beq_iff name SystemFields.modified_at,
    str_beq_iff name SystemFields.expires_at,
    str_beq_iff name SystemFields.version,
    str_beq_iff name SystemFields.key,
    str_beq_iff name SystemFields.ikey_seq,
    str_beq_iff name SystemFields.ikey_key,
    str_beq_iff name SystemFields.ikey_version,
    str_beq_iff name SystemFields.ikey_created_at,
    str_beq_iff name SystemFields.ikey_modified_at,
    read_token_u64-lookup skip skips SystemFields.tok_seq SystemFields.ikey_seq (seq_Finds skip) v e
        s,
    read_token_u64-lookup skip skips SystemFields.tok_created_at SystemFields.ikey_created_at
        (created_at_Finds skip) v e s,
    read_token_u64-lookup skip skips SystemFields.tok_modified_at SystemFields.ikey_modified_at
        (modified_at_Finds skip) v e s,
    read_token_u64-lookup skip skips SystemFields.tok_expires_at SystemFields.ikey_expires_at
        (expires_at_Finds skip) v e s,
    read_token_u64-lookup skip skips SystemFields.tok_version SystemFields.ikey_version
        (version_Finds skip) v e s,
  )
