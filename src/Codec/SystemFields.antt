-- ===== src/Codec/SystemFields.antt =====
-- moltendb-core/src/common/system_fields.rs, and the token bytes of system_field_tokens.rs.
use molten_db.Prelude.{ℕ, Str, codes}

-- The names that clients see.
abbrev pub version : Str
version = codes "_v"

abbrev pub key : Str
key = codes "_key"

abbrev pub seq : Str
seq = codes "_seq"

abbrev pub created_at : Str
created_at = codes "_createdAt"

abbrev pub modified_at : Str
modified_at = codes "_modifiedAt"

abbrev pub expires_at : Str
expires_at = codes "_expiresAt"

-- The keys of documents in memory.
abbrev pub ikey_version : Str
ikey_version = codes "-1"

abbrev pub ikey_key : Str
ikey_key = codes "-2"

abbrev pub ikey_seq : Str
ikey_seq = codes "-3"

abbrev pub ikey_created_at : Str
ikey_created_at = codes "-4"

abbrev pub ikey_modified_at : Str
ikey_modified_at = codes "-5"

abbrev pub ikey_expires_at : Str
ikey_expires_at = codes "-6"

-- The bytes that stand for the keys in MsgPack.
abbrev pub tok_version : ℕ
tok_version = 0xff

abbrev pub tok_key : ℕ
tok_key = 0xfe

abbrev pub tok_seq : ℕ
tok_seq = 0xfd

abbrev pub tok_created_at : ℕ
tok_created_at = 0xfc

abbrev pub tok_modified_at : ℕ
tok_modified_at = 0xfb

abbrev pub tok_expires_at : ℕ
tok_expires_at = 0xfa
