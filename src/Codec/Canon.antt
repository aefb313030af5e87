-- ===== src/Codec/Canon.antt =====
-- Which values MsgPack can hold, and what becomes of the keys of system fields.
use molten_db.Prelude.{◌^◌, ◌<◌, ◌≡◌, true, some, ◌||◌, Str, length, str_beq, if◌then◌else◌}
use molten_db.Json.{
  Number, pos_int, neg_int, float, Value, Items, Fields, null, bool, number, string, array, object,
  nil, cons, end, field,
}
use molten_db.Json.Numeric
use molten_db.Json.Object
use molten_db.Codec.SystemFields
use molten_db.Codec.Utf8.{is_utf8}

-- A Rust string whose length fits 32 bits.
pub record IsText (s : Str) : Type 0 where
  pub short : length s < 2 ^ 32
  pub utf8 : is_utf8 s ≡ true

-- What `serde_json::Number` guarantees.
abbrev pub IsNumber : Number → Type 0
IsNumber (pos_int u) = u < 2 ^ 64
IsNumber (neg_int n) = n < 2 ^ 63
IsNumber (float bits) = (bits < 2 ^ 64) × (Numeric.from_f64 bits ≡ some (float bits))

abbrev mutual
  pub IsEncodable : Value → Type 0
  IsEncodable null = Unit
  IsEncodable (bool b) = Unit
  IsEncodable (number n) = IsNumber n
  IsEncodable (string s) = IsText s
  IsEncodable (array xs) = (Object.count xs < 2 ^ 32) × AreEncodable xs
  IsEncodable (object fs) = (Object.len fs < 2 ^ 32) × HasEncodable fs

  pub AreEncodable : Items → Type 0
  AreEncodable nil = Unit
  AreEncodable (cons x xs) = IsEncodable x × AreEncodable xs

  pub HasEncodable : Fields → Type 0
  HasEncodable end = Unit
  HasEncodable (field k v fs) = IsText k × IsEncodable v × HasEncodable fs

-- The key in memory for a key that may be the public name of a system field.
unfoldable pub canon_key : Str → Str
canon_key k =
    if str_beq k SystemFields.version || str_beq k SystemFields.ikey_version
    then SystemFields.ikey_version
    else if str_beq k SystemFields.key || str_beq k SystemFields.ikey_key
    then SystemFields.ikey_key
    else if str_beq k SystemFields.seq || str_beq k SystemFields.ikey_seq
    then SystemFields.ikey_seq
    else if str_beq k SystemFields.created_at || str_beq k SystemFields.ikey_created_at
    then SystemFields.ikey_created_at
    else if str_beq k SystemFields.modified_at || str_beq k SystemFields.ikey_modified_at
    then SystemFields.ikey_modified_at
    else if str_beq k SystemFields.expires_at || str_beq k SystemFields.ikey_expires_at
    then SystemFields.ikey_expires_at
    else k

-- The value with its keys replaced: of two entries with one key in memory, the later one stays.
unfoldable mutual
  pub canon : Value → Value
  canon null = null
  canon (bool b) = bool b
  canon (number n) = number n
  canon (string s) = string s
  canon (array xs) = array (canon_items xs)
  canon (object fs) = object (canon_fields fs end)

  pub canon_items : Items → Items
  canon_items nil = nil
  canon_items (cons x xs) = cons (canon x) (canon_items xs)

  pub canon_fields : Fields → Fields → Fields
  canon_fields end map = map
  canon_fields (field k v fs) map = canon_fields fs (Object.insert (canon_key k) (canon v) map)
