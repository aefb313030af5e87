-- ===== src/Validation.antt =====
-- moltendb-core/src/validation: validation.rs, with the patterns of constants.rs written out.
pub mod Depth
use molten_db.Prelude.{
  ℕ, zero, suc, ◌+◌, Bool, true, false, not, ◌&&◌, ◌||◌, List, [], ◌∷◌, ◌++◌, Str, codes, str_beq,
  nat_beq, ltb, leb, length, if◌then◌else◌,
}
use molten_db.Json.{
  Value, Items, Fields, null, bool, number, string, array, object, nil, cons, end, field,
}
use molten_db.Query.Nested.{split_path}

pub data ValidationError : Type 0 where
  invalid_collection_name invalid_key_name invalid_field_name unknown_property :
      Str → ValidationError
  collection_name_too_long key_name_too_long payload_too_large invalid_json_depth too_many_keys :
      ValidationError

pub data Validated : Type 0 where
  valid : Validated
  refused : ValidationError → Validated

-- `first?; second`
unfoldable pub then_check : Validated → Validated → Validated
then_check valid second = second
then_check (refused e) second = refused e

abbrev within : ℕ → ℕ → ℕ → Bool
within low high c = leb low c && leb c high

-- `[a-zA-Z0-9_-]`
unfoldable pub is_name_char : ℕ → Bool
is_name_char c =
    within b'a' b'z' c
    || within b'A' b'Z' c
    || within b'0' b'9' c
    || nat_beq c b'_'
    || nat_beq c b'-'

-- `[a-zA-Z0-9_.-]`
unfoldable pub is_path_char : ℕ → Bool
unfolding is_name_char
is_path_char c = is_name_char c || nat_beq c b'.'

unfoldable pub all_chars : (ℕ → Bool) → Str → Bool
all_chars test [] = true
all_chars test (c ∷ s) = test c && all_chars test s

-- `^[...]{1,most}$`
unfoldable pub is_match : (ℕ → Bool) → ℕ → Str → Bool
unfolding all_chars
is_match test most s = within 1 most (length s) && all_chars test s

unfoldable pub is_reserved : Str → Bool
is_reserved name =
    str_beq name (codes "admin")
    || str_beq name (codes "system")
    || str_beq name (codes "config")
    || str_beq name (codes "internal")
    || str_beq name (codes "__proto__")

unfoldable pub validate_collection_name : Str → Validated
unfolding is_match is_name_char is_reserved
validate_collection_name name =
    if nat_beq (length name) 0 || ltb 64 (length name)
    then refused
        (if ltb 64 (length name) then collection_name_too_long else invalid_collection_name name)
    else if not (is_match is_name_char 64 name)
    then refused (invalid_collection_name name)
    else if is_reserved name
    then refused (invalid_collection_name (name ++ codes " (reserved name)"))
    else valid

unfoldable pub validate_key_name : Str → Validated
unfolding is_match is_path_char
validate_key_name key =
    if nat_beq (length key) 0
    then refused (invalid_key_name key)
    else if ltb 256 (length key)
    then refused key_name_too_long
    else if not (is_match is_path_char 256 key)
    then refused (invalid_key_name key)
    else valid

unfoldable pub has_empty : List Str → Bool
has_empty [] = false
has_empty (part ∷ parts) = nat_beq (length part) 0 || has_empty parts

unfoldable pub validate_field_name : Str → Validated
unfolding is_match is_path_char has_empty split_path
validate_field_name name =
    if nat_beq (length name) 0
    then refused (invalid_field_name name)
    else if ltb 128 (length name)
    then refused (invalid_field_name (name ++ codes " (too long)"))
    else if not (is_match is_path_char 128 name)
    then refused (invalid_field_name name)
    else if has_empty (split_path name)
    then refused (invalid_field_name name)
    else valid

unfoldable mutual
  unfolding then_check

  pub check : Value → ℕ → ℕ → Validated
  check (object fs) current max =
      let inner = check_fields fs (current + 1) max in
      if ltb max current then refused invalid_json_depth else inner
  check (array xs) current max =
      let inner = check_items xs (current + 1) max in
      if ltb max current then refused invalid_json_depth else inner
  check _ current max = if ltb max current then refused invalid_json_depth else valid

  pub check_fields : Fields → ℕ → ℕ → Validated
  check_fields end current max = valid
  check_fields (field k v fs) current max =
      then_check (check v current max) (check_fields fs current max)

  pub check_items : Items → ℕ → ℕ → Validated
  check_items nil current max = valid
  check_items (cons x xs) current max =
      then_check (check x current max) (check_items xs current max)

unfoldable pub validate_json_depth : Value → ℕ → Validated
unfolding check
validate_json_depth value max_depth = check value 0 max_depth

unfoldable pub validate_key_count : ℕ → ℕ → Validated
validate_key_count count max_keys = if ltb max_keys count then refused too_many_keys else valid
