-- ===== src/Query/Nested.antt =====
-- Dotted paths into decoded documents: `project`, `exclude`, `get_nested_value` and the helpers of
-- these in query.rs.
pub mod Paths
pub mod Removal
pub mod Laws
use molten_db.Prelude.{
  Bool, true, false, Option, none, some, List, [], ◌∷◌, Str, str_beq, nat_beq, get_or, ◌>>=◌,
  if◌then◌else◌,
}
use molten_db.Json.{Value, Items, Fields, object, end, field, string, nil, cons}
use molten_db.Json.Object

-- A byte in front of the first part.
unfoldable pub push_front : List Str → (Str → Str) → List Str
push_front [] f = f [] ∷ []
push_front (part ∷ parts) f = f part ∷ parts

-- `str::split('.')`
unfoldable pub split_path : Str → List Str
unfolding push_front
split_path [] = [] ∷ []
split_path (c ∷ s) =
    let parts = split_path s in
    if nat_beq c b'.' then [] ∷ parts else push_front parts (λ part. c ∷ part)

unfoldable pub get_nested_value : Value → List Str → Option Value
get_nested_value doc [] = some doc
get_nested_value doc (part ∷ parts) = do v ← Object.lookup doc part; get_nested_value v parts

-- `as_object`
unfoldable pub as_object : Value → Option Fields
as_object (object fs) = some fs
as_object _ = none

-- The entry of `or_insert_with` on the way: an empty object where there is none, and what is no
-- object stays as it is.
unfoldable pub insert_nested_value : Fields → List Str → Value → Fields
unfolding as_object
insert_nested_value target [] value = target
insert_nested_value target (key ∷ []) value = Object.insert key value target
insert_nested_value target (key ∷ (part ∷ parts)) value = elim (Object.get target key) [
  | none ↦ Object.insert key (object (insert_nested_value end (part ∷ parts) value)) target
  | some child ↦ elim (as_object child) [
    | none ↦ target
    | some map ↦ Object.insert key (object (insert_nested_value map (part ∷ parts) value)) target
  ]
]

-- The fields that are asked for and there. What is no string names no field.
unfoldable pub project_into : Value → Items → Fields → Fields
unfolding get_nested_value insert_nested_value split_path
project_into doc nil target = target
project_into doc (cons (string path) fields) target =
    elim (get_nested_value doc (split_path path)) [
      | none ↦ project_into doc fields target
      | some v ↦ project_into doc fields (insert_nested_value target (split_path path) v)
    ]
project_into doc (cons _ fields) target = project_into doc fields target

unfoldable pub project : Value → Items → Value
unfolding project_into
project doc fields = object (project_into doc fields end)

-- `Map::remove`
unfoldable pub remove_field : Str → Fields → Fields
remove_field k end = end
remove_field k (field j v fs) =
    let rest = remove_field k fs in if str_beq j k then rest else field j v rest

-- `o.is_empty()` of what is an object
unfoldable pub is_empty_object : Value → Bool
is_empty_object (object end) = true
is_empty_object _ = false

-- An object that is emptied on the way goes, also one that was empty before.
unfoldable pub remove_nested_value : Fields → List Str → Fields
unfolding remove_field as_object is_empty_object
remove_nested_value target [] = target
remove_nested_value target (key ∷ []) = remove_field key target
remove_nested_value target (key ∷ (part ∷ parts)) = elim (Object.get target key) [
  | none ↦ target
  | some child ↦ elim (as_object child) [
    | none ↦ target
    | some map ↦
        let left = remove_nested_value map (part ∷ parts) in
        if is_empty_object (object left)
        then remove_field key target
        else Object.insert key (object left) target
  ]
]

unfoldable pub exclude_from : Items → Fields → Fields
unfolding remove_nested_value split_path
exclude_from nil target = target
exclude_from (cons (string path) fields) target =
    exclude_from fields (remove_nested_value target (split_path path))
exclude_from (cons _ fields) target = exclude_from fields target

-- What is no object stays as it is.
unfoldable pub exclude : Value → Items → Value
unfolding exclude_from
exclude (object fs) fields = object (exclude_from fields fs)
exclude doc fields = doc
