-- ===== src/Reads.antt =====
-- `get` and `get_filtered` of moltendb-core/src/engine/operations/get.rs (the native build, with a
-- count).
pub mod Page
pub mod Keys
pub mod Passing
use molten_db.Prelude.{
  ℕ, zero, suc, ◌+◌, ◌%◌, ◌^◌, Bool, true, false, Option, none, some, List, [], ◌∷◌, ◌++◌, Bytes,
  Str, str_eq, length, take, drop, leb, ltb, if◌then◌else◌, ◌>>=◌,
}
use molten_db.Prelude.Map
use molten_db.Prelude.Map.{Map}
use molten_db.Json.{Value}
use molten_db.Codec.Read.{msgpack_to_value}
use molten_db.Codec.Token.{read_msgpack_seq_token}
use molten_db.Engine.SeqIndex.{SeqIndex}

-- The results as a map; a key that is asked for twice is one entry.
unfoldable pub get_from : Map Str Bytes → List Str → Map Str Value → Map Str Value
unfolding Map.get Map.insert msgpack_to_value
get_from col [] results = results
get_from col (key ∷ keys) results = elim (do bytes ← Map.get col key; msgpack_to_value bytes) [
  | none ↦ get_from col keys results
  | some v ↦ get_from col keys (Map.insert key v results)
]

unfoldable pub get : Map Str (Map Str Bytes) → Str → List Str → Map Str Value
unfolding get_from
get state collection keys = elim (Map.get state collection) [
  | none ↦ []
  | some col ↦ get_from col keys []
]

unfoldable pub reverse : {A : Type 0} → List A → List A
reverse [] = []
reverse (x ∷ xs) = reverse xs ++ x ∷ []

-- `sort_unstable_by_key` by the number, upwards, or downwards by `Reverse`. Documents have numbers of
-- their own, so that the order of equal ones does not matter.
unfoldable pub insert_by : {A : Type 0} → Bool → ℕ × A → List (ℕ × A) → List (ℕ × A)
insert_by asc x [] = x ∷ []
insert_by asc x (y ∷ ys) =
    if (if asc then leb x.0 y.0 else leb y.0 x.0) then x ∷ y ∷ ys else y ∷ insert_by asc x ys

unfoldable pub sort_by_seq : {A : Type 0} → Bool → List (ℕ × A) → List (ℕ × A)
unfolding insert_by
sort_by_seq asc [] = []
sort_by_seq asc (x ∷ xs) = insert_by asc x (sort_by_seq asc xs)

module _ (predicate : Str → Bytes → Bool) (col : Map Str Bytes) where
  -- The document under a key, decoded, if it passes.
  unfoldable pub hit : Str → Option (Str × Value)
  unfolding Map.get msgpack_to_value
  hit key = do
    bytes ← Map.get col key
    if predicate key bytes then (do v ← msgpack_to_value bytes; some (key, v)) else none

  -- The loop over the index, which ends as soon as `need` documents are found.
  unfoldable pub iterate : ℕ → List (Str × Value) → SeqIndex → List (Str × Value)
  unfolding hit
  iterate need found [] = found
  iterate need found ((seq, key) ∷ idx) = elim (hit key) [
    | none ↦ iterate need found idx
    | some p ↦
        let more = iterate need (found ++ p ∷ []) idx in
        if leb need (suc (length found)) then found ++ p ∷ [] else more
  ]

module _ (predicate : Str → Bytes → Bool) (skip : Bytes → Option Bytes) where
  -- The numbers and keys of the documents that pass.
  unfoldable pub matching_keys : Map Str Bytes → List (ℕ × Str)
  unfolding read_msgpack_seq_token
  matching_keys [] = []
  matching_keys ((key, bytes) ∷ col) =
      let rest = matching_keys col in
      if predicate key bytes then (read_msgpack_seq_token skip bytes, key) ∷ rest else rest

  -- The documents that pass and can be decoded, with their numbers.
  unfoldable pub matching_documents : Map Str Bytes → List (ℕ × (Str × Value))
  unfolding read_msgpack_seq_token msgpack_to_value
  matching_documents [] = []
  matching_documents ((key, bytes) ∷ col) =
      let rest = matching_documents col in
      if predicate key bytes
      then (elim (msgpack_to_value bytes) [
        | none ↦ rest
        | some v ↦ (read_msgpack_seq_token skip bytes, (key, v)) ∷ rest
      ])
      else rest

-- `filter_map` with a document that is looked up by its key
unfoldable pub decode_keys : Map Str Bytes → List (ℕ × Str) → List (Str × Value)
unfolding Map.get msgpack_to_value
decode_keys col [] = []
decode_keys col ((seq, key) ∷ pairs) =
    let rest = decode_keys col pairs in
    elim (do bytes ← Map.get col key; msgpack_to_value bytes) [
      | none ↦ rest
      | some v ↦ (key, v) ∷ rest
    ]

abbrev values : {A : Type 0} → List (ℕ × A) → List A
values [] = []
values (x ∷ xs) = x.1 ∷ values xs

-- `GetFilteredParams` with a count; `offset` and `count` are of type `usize`, below 2^64.
pub record Params : Type 0 where
  pub predicate : Str → Bytes → Bool
  pub offset : ℕ
  pub count : ℕ
  pub default_order_asc : Bool
  pub has_where : Bool

module _ (skip : Bytes → Option Bytes) (p : Params) where
  unfoldable pub get_where : Map Str Bytes → List (Str × Value)
  unfolding matching_keys sort_by_seq decode_keys
  get_where col = decode_keys col (
      take p.count
        (drop p.offset (sort_by_seq p.default_order_asc (matching_keys p.predicate skip col))))

  -- `need` wraps, as it does in a release build. The capacity that is reserved for it is left out.
  unfoldable pub get_indexed : Map Str Bytes → SeqIndex → List (Str × Value)
  unfolding iterate reverse
  get_indexed col idx = take p.count (
      drop p.offset (
        iterate p.predicate col ((p.offset + p.count) % 2 ^ 64) []
          (if p.default_order_asc then idx else reverse idx)))

  unfoldable pub get_unindexed : Map Str Bytes → List (Str × Value)
  unfolding matching_documents sort_by_seq
  get_unindexed col = take p.count (
      drop p.offset
        (values (sort_by_seq p.default_order_asc (matching_documents p.predicate skip col))))

  unfoldable pub get_filtered :
      Map Str (Map Str Bytes) → Map Str SeqIndex → Str → List (Str × Value)
  unfolding Map.get get_where get_indexed get_unindexed
  get_filtered state seq_index collection = elim (Map.get state collection) [
    | none ↦ []
    | some col ↦ if p.has_where then get_where col else (elim (Map.get seq_index collection) [
      | none ↦ get_unindexed col
      | some idx ↦ get_indexed col idx
    ])
  ]
