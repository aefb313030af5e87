-- ===== src/Reads/Passing.antt =====
-- What passes the predicate of a filtered read: all that it gives.
use molten_db.Prelude.{
  All-append, All-take, All-drop, ◌≡◌, refl, ℕ, suc, ◌+◌, ◌%◌, ◌^◌, Bool, true, false, Option, none,
  some, List, [], ◌∷◌, ◌++◌, Bytes, Str, str_eq, All, take, drop, leb, length, ◌>>=◌, if◌then◌else◌,
}
use molten_db.Prelude.Map
use molten_db.Prelude.Map.{Map}
use molten_db.Json.{Value}
use molten_db.Codec.Read.{msgpack_to_value}
use molten_db.Codec.Token.{read_msgpack_seq_token}
use molten_db.Engine.SeqIndex.{SeqIndex}
use molten_db.Reads.{
  reverse, hit, iterate, matching_keys, matching_documents, decode_keys, values, Params, get_where,
  get_indexed, get_unindexed, get_filtered,
}
use molten_db.Reads.Keys.{KeysAll, if-All, All-sort_by_seq}

module _ (Q : Str → Type 0) (predicate : Str → Bytes → Bool)
    (sound : (k : Str) (bs : Bytes) → predicate k bs ≡ true → Q k) where
  abbrev IsFound : Option (Str × Value) → Type 0
  IsFound none = Unit
  IsFound (some p) = Q p.0

  decoded-IsFound :
      (key : Str) (bs : Bytes) → Q key → IsFound (do v ← msgpack_to_value bs; some (key, v))
  decoded-IsFound key bs h =
      elim (msgpack_to_value bs) as (λ o. IsFound (do v ← o; some (key, v))) [
        | none ↦ tt
        | some v ↦ h
      ]

  if-IsFound :
      (b : Bool) (x : Option (Str × Value))
      → (b ≡ true → IsFound x)
      → IsFound (if b then x else none)
  if-IsFound true x h = h refl
  if-IsFound false x h = tt

  hit-IsFound : (col : Map Str Bytes) (key : Str) → IsFound (hit predicate col key)
  unfolding hit
  hit-IsFound col key =
      elim (Map.get col key)
        as (λ o. IsFound (do
          bytes ← o
          if predicate key bytes then (do v ← msgpack_to_value bytes; some (key, v)) else none)) [
            | none ↦ tt
            | some bytes ↦
                if-IsFound (predicate key bytes) _
                  λ e. decoded-IsFound key bytes (sound key bytes e)
          ]

  iterate-KeysAll :
      (col : Map Str Bytes) (need : ℕ) (found : List (Str × Value)) (idx : SeqIndex)
      → KeysAll Q found
      → KeysAll Q (iterate predicate col need found idx)
  unfolding iterate
  iterate-KeysAll col need found [] h = h
  iterate-KeysAll col need found ((seq, key) ∷ idx) h =
      elim (hit predicate col key)
          as (λ o.
            IsFound o
            → KeysAll Q (elim o [
              | none ↦ iterate predicate col need found idx
              | some p ↦
                  if leb need (suc (length found))
                  then found ++ p ∷ []
                  else iterate predicate col need (found ++ p ∷ []) idx
            ])) [
              | none ↦ λ g. iterate-KeysAll col need found idx h
              | some p ↦ λ g.
                  let longer = All-append (λ q. Q q.0) found (p ∷ []) h (g, tt) in
                  if-All (λ q. Q q.0) (leb need (suc (length found))) _ _ (λ e. longer)
                    λ e. iterate-KeysAll col need (found ++ p ∷ []) idx longer
            ]
        (hit-IsFound col key)

  module _ (skip : Bytes → Option Bytes) where
    matching_keys-All : (col : Map Str Bytes) → All (λ x. Q x.1) (matching_keys predicate skip col)
    unfolding matching_keys
    matching_keys-All [] = tt
    matching_keys-All ((key, bytes) ∷ col) =
        if-All (λ x. Q x.1) (predicate key bytes) _ _
          (λ e. (sound key bytes e, matching_keys-All col)) λ e. matching_keys-All col

    abbrev with_decoded :
        ℕ → Str → Option Value → List (ℕ × (Str × Value)) → List (ℕ × (Str × Value))
    with_decoded seq key o rest = elim o [ none ↦ rest | some v ↦ (seq, (key, v)) ∷ rest ]

    with_decoded-All :
        (seq : ℕ) (key : Str) (o : Option Value) (rest : List (ℕ × (Str × Value)))
        → Q key
        → All (λ x. Q x.1.0) rest
        → All (λ x. Q x.1.0) (with_decoded seq key o rest)
    with_decoded-All seq key none rest h g = g
    with_decoded-All seq key (some v) rest h g = (h, g)

    matching_documents-All :
        (col : Map Str Bytes) → All (λ x. Q x.1.0) (matching_documents predicate skip col)
    unfolding matching_documents
    matching_documents-All [] = tt
    matching_documents-All ((key, bytes) ∷ col) =
        if-All (λ x. Q x.1.0) (predicate key bytes)
          (with_decoded (read_msgpack_seq_token skip bytes) key (msgpack_to_value bytes)
            (matching_documents predicate skip col))
          (matching_documents predicate skip col)
          (λ e.
            with_decoded-All (read_msgpack_seq_token skip bytes) key (msgpack_to_value bytes)
              (matching_documents predicate skip col) (sound key bytes e)
              (matching_documents-All col))
          λ e. matching_documents-All col

  decode_keys-KeysAll :
      (col : Map Str Bytes) (pairs : List (ℕ × Str))
      → All (λ x. Q x.1) pairs
      → KeysAll Q (decode_keys col pairs)
  unfolding decode_keys
  decode_keys-KeysAll col [] h = tt
  decode_keys-KeysAll col ((seq, key) ∷ pairs) h =
      elim (do bytes ← Map.get col key; msgpack_to_value bytes)
        as (λ o.
          KeysAll Q
            (elim o [ none ↦ decode_keys col pairs | some v ↦ (key, v) ∷ decode_keys col pairs ])) [
              | none ↦ decode_keys-KeysAll col pairs h.1
              | some v ↦ (h.0, decode_keys-KeysAll col pairs h.1)
            ]

  values-KeysAll : (xs : List (ℕ × (Str × Value))) → All (λ x. Q x.1.0) xs → KeysAll Q (values xs)
  values-KeysAll [] h = tt
  values-KeysAll (x ∷ xs) h = (h.0, values-KeysAll xs h.1)

-- What a filtered read gives has keys that the predicate lets through.
pub get_filtered-KeysAll :
    (Q : Str → Type 0) (skip : Bytes → Option Bytes) (p : Params)
    → ((k : Str) (bs : Bytes) → p.predicate k bs ≡ true → Q k)
    → (state : Map Str (Map Str Bytes)) (seq_index : Map Str SeqIndex) (collection : Str)
    → KeysAll Q (get_filtered skip p state seq_index collection)
unfolding get_filtered get_where get_indexed get_unindexed
get_filtered-KeysAll Q skip p sound state seq_index collection =
    elim (Map.get state collection)
      as (λ o. KeysAll Q (elim o [
        | none ↦ []
        | some col ↦
            if p.has_where then get_where skip p col else (elim (Map.get seq_index collection) [
              | none ↦ get_unindexed skip p col
              | some idx ↦ get_indexed skip p col idx
            ])
      ])) [
        | none ↦ tt
        | some col ↦
            if-All (λ q. Q q.0) p.has_where _ _ (λ e. where_part col)
              λ e.
                elim (Map.get seq_index collection)
                  as (λ o. KeysAll Q (elim o [
                    | none ↦ get_unindexed skip p col
                    | some idx ↦ get_indexed skip p col idx
                  ])) [
                    | none ↦ page _ (
                        values-KeysAll Q p.predicate sound _ (
                          All-sort_by_seq (λ x. Q x.1.0) p.default_order_asc _
                            (matching_documents-All Q p.predicate sound skip col)))
                    | some idx ↦ page _ (
                        iterate-KeysAll Q p.predicate sound col ((p.offset + p.count) % 2 ^ 64) []
                          (if p.default_order_asc then idx else reverse idx) tt)
                  ]
      ]
  where
    page : (xs : List (Str × Value)) → KeysAll Q xs → KeysAll Q (take p.count (drop p.offset xs))
    page xs h =
        All-take (λ q. Q q.0) p.count (drop p.offset xs) (All-drop (λ q. Q q.0) p.offset xs h)

    where_part : (col : Map Str Bytes) → KeysAll Q (get_where skip p col)
    where_part col = decode_keys-KeysAll Q p.predicate sound col _ (
        All-take (λ x. Q x.1) p.count _
          (All-drop (λ x. Q x.1) p.offset _
            (All-sort_by_seq (λ x. Q x.1) p.default_order_asc _
              (matching_keys-All Q p.predicate sound skip col))))
