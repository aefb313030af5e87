-- ===== src/Query/Nested/Laws.antt =====
-- What is left of a document from which fields were excluded.
use molten_db.Prelude.{
  ◌≡◌, refl, ◌∙◌, none, some, List, [], ◌∷◌, Str, str_beq, str_beq→eq, Bool-cases, inl, inr,
}
use molten_db.Json.{Items, Fields, null, bool, number, string, array, object, nil, cons}
use molten_db.Json.Object
use molten_db.Query.Nested.{split_path, get_nested_value, remove_nested_value, exclude_from}
use molten_db.Query.Nested.Paths.{split_path-cons}
use molten_db.Query.Nested.Removal.{
  IsGone, absent_next, absent_none, absent_some, remove_field-IsGone, remove_none, remove_scalar,
  removal, absent_below, missing, scalar, nested, find_kind, remove_nested_value-IsGone,
}

keep_below :
    (part : Str) (path : List Str) (map : Fields) (ps : List Str)
    → get_nested_value (object map) ps ≡ none
    → ((q : Str) (qs : List Str)
        → IsGone map (q ∷ qs)
        → IsGone (remove_nested_value map (part ∷ path)) (q ∷ qs))
    → get_nested_value (object (remove_nested_value map (part ∷ path))) ps ≡ none
unfolding get_nested_value
keep_below part path map [] h ih = absurd (cc h)
keep_below part path map (q ∷ qs) h ih = ih q qs h

-- What is gone stays gone when something else is removed.
keep-IsGone :
    (key : Str) (path : List Str) (t : Fields) (k : Str) (ps : List Str)
    → IsGone t (k ∷ ps)
    → IsGone (remove_nested_value t (key ∷ path)) (k ∷ ps)
keep-IsGone key [] t k ps h = unfold remove_nested_value in remove_field-IsGone key k ps t h
keep-IsGone key (part ∷ path) t k ps h = elim (find_kind t key _ refl) [
  | missing e ↦ rw (remove_none t key part path e) h
  | scalar v e s ↦ rw (remove_scalar t key part path v e s) h
  | nested map e ↦
      let r = removal t key part path map e in
      let t' = remove_nested_value t (key ∷ (part ∷ path)) in
      elim (Bool-cases (str_beq key k)) [
        | inr other ↦ absent_next k ps t' t (r.get k ∙ rw other refl) h
        | inl own ↦
            let at : Object.get t' k ≡ r.there = r.get k ∙ rw own refl in
            let here : Object.get t k ≡ some (object map) = rw (str_beq→eq key k own) at e in
            elim r.cases [
              | inl gone ↦ absent_none k ps t' (at ∙ gone)
              | inr left ↦
                  absent_some k ps t' (object (remove_nested_value map (part ∷ path))) (at ∙ left) (
                    keep_below part path map ps (absent_below ps k (object map) t here h)
                      (λ q qs. keep-IsGone part path map q qs))
            ]
      ]
]

-- The names of the fields among the arguments.
abbrev pub AllGone : Items → Fields → Type 0
AllGone nil fs = Unit
AllGone (cons (string s) names) fs = IsGone fs (split_path s) × AllGone names fs
AllGone (cons _ names) fs = AllGone names fs

exclude_from-keep :
    (names : Items) (t : Fields) (k : Str) (ps : List Str)
    → IsGone t (k ∷ ps)
    → IsGone (exclude_from names t) (k ∷ ps)
unfolding exclude_from
exclude_from-keep nil t k ps h = h
exclude_from-keep (cons (string s) names) t k ps h =
    let (part, parts, split) = split_path-cons s in
    let once : IsGone (remove_nested_value t (split_path s)) (k ∷ ps) =
      rw split (keep-IsGone part parts t k ps h) in
    exclude_from-keep names (remove_nested_value t (split_path s)) k ps once
exclude_from-keep (cons null names) t k ps h = exclude_from-keep names t k ps h
exclude_from-keep (cons (bool b) names) t k ps h = exclude_from-keep names t k ps h
exclude_from-keep (cons (number n) names) t k ps h = exclude_from-keep names t k ps h
exclude_from-keep (cons (array xs) names) t k ps h = exclude_from-keep names t k ps h
exclude_from-keep (cons (object fs) names) t k ps h = exclude_from-keep names t k ps h

-- After fields were excluded from an object, nothing is at the path of any of them.
pub exclude_from-AllGone : (names : Items) (t : Fields) → AllGone names (exclude_from names t)
unfolding exclude_from
exclude_from-AllGone nil t = tt
exclude_from-AllGone (cons (string s) names) t =
    let (part, parts, split) = split_path-cons s in
    let next = remove_nested_value t (split_path s) in
    let once : IsGone next (part ∷ parts) = rw split (remove_nested_value-IsGone part parts t) in
    let kept : IsGone (exclude_from names next) (split_path s) =
      rw split (rw split at (exclude_from-keep names next part parts once)) in
    (kept, exclude_from-AllGone names next)
exclude_from-AllGone (cons null names) t = exclude_from-AllGone names t
exclude_from-AllGone (cons (bool b) names) t = exclude_from-AllGone names t
exclude_from-AllGone (cons (number n) names) t = exclude_from-AllGone names t
exclude_from-AllGone (cons (array xs) names) t = exclude_from-AllGone names t
exclude_from-AllGone (cons (object fs) names) t = exclude_from-AllGone names t
