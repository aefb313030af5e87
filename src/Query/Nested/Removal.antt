-- ===== src/Query/Nested/Removal.antt =====
-- What a removal leaves at its own path and at the keys of its object.
use molten_db.Prelude.{
  ◌≡◌, refl, ◌∙◌, arith, Option, none, some, List, [], ◌∷◌, Str, str_beq, str_beq_iff, Bool-cases,
  inl, inr, ◌⊎◌, str_beq_refl, if◌then◌else◌,
}
use molten_db.Json.{Value, Fields, null, bool, number, string, array, object, end, field}
use molten_db.Json.Object
use molten_db.Query.Nested.{
  get_nested_value, as_object, remove_field, is_empty_object, remove_nested_value,
}

pub get-remove_field :
    (j k : Str) (fs : Fields)
    → Object.get (remove_field j fs) k ≡ (if str_beq j k then none else Object.get fs k)
unfolding Object.get remove_field
get-remove_field j k end = ground arith
get-remove_field j k (field i v fs) =
    ground (arith, str_beq_iff i j, str_beq_iff i k, str_beq_iff j k, get-remove_field j k fs)

-- Nothing is at the path.
abbrev pub IsGone : Fields → List Str → Type 0
IsGone fs path = get_nested_value (object fs) path ≡ none

pub absent_next :
    (k : Str) (ps : List Str) (fs gs : Fields)
    → Object.get fs k ≡ Object.get gs k
    → IsGone gs (k ∷ ps)
    → IsGone fs (k ∷ ps)
unfolding get_nested_value Object.lookup
absent_next k ps fs gs e h = rw e h

pub absent_none :
    (k : Str) (ps : List Str) (fs : Fields) → Object.get fs k ≡ none → IsGone fs (k ∷ ps)
unfolding get_nested_value Object.lookup
absent_none k ps fs e = rw e refl

pub absent_some :
    (k : Str) (ps : List Str) (fs : Fields) (v : Value)
    → Object.get fs k ≡ some v
    → get_nested_value v ps ≡ none
    → IsGone fs (k ∷ ps)
unfolding get_nested_value Object.lookup
absent_some k ps fs v e h = rw e h

pub remove_field-IsGone :
    (j k : Str) (ps : List Str) (fs : Fields)
    → IsGone fs (k ∷ ps)
    → IsGone (remove_field j fs) (k ∷ ps)
remove_field-IsGone j k ps fs h = elim (Bool-cases (str_beq j k)) [
  | inl own ↦ absent_none k ps (remove_field j fs) (get-remove_field j k fs ∙ rw own refl)
  | inr other ↦ absent_next k ps (remove_field j fs) fs (get-remove_field j k fs ∙ rw other refl) h
]

-- The cases of a removal below a key.
module _ (t : Fields) (key part : Str) (path : List Str) where
  pub remove_none : Object.get t key ≡ none → remove_nested_value t (key ∷ (part ∷ path)) ≡ t
  unfolding remove_nested_value
  remove_none e = rw (e, remove_nested_value) refl

  pub remove_scalar :
      (child : Value)
      → Object.get t key ≡ some child
      → as_object child ≡ none
      → remove_nested_value t (key ∷ (part ∷ path)) ≡ t
  unfolding remove_nested_value
  remove_scalar child e s = rw (e, remove_nested_value) (rw s refl)

  remove_map :
      (map : Fields)
      → Object.get t key ≡ some (object map)
      → remove_nested_value t (key ∷ (part ∷ path)) ≡ (
          if is_empty_object (object (remove_nested_value map (part ∷ path)))
          then remove_field key t
          else Object.insert key (object (remove_nested_value map (part ∷ path))) t)
  unfolding remove_nested_value as_object
  remove_map map e = rw (e, remove_nested_value) refl

-- After a removal below a key, the key has what is left of its object, or nothing.
pub record Removal (t : Fields) (key : Str) (left : Fields) (t' : Fields) : Type 0 where
  pub there : Option Value
  pub cases : (there ≡ none) ⊎ (there ≡ some (object left))
  pub get : (k : Str) → Object.get t' k ≡ (if str_beq key k then there else Object.get t k)

pub removal :
    (t : Fields) (key part : Str) (path : List Str) (map : Fields)
    → Object.get t key ≡ some (object map)
    → Removal t key
        (remove_nested_value map (part ∷ path))
        (remove_nested_value t (key ∷ (part ∷ path)))
removal t key part path map e =
    let left = remove_nested_value map (part ∷ path) in
    elim (Bool-cases (is_empty_object (object left))) [
      | inl empty ↦ record {
        there = none;
        cases = inl refl;
        get = λ k. rw (remove_map t key part path map e, empty) (get-remove_field key k t);
      }
      | inr more ↦ record {
        there = some (object left);
        cases = inr refl;
        get = λ k.
            rw (remove_map t key part path map e, more) (Object.get-insert key k (object left) t);
      }
    ]

pub absent_below :
    (ps : List Str) (k : Str) (v : Value) (fs : Fields)
    → Object.get fs k ≡ some v
    → IsGone fs (k ∷ ps)
    → get_nested_value v ps ≡ none
unfolding get_nested_value Object.lookup
absent_below ps k v fs e h = rw e at h

scalar_gone :
    (v : Value) (p : Str) (ps : List Str) → as_object v ≡ none → get_nested_value v (p ∷ ps) ≡ none
unfolding get_nested_value Object.lookup as_object
scalar_gone (object fs) p ps h = absurd (cc h)
scalar_gone null p ps h = refl
scalar_gone (bool b) p ps h = refl
scalar_gone (number n) p ps h = refl
scalar_gone (string s) p ps h = refl
scalar_gone (array xs) p ps h = refl

-- What is at the key of a removal, as far as it is an object.
pub data Child (t : Fields) (key : Str) : Type 0 where
  missing : Object.get t key ≡ none → Child t key
  scalar : (v : Value) → Object.get t key ≡ some v → as_object v ≡ none → Child t key
  nested : (map : Fields) → Object.get t key ≡ some (object map) → Child t key

pub find_kind : (t : Fields) (key : Str) (o : Option Value) → Object.get t key ≡ o → Child t key
unfolding as_object
find_kind t key none e = missing e
find_kind t key (some (object map)) e = nested map e
find_kind t key (some null) e = scalar null e refl
find_kind t key (some (bool b)) e = scalar (bool b) e refl
find_kind t key (some (number n)) e = scalar (number n) e refl
find_kind t key (some (string s)) e = scalar (string s) e refl
find_kind t key (some (array xs)) e = scalar (array xs) e refl

pub remove_nested_value-IsGone :
    (key : Str) (path : List Str) (t : Fields)
    → IsGone (remove_nested_value t (key ∷ path)) (key ∷ path)
remove_nested_value-IsGone key [] t =
    unfold remove_nested_value in
    absent_none key [] (remove_field key t)
      (get-remove_field key key t ∙ rw (str_beq_refl key) refl)
remove_nested_value-IsGone key (part ∷ path) t = elim (find_kind t key _ refl) [
  | missing e ↦ rw (remove_none t key part path e) (absent_none key (part ∷ path) t e)
  | scalar v e s ↦
      rw (remove_scalar t key part path v e s)
        (absent_some key (part ∷ path) t v e (scalar_gone v part path s))
  | nested map e ↦
      let r = removal t key part path map e in
      let at : Object.get (remove_nested_value t (key ∷ (part ∷ path))) key ≡ r.there =
        r.get key ∙ rw (str_beq_refl key) refl in
      elim r.cases [
        | inl gone ↦
            absent_none key (part ∷ path) (remove_nested_value t (key ∷ (part ∷ path))) (at ∙ gone)
        | inr left ↦
            absent_some key (part ∷ path) (remove_nested_value t (key ∷ (part ∷ path)))
              (object (remove_nested_value map (part ∷ path))) (at ∙ left)
              (remove_nested_value-IsGone part path map)
      ]
]
