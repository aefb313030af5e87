-- ===== src/Auth/Granted.antt =====
-- What the keys and prefixes that are read off the scopes of a token grant.
use molten_db.Prelude.{
  ◌≢◌, ◌≡◌, refl, arith, Bool, true, false, not, ◌&&◌, ◌||◌, Option, none, some, List, [], ◌∷◌, Str,
  str_beq, if◌then◌else◌, All, Bool-cases, Option-cases, inl, inr,
}
use molten_db.Query.Where.{starts_with}
use molten_db.Auth.{
  scope_has_prefix, has_prefix_wildcard, has_collection_access, wildcard, Claims, admin_scope, any,
  filter_map, has_star, trim_stars, is_prefix_pattern, covers, scope_parts, grants, allowed_key,
  extract_prefix, has_access, allowed_keys, extract_prefixes, is_admin,
}
use molten_db.Auth.Pattern.{key_matches-same, key_matches-trim_stars}
use molten_db.Auth.Access.{any-admin, key_single, IsSingle, holds, any-filter_map}

any-filter_map→any :
    {A : Type 0} (p : A → Bool) (f : Str → Option A) (q : Str → Bool) (P : Str → Type 0)
    → ((x : Str) → P x → holds p (f x) ≡ true → q x ≡ true)
    → (xs : List Str) → All P xs
    → any p (filter_map f xs) ≡ true
    → any q xs ≡ true
any-filter_map→any p f q P step [] ps h = absurd (cc h)
any-filter_map→any p f q P step (x ∷ xs) ps h =
    let rest = any-filter_map→any p f q P step xs ps.1 in
    let first = step x ps.0 in
    let either : (holds p (f x) || any p (filter_map f xs)) ≡ true =
      rw (any-filter_map p f x xs) at h in
    ground (arith, either, rest, first)

if-holds :
    (P : Str → Bool) (c star : Bool) (a : Str)
    → holds P (if c && not star then some a else none) ≡ true
    → (c ≡ true) × (star ≡ false) × (P a ≡ true)
if-holds P true true a h = absurd (cc h)
if-holds P true false a h = (refl, refl, h)
if-holds P false star a h = absurd (cc h)

if-if-holds :
    (P : Str → Bool) (c ends : Bool) (a : Str)
    → holds P (if c then (if ends then some a else none) else none) ≡ true
    → (c ≡ true) × (ends ≡ true) × (P a ≡ true)
if-if-holds P true true a h = (refl, refl, h)
if-if-holds P true false a h = absurd (cc h)
if-if-holds P false ends a h = absurd (cc h)

-- What an allowed key, and a prefix, say of one scope.
allowed_key-grants :
    (action collection k scope : Str)
    → holds (λ s. str_beq s k) (allowed_key action collection scope) ≡ true
    → grants action collection k scope ≡ true
unfolding grants allowed_key
allowed_key-grants action collection k scope h = elim (Bool-cases (str_beq scope admin_scope)) [
  | inl admin ↦ rw (grants, admin) refl
  | inr other ↦ elim (Option-cases (scope_parts scope)) [
    | inl e ↦ absurd (let q : false ≡ true = rw (allowed_key, e) at h in cc q)
    | inr (p, e) ↦
        let (covered, plain, same) =
          if-holds (λ s. str_beq s k) (covers action collection p) (has_star p.2) p.2
            (rw (allowed_key, e) at h) in
        rw (grants, other, e, covered) (key_matches-same p.2 k same plain)
  ]
]

extract_prefix-grants :
    (action collection k scope : Str)
    → IsSingle scope
    → holds (starts_with k) (extract_prefix action collection scope) ≡ true
    → grants action collection k scope ≡ true
unfolding grants extract_prefix key_single
extract_prefix-grants action collection k scope single h =
    elim (Bool-cases (str_beq scope admin_scope)) [
      | inl admin ↦ rw (grants, admin) refl
      | inr other ↦ elim (Option-cases (scope_parts scope)) [
        | inl e ↦ absurd (let q : false ≡ true = rw (extract_prefix, e) at h in cc q)
        | inr (p, e) ↦
            let (covered, prefix, begins) =
              if-if-holds (starts_with k) (covers action collection p) (is_prefix_pattern p.2)
                (trim_stars p.2) (rw (extract_prefix, e) at h) in
            rw (grants, other, e, covered)
              (key_matches-trim_stars p.2 k (rw (e, key_single) at single) prefix begins)
      ]
    ]

units : (xs : List Str) → All (λ x. Unit {0}) xs
units [] = tt
units (x ∷ xs) = (tt, units xs)

-- A key that is among the allowed ones is granted.
pub has_access-allowed_key :
    (claims : Claims) (action collection k : Str)
    → any (λ s. str_beq s k) (allowed_keys claims action collection) ≡ true
    → has_access claims action collection k ≡ true
unfolding has_access allowed_keys
has_access-allowed_key claims action collection k h =
    any-filter_map→any (λ s. str_beq s k) (allowed_key action collection)
      (grants action collection k) (λ x. Unit {0}) (λ x u. allowed_key-grants action collection k x)
      claims.scopes (units claims.scopes) h

-- A key that begins with one of the prefixes is granted.
pub has_access-prefix :
    (claims : Claims) (action collection k : Str)
    → All IsSingle claims.scopes
    → any (starts_with k) (extract_prefixes claims action collection) ≡ true
    → has_access claims action collection k ≡ true
unfolding has_access extract_prefixes
has_access-prefix claims action collection k singles h = elim (Bool-cases (is_admin claims)) [
  | inl admin ↦ absurd (let q : false ≡ true = rw (extract_prefixes, admin) at h in cc q)
  | inr other ↦
      any-filter_map→any (starts_with k) (extract_prefix action collection)
        (grants action collection k) IsSingle (λ x u. extract_prefix-grants action collection k x u)
        claims.scopes singles (rw (extract_prefixes, other) at h)
]

extract_prefix-none :
    (action collection scope : Str)
    → extract_prefix action collection scope ≡ none
    → scope_has_prefix action collection scope ≡ false
unfolding extract_prefix scope_has_prefix
extract_prefix-none action collection scope h = elim (Option-cases (scope_parts scope)) [
  | inl e ↦ rw (scope_has_prefix, e) refl
  | inr (p, e) ↦
      let left : (if covers action collection p
            then (if is_prefix_pattern p.2 then some (trim_stars p.2) else none)
            else none)
          ≡ none =
        rw (extract_prefix, e) at h in
      rw (scope_has_prefix, e)
        (nothing (covers action collection p) (is_prefix_pattern p.2) (trim_stars p.2) left)
]
  where
    nothing :
        (c ends : Bool) (t : Str)
        → (if c then (if ends then some t else none) else none) ≡ none
        → (c && ends) ≡ false
    nothing true true t g = absurd (cc g)
    nothing true false t g = refl
    nothing false ends t g = refl

no_prefixes :
    (action collection : Str) (scopes : List Str)
    → filter_map (extract_prefix action collection) scopes ≡ []
    → any (scope_has_prefix action collection) scopes ≡ false
no_prefixes action collection [] h = refl
no_prefixes action collection (scope ∷ scopes) h =
    elim (Option-cases (extract_prefix action collection scope)) [
      | inl e ↦
          rw (extract_prefix-none action collection scope e)
            (no_prefixes action collection scopes (rw (filter_map, e) at h))
      | inr (t, e) ↦ absurd (
          let q : t ∷ filter_map (extract_prefix action collection) scopes ≡ [] =
            rw (filter_map, e) at h in
          cc q)
    ]

-- A token that is no administrator's and has a scope for a prefix has a prefix.
pub extract_prefixes-has_prefix_wildcard :
    (claims : Claims) (action collection : Str)
    → has_collection_access claims action collection ≡ false
    → has_prefix_wildcard claims action collection ≡ true
    → extract_prefixes claims action collection ≢ []
unfolding extract_prefixes has_prefix_wildcard has_collection_access has_access is_admin
extract_prefixes-has_prefix_wildcard claims action collection closed h none_left =
    elim (Bool-cases (is_admin claims)) [
      | inl admin ↦
          let all = any-admin action collection wildcard claims.scopes admin in cc (all, closed)
      | inr other ↦
          let left =
            no_prefixes action collection claims.scopes
              (rw (extract_prefixes, other) at none_left) in
          cc (left, h)
    ]
