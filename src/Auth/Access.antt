-- ===== src/Auth/Access.antt =====
-- What the scopes of a token grant, taken apart the way that reads are.
use molten_db.Prelude.{
  ◌≡◌, refl, arith, Bool, true, false, not, ◌&&◌, ◌||◌, Option, none, some, List, [], ◌∷◌, Str,
  str_beq, if◌then◌else◌, All, Bool-cases, Option-cases, inl, inr,
}
use molten_db.Query.Where.{starts_with}
use molten_db.Auth.{
  Claims, admin_scope, wildcard, any, filter_map, has_star, trim_stars, key_matches,
  is_prefix_pattern, covers, scope_parts, grants, allowed_key, extract_prefix, has_access,
  allowed_keys, extract_prefixes, is_admin, has_collection_access,
}
use molten_db.Auth.Pattern.{ends_single, three_tests, key_matches-three_tests}

-- No scope has a key that ends in two stars.
unfoldable pub key_single : Str → Bool
unfolding scope_parts ends_single
key_single scope = elim (scope_parts scope) [ none ↦ true | some p ↦ ends_single p.2 ]

abbrev pub IsSingle : Str → Type 0
IsSingle scope = key_single scope ≡ true

-- The test of what may be missing.
abbrev pub holds {ℓ} : {A : Type ℓ} → (A → Bool) → Option A → Bool
holds p none = false
holds p (some a) = p a

pub any-filter_map :
    {A B : Type 0} (p : B → Bool) (f : A → Option B) (x : A) (xs : List A)
    → any p (filter_map f (x ∷ xs)) ≡ (holds p (f x) || any p (filter_map f xs))
any-filter_map p f x xs =
    elim (f x)
      as (λ o.
        any p (elim o [ none ↦ filter_map f xs | some y ↦ y ∷ filter_map f xs ])
        ≡ (holds p o || any p (filter_map f xs))) [ none ↦ refl | some y ↦ refl ]

tests-holds :
    (c w star ends : Bool) (P Q : Str → Bool) (a t : Str)
    → (c && (w || ((not star && P a) || (ends && Q t)))) ≡ (
        (c && w)
        || (holds P (if c && not star then some a else none)
            || holds Q (if c then (if ends then some t else none) else none)))
tests-holds false w star ends P Q a t = refl
tests-holds true true star ends P Q a t = refl
tests-holds true false true false P Q a t = refl
tests-holds true false true true P Q a t = refl
tests-holds true false false false P Q a t = refl
tests-holds true false false true P Q a t = refl

grants-split :
    (action collection k scope : Str)
    → has_star k ≡ false
    → str_beq scope admin_scope ≡ false
    → IsSingle scope
    → grants action collection k scope ≡ (
        grants action collection wildcard scope
        || (holds (λ s. str_beq s k) (allowed_key action collection scope)
            || holds (starts_with k) (extract_prefix action collection scope)))
unfolding grants allowed_key extract_prefix key_single three_tests
grants-split action collection k scope plain other single =
    elim (Option-cases (scope_parts scope)) [
      | inl e ↦ rw (grants, allowed_key, extract_prefix, other, e) refl
      | inr (p, e) ↦
          let tests = key_matches-three_tests p.2 k plain (rw (e, key_single) at single) in
          rw (grants, allowed_key, extract_prefix, other, e, tests)
            (tests-holds (covers action collection p) (key_matches p.2 wildcard) (has_star p.2)
              (is_prefix_pattern p.2) (λ s. str_beq s k) (starts_with k) p.2 (trim_stars p.2))
    ]

ors :
    (a b c d e f : Bool)
    → ((a || (b || c)) || (d || (e || f))) ≡ ((a || d) || ((b || e) || (c || f)))
ors a b c d e f = ground arith

-- Any of the scopes, where none is that of the administrator.
any-grants :
    (action collection k : Str) (scopes : List Str)
    → has_star k ≡ false
    → any (λ s. str_beq s admin_scope) scopes ≡ false
    → All IsSingle scopes
    → any (grants action collection k) scopes ≡ (
        any (grants action collection wildcard) scopes
        || (any (λ s. str_beq s k) (filter_map (allowed_key action collection) scopes)
            || any (starts_with k) (filter_map (extract_prefix action collection) scopes)))
any-grants action collection k [] plain other singles = refl
any-grants action collection k (scope ∷ scopes) plain other (single, singles) =
    let first = grants-split action collection k scope plain (ground (arith, other)) single in
    let rest = any-grants action collection k scopes plain (ground (arith, other)) singles in
    rw
      (
        first,
        rest,
        any-filter_map (λ s. str_beq s k) (allowed_key action collection) scope scopes,
        any-filter_map (starts_with k) (extract_prefix action collection) scope scopes,
      )
      (search ors)

pub any-admin :
    (action collection k : Str) (scopes : List Str)
    → any (λ s. str_beq s admin_scope) scopes ≡ true
    → any (grants action collection k) scopes ≡ true
unfolding grants
any-admin action collection k [] h = absurd (cc h)
any-admin action collection k (scope ∷ scopes) h = elim (Bool-cases (str_beq scope admin_scope)) [
  | inl own ↦ rw (grants, own) refl
  | inr other ↦
      let rest = any-admin action collection k scopes (rw other at h) in rw rest (ground arith)
]

-- A token whose scopes end in one star at most grants access to a key without a star if and only if it
-- grants access to the collection, or the key is among the keys or begins with one of the prefixes
-- that are read off the scopes.
pub has_access-allowed_keys :
    (claims : Claims) (action collection k : Str)
    → has_star k ≡ false
    → All IsSingle claims.scopes
    → has_access claims action collection k ≡ (
        has_collection_access claims action collection
        || (any (λ s. str_beq s k) (allowed_keys claims action collection)
            || any (starts_with k) (extract_prefixes claims action collection)))
unfolding has_access has_collection_access allowed_keys extract_prefixes is_admin
has_access-allowed_keys claims action collection k plain singles =
    elim (Bool-cases (is_admin claims)) [
      | inl admin ↦
          rw
            (
              has_access,
              has_collection_access,
              any-admin action collection k claims.scopes admin,
              any-admin action collection wildcard claims.scopes admin,
            )
            refl
      | inr other ↦
          rw (has_access, has_collection_access, allowed_keys, extract_prefixes, other)
            (any-grants action collection k claims.scopes plain other singles)
    ]
