-- ===== src/Auth.antt =====
-- Scopes of tokens: moltendb-auth/src/types.rs, and `key_matches` of moltendb-auth/src/hmac.rs.
pub mod Pattern
pub mod Access
pub mod Granted
pub mod Token
use molten_db.Prelude.{
  ℕ, zero, suc, Bool, true, false, not, ◌&&◌, ◌||◌, Option, none, some, List, [], ◌∷◌, Str, codes,
  nat_beq, str_beq, if◌then◌else◌,
}
use molten_db.Query.Where.{starts_with}

pub record Claims : Type 0 where
  pub sub : Str
  -- in seconds
  pub exp : ℕ
  pub scopes : List Str
  pub jti : Str

abbrev pub admin_scope : Str
admin_scope = codes "*:*:*"

abbrev pub wildcard : Str
wildcard = codes "*"

-- `iter().any`
abbrev pub any {ℓ} : {A : Type ℓ} → (A → Bool) → List A → Bool
any p [] = false
any p (x ∷ xs) = p x || any p xs

-- `iter().filter_map`, of what a test lets through.
abbrev pub filter_map {ℓ κ} : {A : Type ℓ} {B : Type κ} → (A → Option B) → List A → List B
filter_map f [] = []
filter_map f (x ∷ xs) = elim (f x) [ none ↦ filter_map f xs | some y ↦ y ∷ filter_map f xs ]

-- What is before the first colon, and what is behind it.
unfoldable pub split_once : Str → Option (Str × Str)
split_once [] = none
split_once (b ∷ s) =
    if nat_beq b b':'
    then some ([], s)
    else (elim (split_once s) [ none ↦ none | some (before, behind) ↦ some (b ∷ before, behind) ])

-- `str::splitn` at colons
unfoldable pub splitn : ℕ → Str → List Str
unfolding split_once
splitn zero s = []
splitn (suc zero) s = s ∷ []
splitn (suc (suc n)) s = elim (split_once s) [
  | none ↦ s ∷ []
  | some (before, behind) ↦ before ∷ splitn (suc n) behind
]

-- The parts of a list that has three.
abbrev pub three_parts : List Str → Option (Str × Str × Str)
three_parts (a ∷ b ∷ c ∷ []) = some (a, b, c)
three_parts _ = none

unfoldable pub scope_parts : Str → Option (Str × Str × Str)
unfolding splitn
scope_parts scope = three_parts (splitn 3 scope)

-- `strip_suffix('*')`
unfoldable pub strip_star : Str → Option Str
strip_star [] = none
strip_star (b ∷ []) = if nat_beq b b'*' then some [] else none
strip_star (b ∷ c ∷ s) = elim (strip_star (c ∷ s)) [ none ↦ none | some p ↦ some (b ∷ p) ]

-- `ends_with('*')`
unfoldable pub ends_with_star : Str → Bool
unfolding strip_star
ends_with_star s = elim (strip_star s) [ none ↦ false | some p ↦ true ]

-- `contains('*')`
unfoldable pub has_star : Str → Bool
has_star s = any (λ b. nat_beq b b'*') s

-- `trim_end_matches('*')`
unfoldable pub trim_stars : Str → Str
trim_stars [] = []
trim_stars (b ∷ s) = elim (trim_stars s) [
  | [] ↦ if nat_beq b b'*' then [] else b ∷ []
  | c ∷ t ↦ b ∷ c ∷ t
]

unfoldable pub key_matches : Str → Str → Bool
unfolding strip_star starts_with
key_matches pattern key =
    if str_beq pattern wildcard
    then true
    else (elim (strip_star pattern) [ none ↦ str_beq pattern key | some p ↦ starts_with key p ])

-- Of the parts of a scope: the action and the collection.
abbrev pub covers : Str → Str → Str × Str × Str → Bool
covers action collection (a, c, k) =
    str_beq a action && (str_beq c wildcard || str_beq c collection)

unfoldable pub grants : Str → Str → Str → Str → Bool
unfolding scope_parts key_matches
grants action collection doc_key scope =
    if str_beq scope admin_scope then true else (elim (scope_parts scope) [
      | none ↦ false
      | some p ↦ covers action collection p && key_matches p.2 doc_key
    ])

unfoldable pub has_access : Claims → Str → Str → Str → Bool
unfolding grants
has_access claims action collection doc_key = any (grants action collection doc_key) claims.scopes

unfoldable pub has_collection_access : Claims → Str → Str → Bool
unfolding has_access
has_collection_access claims action collection = has_access claims action collection wildcard

unfoldable pub is_admin : Claims → Bool
is_admin claims = any (λ s. str_beq s admin_scope) claims.scopes

unfoldable pub allowed_key : Str → Str → Str → Option Str
unfolding scope_parts has_star
allowed_key action collection scope = elim (scope_parts scope) [
  | none ↦ none
  | some p ↦ if covers action collection p && not (has_star p.2) then some p.2 else none
]

unfoldable pub allowed_keys : Claims → Str → Str → List Str
unfolding allowed_key
allowed_keys claims action collection = filter_map (allowed_key action collection) claims.scopes

-- The key of a scope is a prefix with a wildcard.
abbrev pub is_prefix_pattern : Str → Bool
is_prefix_pattern k = ends_with_star k && not (str_beq k wildcard)

unfoldable pub extract_prefix : Str → Str → Str → Option Str
unfolding scope_parts ends_with_star trim_stars
extract_prefix action collection scope = elim (scope_parts scope) [
  | none ↦ none
  | some p ↦
      if covers action collection p
      then (if is_prefix_pattern p.2 then some (trim_stars p.2) else none)
      else none
]

unfoldable pub extract_prefixes : Claims → Str → Str → List Str
unfolding is_admin extract_prefix
extract_prefixes claims action collection =
    if is_admin claims then [] else filter_map (extract_prefix action collection) claims.scopes

unfoldable pub scope_has_prefix : Str → Str → Str → Bool
unfolding scope_parts ends_with_star
scope_has_prefix action collection scope = elim (scope_parts scope) [
  | none ↦ false
  | some p ↦ covers action collection p && is_prefix_pattern p.2
]

unfoldable pub has_prefix_wildcard : Claims → Str → Str → Bool
unfolding scope_has_prefix
has_prefix_wildcard claims action collection =
    any (scope_has_prefix action collection) claims.scopes
