-- ===== src/Auth/Pattern.antt =====
-- What the pattern of a key matches: `key_matches` of moltendb-auth/src/hmac.rs.
use mathlib.Core.Path.{subst}
use molten_db.Prelude.{
  ◌≡◌, refl, sym, arith, Bool, true, false, not, ◌&&◌, ◌||◌, none, some, [], ◌∷◌, Str, nat_beq,
  str_beq, str_beq→eq, str_beq_refl, Bool-cases, Option-cases, inl, inr,
}
use molten_db.Query.Where.{starts_with}
use molten_db.Auth.{
  wildcard, strip_star, ends_with_star, has_star, trim_stars, key_matches, is_prefix_pattern,
}

-- A star at the end of a pattern is the only one there.
unfoldable pub ends_single : Str → Bool
unfolding ends_with_star
ends_single k = elim (strip_star k) [ none ↦ true | some p ↦ not (ends_with_star p) ]

some-same : (s t : Str) → some s ≡ some t → s ≡ t
some-same s t h = ground (arith, h)

-- What a star was stripped off.
strip_star-some :
    (s p : Str) → strip_star s ≡ some p → (trim_stars s ≡ trim_stars p) × (has_star s ≡ true)
unfolding strip_star trim_stars has_star
strip_star-some [] p h = absurd (cc h)
strip_star-some (b ∷ []) p h = elim (Bool-cases (nat_beq b b'*')) [
  | inl e ↦
      let own : some [] ≡ some p = rw (e, strip_star) at h in
      rw (sym (some-same [] p own), e, trim_stars, has_star) (refl, refl)
  | inr e ↦ absurd (let q : none ≡ some p = rw (e, strip_star) at h in cc q)
]
strip_star-some (b ∷ c ∷ s) p h = elim (Option-cases (strip_star (c ∷ s))) [
  | inl e ↦ absurd (let q : none ≡ some p = rw (e, strip_star) at h in cc q)
  | inr (q, e) ↦
      let own : some (b ∷ q) ≡ some p = rw (e, strip_star) at h in
      let (trim, star) = strip_star-some (c ∷ s) q e in
      rw (sym (some-same (b ∷ q) p own), trim) (refl, ground (arith, star))
]

trim_stars-same : (s : Str) → strip_star s ≡ none → trim_stars s ≡ s
unfolding strip_star trim_stars
trim_stars-same [] h = refl
trim_stars-same (b ∷ []) h = ground arith
trim_stars-same (b ∷ c ∷ s) h = elim (Option-cases (strip_star (c ∷ s))) [
  | inl e ↦ rw (trim_stars-same (c ∷ s) e) refl
  | inr (p, e) ↦ absurd (let q : some (b ∷ p) ≡ none = rw (e, strip_star) at h in cc q)
]

starts_with-wildcard : (p : Str) → ends_with_star p ≡ false → starts_with wildcard p ≡ str_beq p []
unfolding starts_with ends_with_star strip_star str_beq
starts_with-wildcard [] h = refl
starts_with-wildcard (b ∷ []) h = ground arith
starts_with-wildcard (b ∷ c ∷ p) h = ground arith

has_star-differs : (s k : Str) → has_star s ≡ true → has_star k ≡ false → str_beq s k ≡ false
unfolding has_star str_beq
has_star-differs [] k h g = absurd (cc h)
has_star-differs (b ∷ s) [] h g = refl
has_star-differs (b ∷ s) (c ∷ k) h g = ground (arith, has_star-differs s k)

ends_with_star-none : (s : Str) → ends_with_star s ≡ false → strip_star s ≡ none
unfolding ends_with_star
ends_with_star-none s h = elim (Option-cases (strip_star s)) [
  | inl e ↦ e
  | inr (p, e) ↦ absurd (let q : true ≡ false = rw (e, ends_with_star) at h in cc q)
]

-- The three tests of a pattern: of all keys, of the key itself and of a prefix.
unfoldable pub three_tests : Str → Str → Bool
unfolding key_matches has_star ends_with_star trim_stars
three_tests pattern k =
    key_matches pattern wildcard
    || ((not (has_star pattern) && str_beq pattern k)
        || (is_prefix_pattern pattern && starts_with k (trim_stars pattern)))

key_matches-whole :
    (pattern k : Str)
    → str_beq pattern wildcard ≡ false
    → has_star k ≡ false
    → strip_star pattern ≡ none
    → key_matches pattern k ≡ three_tests pattern k
unfolding three_tests
key_matches-whole pattern k other plain whole = elim (Bool-cases (has_star pattern)) [
  | inl star ↦
      rw
        (
          key_matches,
          three_tests,
          ends_with_star,
          other,
          whole,
          star,
          has_star-differs pattern k star plain,
        )
        (rw other refl)
  | inr none_left ↦
      rw (key_matches, three_tests, ends_with_star, other, whole, none_left) (ground arith)
]

key_matches-prefix :
    (pattern k p : Str)
    → str_beq pattern wildcard ≡ false
    → strip_star pattern ≡ some p
    → ends_with_star p ≡ false
    → key_matches pattern k ≡ three_tests pattern k
unfolding three_tests
key_matches-prefix pattern k p other e single =
    let (trim, star) = strip_star-some pattern p e in
    let same : trim_stars p ≡ p = trim_stars-same p (ends_with_star-none p single) in
    elim (Bool-cases (str_beq p [])) [
      | inl empty ↦
          let nothing = str_beq→eq p [] empty in
          rw (key_matches, three_tests, other, e, nothing, starts_with) refl
      | inr some_left ↦
          rw
            (
              key_matches,
              three_tests,
              ends_with_star,
              other,
              e,
              star,
              trim,
              same,
              starts_with-wildcard p single,
              some_left,
            )
            refl
    ]

pub key_matches-three_tests :
    (pattern k : Str)
    → has_star k ≡ false
    → ends_single pattern ≡ true
    → key_matches pattern k ≡ three_tests pattern k
unfolding key_matches ends_single three_tests
key_matches-three_tests pattern k plain single = elim (Bool-cases (str_beq pattern wildcard)) [
  | inl all ↦ rw (key_matches, three_tests, all) refl
  | inr other ↦ elim (Option-cases (strip_star pattern)) [
    | inl whole ↦ key_matches-whole pattern k other plain whole
    | inr (p, e) ↦
        let not_two : not (ends_with_star p) ≡ true = rw (e, ends_single) at single in
        key_matches-prefix pattern k p other e (ground (arith, not_two))
  ]
]

key_matches_self : (k : Str) → has_star k ≡ false → key_matches k k ≡ true
unfolding key_matches
key_matches_self k plain = elim (Option-cases (strip_star k)) [
  | inl whole ↦ rw (key_matches, whole, str_beq_refl k) (ground arith)
  | inr (p, e) ↦ absurd (let star = (strip_star-some k p e).1 in cc (star, plain))
]

-- A pattern without a star matches itself.
pub key_matches-same :
    (pattern k : Str)
    → str_beq pattern k ≡ true
    → has_star pattern ≡ false
    → key_matches pattern k ≡ true
key_matches-same pattern k same plain =
    subst (λ s. key_matches pattern s ≡ true) (str_beq→eq pattern k same)
      (key_matches_self pattern plain)

-- A pattern for a prefix matches what begins with the prefix.
pub key_matches-trim_stars :
    (pattern k : Str)
    → ends_single pattern ≡ true
    → is_prefix_pattern pattern ≡ true
    → starts_with k (trim_stars pattern) ≡ true
    → key_matches pattern k ≡ true
unfolding ends_single ends_with_star key_matches
key_matches-trim_stars pattern k single prefix h = elim (Option-cases (strip_star pattern)) [
  | inl whole ↦ absurd (
      let q : (false && not (str_beq pattern wildcard)) ≡ true =
        rw (ends_with_star, whole) at prefix in
      cc q)
  | inr (p, e) ↦
      let not_two : not (ends_with_star p) ≡ true = rw (e, ends_single) at single in
      let other : not (str_beq pattern wildcard) ≡ true = rw (ends_with_star, e) at prefix in
      let (trim, star) = strip_star-some pattern p e in
      let same : trim_stars p ≡ p =
        trim_stars-same p (ends_with_star-none p (ground (arith, not_two))) in
      let begins : starts_with k p ≡ true = rw (trim, same) at h in
      rw (key_matches, e) (ground (arith, begins))
]
