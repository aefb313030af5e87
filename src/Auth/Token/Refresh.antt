-- ===== src/Auth/Token/Refresh.antt =====
-- What becomes of a token that was refreshed.
use molten_db.Prelude.{
  ◌≡◌, refl, ap, sym, ◌∙◌, arith, str_beq_refl, ℕ, ◌+◌, ◌≤◌, Bool, true, false, some, [], ◌∷◌, ◌++◌,
  Str, str_beq, str_eq, ltb, Bool-cases, inl, inr, if◌then◌else◌,
}
use molten_db.Prelude.Map
use molten_db.Query.Where.{starts_with}
use molten_db.Auth.{Claims, is_admin}
use molten_db.Auth.Token.{
  invalid_token, token_revoked, refresh_not_allowed, AuthResult, ok, err, TokenCodec,
  RevocationStore, revoke, is_revoked, prune, create_scoped_token, verify_token, refresh_claims,
  refresh_scoped_token, revoked, passed, check_claims, check_token, bearer, auth_middleware,
}

-- What `jsonwebtoken` documents: a token opens to its claims until it has expired, with a leeway.
pub record IsSound (codec : TokenCodec) (leeway : ℕ) : Type 0 where
  pub opens :
      (claims : Claims) (token : Str) (now : ℕ)
      → codec.encode claims ≡ ok token
      → now ≤ claims.exp + leeway
      → codec.decode now token ≡ ok claims

is_revoked-other :
    (j k : Str) (at : ℕ) (store : RevocationStore)
    → str_beq j k ≡ false
    → is_revoked ((j, at) ∷ store) k ≡ is_revoked store k
unfolding is_revoked Map.get
is_revoked-other j k at store e = rw (is_revoked, e) refl

is_revoked-if :
    (b : Bool) (j k : Str) (at : ℕ) (store : RevocationStore)
    → str_beq j k ≡ false
    → is_revoked (if b then (j, at) ∷ store else store) k ≡ is_revoked store k
is_revoked-if true j k at store e = is_revoked-other j k at store e
is_revoked-if false j k at store e = refl

is_revoked-own : (b : Bool) (k : Str) (at : ℕ) → is_revoked (if b then (k, at) ∷ [] else []) k ≡ b
unfolding is_revoked Map.get
is_revoked-own true k at = rw (is_revoked, str_beq_refl k) refl
is_revoked-own false k at = refl

revoked_head :
    (j k : Str) (at : ℕ) (store : RevocationStore)
    → str_beq j k ≡ true
    → true ≡ is_revoked ((j, at) ∷ store) k
unfolding is_revoked Map.get
revoked_head j k at store e = rw (is_revoked, e) refl

-- A revocation holds until it is pruned.
is_revoked-prune :
    (k : Str) (now at : ℕ) (store : RevocationStore)
    → is_revoked store k ≡ false
    → is_revoked (prune now (revoke k at store)) k ≡ ltb now at
unfolding prune revoke Map.insert
is_revoked-prune k now at [] h = is_revoked-own (ltb now at) k at
is_revoked-prune k now at ((j, a) ∷ store) h = elim (Bool-cases (str_beq j k)) [
  | inl same ↦ absurd (let q : true ≡ false = revoked_head j k a store same ∙ h in cc q)
  | inr other ↦ rw other (
      is_revoked-if (ltb now a) j k a (prune now (revoke k at store)) other
      ∙ is_revoked-prune k now at store (sym (is_revoked-other j k a store other) ∙ h))
]

abbrev Refreshed : Type 0
Refreshed = AuthResult (Str × Str) × RevocationStore

abbrev outcome_of :
    Bool → Bool → Bool → AuthResult (Str × Str) → RevocationStore → RevocationStore → Refreshed
outcome_of empty admin gone r store next =
    if empty
    then (err invalid_token, store)
    else if admin
    then (err refresh_not_allowed, store)
    else if gone
    then (err token_revoked, store)
    else (elim r [ err e ↦ (err e, store) | ok m ↦ (ok m, next) ])

outcome :
    (empty admin gone : Bool) (r : AuthResult (Str × Str)) (store next after : RevocationStore)
    (made : Str × Str)
    → outcome_of empty admin gone r store next ≡ (ok made, after)
    → (empty ≡ false) × (gone ≡ false) × (after ≡ next)
outcome true admin gone r store next after made h = absurd (cc (ap (λ x. x.0) h))
outcome false true gone r store next after made h = absurd (cc (ap (λ x. x.0) h))
outcome false false true r store next after made h = absurd (cc (ap (λ x. x.0) h))
outcome false false false (err e) store next after made h = absurd (cc (ap (λ x. x.0) h))
outcome false false false (ok m) store next after made h = (refl, refl, ap (λ x. x.1) (sym h))

-- The identifier of a token that is refreshed was not empty and not revoked before, and is revoked until
-- the new token expires.
refresh_claims-revoke :
    (codec : TokenCodec) (now new_ttl : ℕ) (jti : Str) (claims : Claims)
    (store after : RevocationStore) (made : Str × Str)
    → refresh_claims codec now jti claims new_ttl store ≡ (ok made, after)
    → (str_beq claims.jti [] ≡ false)
      × (is_revoked store claims.jti ≡ false)
      × (after ≡ revoke claims.jti (now + new_ttl) store)
unfolding refresh_claims
refresh_claims-revoke codec now new_ttl jti claims store after made h =
    outcome (str_beq claims.jti []) (is_admin claims) (is_revoked store claims.jti)
      (create_scoped_token codec now jti claims.sub claims.scopes new_ttl) store
      (revoke claims.jti (now + new_ttl) store) after made h

-- A request with a token and a store.
check_token-prune :
    (codec : TokenCodec) (later at : ℕ) (claims : Claims) (token : Str) (store : RevocationStore)
    → codec.decode later token ≡ ok claims
    → str_beq claims.jti [] ≡ false
    → is_revoked store claims.jti ≡ false
    → check_token codec later (some (prune later (revoke claims.jti at store))) token
      ≡ (if ltb later at then revoked else passed claims)
unfolding check_token verify_token check_claims
check_token-prune codec later at claims token store opened named kept =
    rw
      (
        check_token,
        verify_token,
        opened,
        check_claims,
        named,
        is_revoked-prune claims.jti later at store kept,
      )
      refl

-- If a token that was encoded is refreshed, then a later request with it, after the revocations were
-- pruned, and before the token has expired with the leeway of the decoder, is refused as revoked until
-- the new token expires, and goes on with the old claims from then on.
pub auth_middleware-refresh_scoped_token :
    (codec : TokenCodec) (leeway : ℕ) (sound : IsSound codec leeway) (now later new_ttl : ℕ)
    (jti token : Str) (claims : Claims) (store after : RevocationStore) (made : Str × Str)
    → codec.encode claims ≡ ok token
    → refresh_scoped_token codec now jti token new_ttl store ≡ (ok made, after)
    → now ≤ later
    → later ≤ claims.exp + leeway
    → auth_middleware codec later (some (bearer ++ token)) (some (prune later after))
      ≡ (if ltb later (now + new_ttl) then revoked else passed claims)
unfolding auth_middleware refresh_scoped_token verify_token starts_with
auth_middleware-refresh_scoped_token codec leeway sound now later new_ttl jti token claims store
      after made sealed h order alive =
    let opened : codec.decode now token ≡ ok claims =
      sound.opens claims token now sealed (omega arith) in
    let inner : refresh_claims codec now jti claims new_ttl store ≡ (ok made, after) =
      rw (refresh_scoped_token, verify_token, opened) at h in
    let (named, kept, same) =
      refresh_claims-revoke codec now new_ttl jti claims store after made inner in
    rw same (
      check_token-prune codec later (now + new_ttl) claims token store
        (sound.opens claims token later sealed alive) named kept)
