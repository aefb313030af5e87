-- ===== src/Auth/Token.antt =====
-- Tokens and their revocation: moltendb-auth/src/token.rs, store.rs and middleware.rs, and the handlers
-- of the server that mint and revoke. Times are whole seconds, and the two clocks of the source, that
-- of `SystemTime` and that of `Instant`, are one. The identifier of a new token is an argument.
pub mod Refresh
use molten_db.Prelude.{
  ℕ, ◌+◌, ◌-◌, Bool, true, false, not, ◌&&◌, Option, none, some, List, [], ◌∷◌, Str, str_eq, codes,
  ltb, str_beq, drop, get_or, if◌then◌else◌,
}
use molten_db.Prelude.Map
use molten_db.Prelude.Map.{Map}
use molten_db.Query.Where.{starts_with}
use molten_db.Auth.{Claims, admin_scope, any, is_admin, scope_parts}

pub data AuthError : Type 0 where
  invalid_token token_expired token_revoked refresh_not_allowed : AuthError

pub data AuthResult (A : Type 0) : Type 0 where
  ok : A → AuthResult A
  err : AuthError → AuthResult A

-- `jsonwebtoken` with the secret: `encode`, and `decode` at a time, whose errors are told apart as the
-- source does.
pub record TokenCodec : Type 0 where
  pub encode : Claims → AuthResult Str
  pub decode : ℕ → Str → AuthResult Claims

-- The times from which on the entries can go.
abbrev pub RevocationStore : Type 0
RevocationStore = Map Str ℕ

unfoldable pub revoke : Str → ℕ → RevocationStore → RevocationStore
unfolding Map.insert
revoke jti prune_after store = Map.insert jti prune_after store

unfoldable pub is_revoked : RevocationStore → Str → Bool
unfolding Map.get
is_revoked store jti = elim (Map.get store jti) [ none ↦ false | some at ↦ true ]

unfoldable pub prune : ℕ → RevocationStore → RevocationStore
prune now [] = []
prune now ((jti, at) ∷ store) =
    let rest = prune now store in if ltb now at then (jti, at) ∷ rest else rest

-- What the middleware answers, or the claims with which a request goes on.
pub data Answer : Type 0 where
  missing_header invalid_or_expired missing_jti revoked store_unavailable : Answer
  passed : Claims → Answer

abbrev pub bearer : Str
bearer = codes "Bearer "

-- The answers 403, 400 and 500, or the token with its identifier.
pub data Delegated : Type 0 where
  not_admin not_root invalid_scope not_created : Delegated
  delegated : Str → Str → Delegated

abbrev well_formed : Str → Bool
well_formed scope =
    if str_beq scope admin_scope
    then true
    else (elim (scope_parts scope) [ none ↦ false | some p ↦ true ])

module _ (codec : TokenCodec) where
  unfoldable pub create_scoped_token : ℕ → Str → Str → List Str → ℕ → AuthResult (Str × Str)
  create_scoped_token now jti username scopes ttl_secs =
      elim (codec.encode
        record { sub = username; exp = now + ttl_secs; scopes = scopes; jti = jti }) [
          | err e ↦ err e
          | ok token ↦ ok (token, jti)
        ]

  unfoldable pub verify_token : ℕ → Str → AuthResult Claims
  verify_token now token = codec.decode now token

  -- Of the claims of the old token.
  unfoldable pub refresh_claims :
      ℕ → Str → Claims → ℕ → RevocationStore → AuthResult (Str × Str) × RevocationStore
  unfolding is_admin is_revoked create_scoped_token revoke
  refresh_claims now jti claims new_ttl_secs store =
      if str_beq claims.jti []
      then (err invalid_token, store)
      else if is_admin claims
      then (err refresh_not_allowed, store)
      else if is_revoked store claims.jti
      then (err token_revoked, store)
      else (elim (create_scoped_token now jti claims.sub claims.scopes new_ttl_secs) [
        | err e ↦ (err e, store)
        | ok made ↦ (ok made, revoke claims.jti (now + new_ttl_secs) store)
      ])

  unfoldable pub refresh_scoped_token :
      ℕ → Str → Str → ℕ → RevocationStore → AuthResult (Str × Str) × RevocationStore
  unfolding verify_token refresh_claims
  refresh_scoped_token now jti old_token new_ttl_secs store = elim (verify_token now old_token) [
    | err e ↦ (err e, store)
    | ok claims ↦ refresh_claims now jti claims new_ttl_secs store
  ]

  unfoldable pub check_claims : Option RevocationStore → Claims → Answer
  unfolding is_revoked
  check_claims none claims = store_unavailable
  check_claims (some store) claims =
      if str_beq claims.jti []
      then missing_jti
      else if is_revoked store claims.jti
      then revoked
      else passed claims

  unfoldable pub check_token : ℕ → Option RevocationStore → Str → Answer
  unfolding verify_token check_claims
  check_token now store token = elim (verify_token now token) [
    | err e ↦ invalid_or_expired
    | ok claims ↦ check_claims store claims
  ]

  -- Of the header `Authorization`.
  unfoldable pub auth_middleware : ℕ → Option Str → Option RevocationStore → Answer
  unfolding check_token starts_with
  auth_middleware now none store = missing_header
  auth_middleware now (some header) store =
      if starts_with header bearer then check_token now store (drop 7 header) else missing_header

  unfoldable pub handle_delegate : ℕ → Str → Str → Claims → Str → List Str → Option ℕ → Delegated
  unfolding is_admin create_scoped_token scope_parts
  handle_delegate now jti root_username claims client_id scopes ttl_secs =
      if not (is_admin claims)
      then not_admin
      else if any (λ s. str_beq s admin_scope) scopes && not (str_beq claims.sub root_username)
      then not_root
      else if any (λ s. not (well_formed s)) scopes
      then invalid_scope
      else (elim (create_scoped_token now jti client_id scopes (get_or ttl_secs 3600)) [
        | err e ↦ not_created
        | ok (token, made) ↦ delegated token made
      ])

-- The answers 403 and 400, or the store.
pub data Revoked : Type 0 where
  admin_required empty_jti : Revoked
  done : RevocationStore → Revoked

unfoldable pub handle_revoke : ℕ → Claims → RevocationStore → Str → Option ℕ → Revoked
unfolding is_admin revoke
handle_revoke now claims store jti exp =
    if not (is_admin claims)
    then admin_required
    else if str_beq jti []
    then empty_jti
    else done (
        revoke jti (elim exp [ some exp_secs ↦ now + (exp_secs - now) | none ↦ now + 86400 ]) store)
