-- ===== src/Tests/Auth.antt =====
-- Tokens with a few scopes, and a codec that knows two of them.
use mathlib.Core.Path.{subst}
use molten_db.Prelude.{
  sym, le→leb, ◌≡◌, refl, ℕ, ◌+◌, ◌≤◌, Bool, true, false, ◌&&◌, ◌||◌, ◌≢◌, All, str_eq, none, some,
  List, [], ◌∷◌, ◌++◌, Bytes, Str, codes, arith, str_beq, str_beq→eq, nat_beq, leb, ltb,
  if◌then◌else◌, Bool-cases, inl, inr,
}
use molten_db.Prelude.Map.{Map}
use molten_db.Prelude.Map
use molten_db.Json.{Fields, null, string, object, field, end, bool}
use molten_db.Json.Object
use molten_db.Auth.{
  Claims, any, has_star, ends_with_star, strip_star, scope_parts, splitn, split_once, grants,
  key_matches, allowed_key, is_admin, has_access, has_collection_access, allowed_keys,
  extract_prefixes,
}
use molten_db.Query.Where.{starts_with}
use molten_db.Codec.Write.{value_to_msgpack}
use molten_db.Reads.{get_filtered}
use molten_db.Reads.Keys.{KeysAll}
use molten_db.Tests.Codec.{skip_one}
use molten_db.Tests.Query.{host}
use molten_db.Handlers.Fetch.{
  Coalesced, keys_field, allowed_prefixes_field, fetch_documents, scan_params,
}
use molten_db.Handlers.Route.{
  handle_get, handle_get_in, run, check_request, may_read_all, requested_keys, text_at,
  fetch_params, number_at, parsed, parse_get_params,
}
use molten_db.Handlers.Requests.{IsAsked, IsReadable, documents}
use molten_db.Handlers.Scoped.{handle_get-KeysAll}
use molten_db.Handlers.Leak.{handle_get-leak}
use molten_db.Auth.Access.{has_access-allowed_keys, IsSingle, key_single}
use molten_db.Auth.Pattern.{ends_single}
use molten_db.Auth.Token.{
  TokenCodec, ok, err, invalid_token, token_expired, auth_middleware, bearer, prune, revoke,
  revoked, passed, refresh_scoped_token, refresh_claims, create_scoped_token, verify_token,
  is_revoked,
}
use molten_db.Auth.Token.Refresh.{IsSound, auth_middleware-refresh_scoped_token}

abbrev reader : Claims
reader = record {
  sub = codes "ann";
  exp = 100;
  scopes = codes "read:laptops:lp1" ∷ codes "read:laptops:s_*" ∷ [];
  jti = codes "j1";
}

abbrev renewed : Claims
renewed = record reader { exp = 40; jti = codes "j2" }

abbrev texts_beq : List Str → List Str → Bool
texts_beq [] [] = true
texts_beq (s ∷ ss) (t ∷ ts) = str_beq s t && texts_beq ss ts
texts_beq _ _ = false

texts_beq→eq : (ss ts : List Str) → texts_beq ss ts ≡ true → ss ≡ ts
texts_beq→eq [] [] h = refl
texts_beq→eq [] (t ∷ ts) h = absurd (cc h)
texts_beq→eq (s ∷ ss) [] h = absurd (cc h)
texts_beq→eq (s ∷ ss) (t ∷ ts) h = ground (arith, str_beq→eq s t, texts_beq→eq ss ts)

abbrev claims_beq : Claims → Claims → Bool
claims_beq c d =
    str_beq c.sub d.sub
    && (nat_beq c.exp d.exp && (texts_beq c.scopes d.scopes && str_beq c.jti d.jti))

claims_beq→eq : (c d : Claims) → claims_beq c d ≡ true → c ≡ d
claims_beq→eq c d h =
    ground (arith, str_beq→eq c.sub d.sub, texts_beq→eq c.scopes d.scopes, str_beq→eq c.jti d.jti)

abbrev table : TokenCodec
table = record {
  encode = λ c.
      if claims_beq c reader
      then ok (codes "a")
      else if claims_beq c renewed
      then ok (codes "b")
      else err invalid_token;
  decode = λ now token.
      if str_beq token (codes "a")
      then (if leb now 160 then ok reader else err token_expired)
      else if str_beq token (codes "b")
      then (if leb now 100 then ok renewed else err token_expired)
      else err invalid_token;
}

opens_as :
    (own claims : Claims) (text token : Str) (now : ℕ)
    → own ≡ claims
    → text ≡ token
    → table.decode now text ≡ ok own
    → table.decode now token ≡ ok claims
opens_as own claims text token now same label opened =
    subst (λ t. table.decode now t ≡ ok claims) label
      (subst (λ c. table.decode now text ≡ ok c) same opened)

label_of : (s t : Str) → ok s ≡ ok t → s ≡ t
label_of s t h = ground (arith, h)

table-opens :
    (claims : Claims) (token : Str) (now : ℕ)
    → table.encode claims ≡ ok token
    → now ≤ claims.exp + 60
    → table.decode now token ≡ ok claims
unfolding str_beq
table-opens claims token now h late = elim (Bool-cases (claims_beq claims reader)) [
  | inl own ↦
      let same = claims_beq→eq claims reader own in
      let early : now ≤ reader.exp + 60 = rw same at late in
      opens_as reader claims (codes "a") token now (sym same)
        (label_of (codes "a") token (rw own at h)) (rw (le→leb now 160 early) refl)
  | inr other ↦ elim (Bool-cases (claims_beq claims renewed)) [
    | inl own ↦
        let same = claims_beq→eq claims renewed own in
        let early : now ≤ renewed.exp + 60 = rw same at late in
        opens_as renewed claims (codes "b") token now (sym same)
          (label_of (codes "b") token (rw (other, own) at h)) (rw (le→leb now 100 early) refl)
    | inr neither ↦ absurd (let q : err invalid_token ≡ ok token = rw (other, neither) at h in cc q)
  ]
]

table-IsSound : IsSound table 60
table-IsSound = record { opens = table-opens }

auth_middleware-refresh_scoped_token_example :
    auth_middleware table 40
      (some (bearer ++ codes "a"))
      (some (prune 40 (revoke (codes "j1") 40 [])))
    ≡ (if ltb 40 (0 + 40) then revoked else passed reader)
unfolding refresh_scoped_token refresh_claims create_scoped_token verify_token is_admin is_revoked
    str_beq revoke Map.insert Map.get
auth_middleware-refresh_scoped_token_example =
    auth_middleware-refresh_scoped_token table 60 table-IsSound 0 40 40 (codes "j2") (codes "a")
      reader [] (revoke (codes "j1") 40 []) (codes "b", codes "j2") refl refl (omega arith)
      (omega arith)

plain_key : has_star (codes "lp1") ≡ false
unfolding has_star
plain_key = refl

reader-IsSingle : All IsSingle reader.scopes
unfolding key_single ends_single ends_with_star strip_star scope_parts splitn split_once
reader-IsSingle = (refl, (refl, tt))

has_access-allowed_keys_example :
    has_access reader (codes "read") (codes "laptops") (codes "lp1") ≡ (
      has_collection_access reader (codes "read") (codes "laptops")
      || (any (λ s. str_beq s (codes "lp1")) (allowed_keys reader (codes "read") (codes "laptops"))
          || any
              (starts_with (codes "lp1"))
              (extract_prefixes reader (codes "read") (codes "laptops"))))
has_access-allowed_keys_example =
    has_access-allowed_keys reader (codes "read") (codes "laptops") (codes "lp1") plain_key
      reader-IsSingle

-- A token is no administrator's.
closed : has_collection_access reader (codes "read") (codes "laptops") ≡ false
unfolding has_collection_access has_access grants key_matches str_beq scope_parts splitn split_once
    strip_star starts_with
closed = refl

abbrev laptops : Map Str (Map Str Bytes)
laptops =
    (
      codes "laptops",
      (codes "lp1", value_to_msgpack null) ∷ (codes "s_9", value_to_msgpack null) ∷ [],
    )
    ∷ []

abbrev nothing_shared : Coalesced
nothing_shared = λ col predicate count asc. []

abbrev asked : Fields
asked =
    field (codes "collection") (string (codes "laptops"))
      (field (codes "keys") (string (codes "s_9")) end)

goes_on : handle_get reader (object asked) ≡ run (object asked)
unfolding handle_get handle_get_in has_collection_access has_access grants key_matches str_beq
    scope_parts splitn split_once strip_star starts_with allowed_keys allowed_key has_star
    check_request may_read_all requested_keys Object.lookup Object.get Object.as_str
goes_on = refl

named : text_at (object asked) (codes "collection") ≡ some (codes "laptops")
unfolding Object.lookup Object.get Object.as_str str_beq
named = refl

asked-IsAsked : IsAsked (Object.get asked keys_field)
unfolding Object.get str_beq
asked-IsAsked = tt

handle_get-KeysAll_example :
    KeysAll
      (IsReadable reader (codes "laptops"))
      (documents reader (codes "laptops") skip_one host nothing_shared laptops [] (object asked))
handle_get-KeysAll_example =
    handle_get-KeysAll reader (codes "laptops") skip_one host nothing_shared laptops [] closed
      reader-IsSingle asked (object asked) named asked-IsAsked goes_on

abbrev odd : Fields
odd = field (codes "collection") (string (codes "laptops")) (field (codes "keys") (bool true) end)

odd_parts :
    (text_at (object odd) (codes "collection") ≡ some (codes "laptops"))
    × (Object.get odd keys_field ≡ some (bool true))
    × (Object.get odd (codes "where") ≡ none)
    × (Object.get odd allowed_prefixes_field ≡ none)
    × (Object.get odd (codes "sort") ≡ none)
    × (ltb 1000 (number_at (object odd) (codes "count") 100) ≡ false)
unfolding Object.lookup Object.get Object.as_str str_beq
odd_parts = (refl, refl, refl, refl, refl, refl)

lasting : Map.get {K = Str} {V = ℕ} [] (codes "laptops") ≡ none
unfolding Map.get
lasting = refl

one_key : allowed_keys reader (codes "read") (codes "laptops") ≢ []
unfolding allowed_keys allowed_key has_star str_beq scope_parts splitn split_once
one_key h = cc h

handle_get-leak_example :
    (handle_get reader (object odd) ≡ run (object odd))
    × (parse_get_params [] 5 (object odd) ≡ parsed (fetch_params (object odd)))
    × (fetch_documents skip_one host nothing_shared laptops [] (fetch_params (object odd))
        ≡ get_filtered skip_one
            (scan_params (fetch_params (object odd)) (λ k bs. true) false)
            laptops
            []
            (codes "laptops"))
handle_get-leak_example =
    handle_get-leak reader (codes "laptops") odd (bool true) tt odd_parts.1 skip_one host
      nothing_shared laptops [] [] 5 odd_parts.0 odd_parts.4 odd_parts.2 odd_parts.3 odd_parts.5
      lasting one_key
