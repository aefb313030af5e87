-- ===== src/Handlers/Scoped.antt =====
-- What a token with scopes for single keys or prefixes can read.
use mathlib.Core.Path.{subst}
use molten_db.Prelude.{
  ◌≡◌, ◌≢◌, ◌∙◌, refl, sym, ap, arith, true, false, Option, none, some, List, [], ◌∷◌, Bytes, Str,
  get_or, All, Bool-cases, inl, inr,
}
use molten_db.Prelude.Map.{Map}
use molten_db.Json.{Value, Fields, object}
use molten_db.Json.Object
use molten_db.Engine.SeqIndex.{SeqIndex}
use molten_db.Query.Host.{Host}
use molten_db.Auth.{
  Claims, has_collection_access, allowed_keys, extract_prefixes, has_prefix_wildcard,
}
use molten_db.Auth.Access.{IsSingle}
use molten_db.Auth.Granted.{extract_prefixes-has_prefix_wildcard}
use molten_db.Reads.Keys.{KeysAll}
use molten_db.Handlers.Fetch.{Coalesced, keys_field}
use molten_db.Handlers.Route.{
  forbidden, run, action_read, collection_field, handle_get, handle_get_in, check_request,
  scope_request, requested_keys, may_read_all, assign, strip, text_at,
}
use molten_db.Handlers.Requests.{
  IsAsked, IsReadable, documents, keys_asked, keys_injected, prefixes_injected,
}

run_same : (u v : Value) → run u ≡ run v → u ≡ v
run_same u v h = ground (arith, h)

not_run : (v : Value) → forbidden ≢ run v
not_run v h = cc h

module _ (claims : Claims) (collection : Str) (skip : Bytes → Option Bytes) (h : Host)
    (coalesced : Coalesced) (state : Map Str (Map Str Bytes)) (seq_index : Map Str SeqIndex)
    (closed : has_collection_access claims action_read collection ≡ false)
    (singles : All IsSingle claims.scopes) where
  run_scoped :
      (fs : Fields) (request : Value)
      → Object.get fs keys_field ≡ none
      → scope_request claims collection (object fs) ≡ run request
      → KeysAll
          (IsReadable claims collection)
          (documents claims collection skip h coalesced state seq_index request)
  unfolding scope_request assign strip
  run_scoped fs request absent e =
      elim (Bool-cases (has_prefix_wildcard claims action_read collection)) [
        | inr plain ↦
            subst
              (λ r.
                KeysAll (IsReadable claims collection)
                  (documents claims collection skip h coalesced state seq_index r))
              (run_same _ _ (rw (scope_request, plain) at e))
              (keys_injected claims collection skip h coalesced state seq_index fs)
        | inl wild ↦ prefixed wild (extract_prefixes claims action_read collection) refl
      ]
    where
      prefixed :
          has_prefix_wildcard claims action_read collection ≡ true
          → (ps : List Str) → extract_prefixes claims action_read collection ≡ ps
          → KeysAll
              (IsReadable claims collection)
              (documents claims collection skip h coalesced state seq_index request)
      prefixed wild [] q =
          absurd (extract_prefixes-has_prefix_wildcard claims action_read collection closed wild q)
      prefixed wild (p ∷ ps) q =
          subst
            (λ r.
              KeysAll (IsReadable claims collection)
                (documents claims collection skip h coalesced state seq_index r))
            (run_same _ _ (rw (scope_request, wild, q) at e))
            (prefixes_injected claims collection skip h coalesced state seq_index fs p ps singles
              absent q)

  checked :
      (fs : Fields) (request : Value) (asked : Option Value)
      → Object.get fs keys_field ≡ asked
      → IsAsked asked
      → check_request claims collection (object fs) asked ≡ run request
      → KeysAll
          (IsReadable claims collection)
          (documents claims collection skip h coalesced state seq_index request)
  unfolding check_request Object.lookup
  checked fs request none q a e = run_scoped fs request q e
  checked fs request (some keys) q a e =
      elim (Bool-cases (may_read_all claims collection (requested_keys keys))) [
        | inl all ↦
            subst
              (λ r.
                KeysAll (IsReadable claims collection)
                  (documents claims collection skip h coalesced state seq_index r))
              (run_same _ _ (rw all at e))
              (keys_asked claims collection skip h coalesced state seq_index (object fs) keys q a
                all)
        | inr some_not ↦ absurd (not_run request (rw some_not at e))
      ]

  opened :
      (fs : Fields) (request : Value)
      → IsAsked (Object.get fs keys_field)
      → handle_get_in claims (object fs) collection ≡ run request
      → KeysAll
          (IsReadable claims collection)
          (documents claims collection skip h coalesced state seq_index request)
  unfolding handle_get_in Object.lookup
  opened fs request asked e =
      go (allowed_keys claims action_read collection) (rw (handle_get_in, closed) at e)
    where
      go :
          (ks : List Str)
          → (elim ks [
            | [] ↦ forbidden
            | k ∷ more ↦ check_request claims collection (object fs) (Object.get fs keys_field)
          ])
            ≡ run request
          → KeysAll
              (IsReadable claims collection)
              (documents claims collection skip h coalesced state seq_index request)
      go [] g = absurd (not_run request g)
      go (k ∷ ks) g = checked fs request (Object.get fs keys_field) refl asked g

  -- If a token without access to a collection, whose scopes end in one star at most, asks for
  -- documents of the collection, with a key or a list of keys or none, and the request goes on,
  -- then the token has access to each of the documents that are fetched.
  pub handle_get-KeysAll :
      (fs : Fields) (request : Value)
      → text_at (object fs) collection_field ≡ some collection
      → IsAsked (Object.get fs keys_field)
      → handle_get claims (object fs) ≡ run request
      → KeysAll
          (IsReadable claims collection)
          (documents claims collection skip h coalesced state seq_index request)
  unfolding handle_get
  handle_get-KeysAll fs request named asked e =
      opened fs request asked
        (ap (λ t. handle_get_in claims (object fs) (get_or t [])) (sym named) ∙ e)
