-- ===== src/Handlers/Requests.antt =====
-- The documents of the requests that a token with scopes for keys or prefixes may make.
use mathlib.Core.Path.{subst}
use molten_db.Prelude.{
  ◌++◌, ◌≡◌, ◌∙◌, refl, sym, ap, arith, true, Option, none, some, List, [], ◌∷◌, Bytes, Str,
  str_beq, str_beq_refl, All,
}
use molten_db.Prelude.Map.{Map}
use molten_db.Json.{Value, Items, Fields, string, array, object}
use molten_db.Json.Object
use molten_db.Engine.SeqIndex.{SeqIndex}
use molten_db.Query.Host.{Host}
use molten_db.Query.Nested.{remove_field}
use molten_db.Auth.{Claims, any, has_access, allowed_keys, extract_prefixes}
use molten_db.Auth.Access.{IsSingle}
use molten_db.Auth.Granted.{has_access-allowed_key, has_access-prefix}
use molten_db.Reads.Keys.{KeysAll}
use molten_db.Handlers.Fetch.{
  Coalesced, strings, keys_field, allowed_prefixes_field, fetch_documents, fetch_by, begins_with,
}
use molten_db.Handlers.Fetched.{fetch_key-KeysAll, fetch_keys-KeysAll, scan_documents-KeysAll}
use molten_db.Query.Nested.Removal.{get-remove_field}
use molten_db.Handlers.Route.{action_read, requested_keys, may_read_all, json_strings, fetch_params}

strings-json_strings : (ks : List Str) → strings (json_strings ks) ≡ ks
unfolding strings json_strings
strings-json_strings [] = refl
strings-json_strings (k ∷ ks) = ap (λ l. k ∷ l) (strings-json_strings ks)

may_read_all-All :
    (claims : Claims) (collection : Str) (ks : List Str)
    → may_read_all claims collection ks ≡ true
    → All (λ k. has_access claims action_read collection k ≡ true) ks
unfolding may_read_all
may_read_all-All claims collection [] h = tt
may_read_all-All claims collection (k ∷ ks) h =
    (ground (arith, h), may_read_all-All claims collection ks (ground (arith, h)))

found : (xs : List Str) (y : Str) (ys : List Str) → any (λ s. str_beq s y) (xs ++ y ∷ ys) ≡ true
found [] y ys = rw (str_beq_refl y) refl
found (x ∷ xs) y ys = ground (arith, found xs y ys)

append_one : (xs : List Str) (y : Str) (ys : List Str) → (xs ++ y ∷ []) ++ ys ≡ xs ++ y ∷ ys
append_one [] y ys = refl
append_one (x ∷ xs) y ys = ap (λ l. x ∷ l) (append_one xs y ys)

All-map :
    {A : Type 0} (P Q : A → Type 0) → ((x : A) → P x → Q x) → (xs : List A) → All P xs → All Q xs
All-map P Q f [] h = tt
All-map P Q f (x ∷ xs) h = (f x h.0, All-map P Q f xs h.1)

-- Each of the elements is found in the list.
members : (xs ys : List Str) → All (λ k. any (λ s. str_beq s k) (xs ++ ys) ≡ true) ys
members xs [] = tt
members xs (y ∷ ys) = (
  found xs y ys,
  subst (λ l. All (λ k. any (λ s. str_beq s k) l ≡ true) ys) (append_one xs y ys)
      (members (xs ++ y ∷ []) ys),
)

-- Of the keys that a request names, a key or a list.
abbrev pub IsAsked : Option Value → Type 0
IsAsked none = Unit
IsAsked (some (string k)) = Unit
IsAsked (some (array arr)) = Unit
IsAsked (some _) = ⊥

module _ (claims : Claims) (collection : Str) where
  abbrev pub IsReadable : Str → Type 0
  IsReadable k = has_access claims action_read collection k ≡ true

  allowed_keys-IsReadable : All IsReadable (allowed_keys claims action_read collection)
  allowed_keys-IsReadable =
      All-map _ _ (has_access-allowed_key claims action_read collection)
        (allowed_keys claims action_read collection)
        (members [] (allowed_keys claims action_read collection))

  module _ (skip : Bytes → Option Bytes) (h : Host) (coalesced : Coalesced)
      (state : Map Str (Map Str Bytes)) (seq_index : Map Str SeqIndex) where
    abbrev pub documents : Value → List (Str × Value)
    documents request = fetch_documents skip h coalesced state seq_index (fetch_params request)

    fetch_array :
        (request : Value) (arr : Items)
        → Object.lookup request keys_field ≡ some (array arr)
        → All IsReadable (strings arr)
        → KeysAll IsReadable (documents request)
    unfolding fetch_documents fetch_by fetch_params
    fetch_array request arr e g =
        rw (fetch_documents, e)
          (fetch_keys-KeysAll IsReadable skip h coalesced state seq_index (fetch_params request)
            (strings arr) g)

    pub keys_asked :
        (payload keys : Value)
        → Object.lookup payload keys_field ≡ some keys
        → IsAsked (some keys)
        → may_read_all claims collection (requested_keys keys) ≡ true
        → KeysAll IsReadable (documents payload)
    unfolding fetch_documents fetch_by fetch_params requested_keys
    keys_asked payload (string k) e asked g =
        rw (fetch_documents, e)
          (fetch_key-KeysAll IsReadable skip h coalesced state seq_index (fetch_params payload) k
            (may_read_all-All claims collection (k ∷ []) g).0)
    keys_asked payload (array arr) e asked g =
        fetch_array payload arr e (may_read_all-All claims collection (strings arr) g)
    keys_asked payload _ e asked g = absurd asked

    pub keys_injected :
        (fs : Fields)
        → KeysAll IsReadable (
            documents (
              object (
                Object.insert keys_field
                  (array (json_strings (allowed_keys claims action_read collection)))
                  fs)))
    unfolding Object.lookup str_beq
    keys_injected fs =
        let ks = allowed_keys claims action_read collection in
        fetch_array _ (json_strings ks) (Object.get-insert keys_field keys_field _ fs)
          (subst (All IsReadable) (sym (strings-json_strings ks)) allowed_keys-IsReadable)

    pub prefixes_injected :
        (fs : Fields) (prefix : Str) (prefixes : List Str)
        → All IsSingle claims.scopes
        → Object.get fs keys_field ≡ none
        → extract_prefixes claims action_read collection ≡ prefix ∷ prefixes
        → KeysAll IsReadable (
            documents (
              object (
                Object.insert allowed_prefixes_field
                  (array (json_strings (prefix ∷ prefixes)))
                  (remove_field allowed_prefixes_field fs))))
    unfolding fetch_documents fetch_by fetch_params json_strings Object.lookup str_beq
    prefixes_injected fs prefix prefixes singles absent e =
        let left = remove_field allowed_prefixes_field fs in
        let listed = array (json_strings (prefix ∷ prefixes)) in
        let request = object (Object.insert allowed_prefixes_field listed left) in
        let no_keys : Object.get (Object.insert allowed_prefixes_field listed left) keys_field
            ≡ none =
          Object.get-insert allowed_prefixes_field keys_field listed left
          ∙ get-remove_field allowed_prefixes_field keys_field fs
          ∙ absent in
        let own : Object.get (Object.insert allowed_prefixes_field listed left)
              allowed_prefixes_field
            ≡ some listed =
          Object.get-insert allowed_prefixes_field allowed_prefixes_field listed left in
        rw (fetch_documents, no_keys)
          (scan_documents-KeysAll IsReadable skip h coalesced state seq_index (fetch_params request)
            (string prefix) (json_strings prefixes) (rw own refl)
            λ k g. has_access-prefix claims action_read collection k singles (
              subst (λ l. begins_with l k ≡ true) (strings-json_strings (prefix ∷ prefixes) ∙ sym e)
                g))
