-- ===== src/Handlers/Leak.antt =====
-- A request whose `keys` are neither a string nor a list.
use molten_db.Prelude.{
  ◌≡◌, ◌≢◌, ◌∙◌, refl, ap, Bool-cases, inl, inr, true, false, Option, none, some, List, [], ◌∷◌,
  Bytes, Str, str_eq, get_or, codes, ◌>>=◌, ℕ, ltb,
}
use molten_db.Prelude.Map
use molten_db.Prelude.Map.{Map}
use molten_db.Json.{Value, Fields, string, array, object}
use molten_db.Json.Object
use molten_db.Engine.SeqIndex.{SeqIndex}
use molten_db.Query.Host.{Host}
use molten_db.Auth.{Claims, has_collection_access, allowed_keys}
use molten_db.Reads.{get_filtered}
use molten_db.Handlers.Fetch.{
  FetchParams, Coalesced, keys_field, allowed_prefixes_field, fetch_documents, fetch_by,
  scan_documents, scan_strategy, scan, scan_params, choose_scan_strategy, full_scan,
}
use molten_db.Handlers.Route.{
  run, forbidden, action_read, collection_field, handle_get, handle_get_in, check_request,
  requested_keys, may_read_all, fetch_params, as_items, text_at, number_at, parsed,
  parse_get_params,
}

-- Neither a string nor a list.
abbrev pub IsOther : Value → Type 0
IsOther (string k) = ⊥
IsOther (array arr) = ⊥
IsOther _ = Unit

requested_keys-IsOther : (v : Value) → IsOther v → requested_keys v ≡ []
unfolding requested_keys
requested_keys-IsOther (string k) o = absurd o
requested_keys-IsOther (array arr) o = absurd o
requested_keys-IsOther _ o = refl

module _ (claims : Claims) (collection : Str) (fs : Fields) (v : Value) (other : IsOther v)
    (keys : Object.get fs keys_field ≡ some v) where
  check_request-IsOther : check_request claims collection (object fs) (some v) ≡ run (object fs)
  unfolding check_request may_read_all
  check_request-IsOther = rw (check_request, requested_keys-IsOther v other) refl

  handle_get_in-IsOther :
      allowed_keys claims action_read collection ≢ []
      → handle_get_in claims (object fs) collection ≡ run (object fs)
  unfolding handle_get_in Object.lookup
  handle_get_in-IsOther some_key =
      elim (Bool-cases (has_collection_access claims action_read collection)) [
        | inl full ↦ rw (handle_get_in, full) refl
        | inr closed ↦
            rw (handle_get_in, closed) (go (allowed_keys claims action_read collection) some_key)
      ]
    where
      go :
          (ks : List Str)
          → ks ≢ []
          → (elim ks [
            | [] ↦ forbidden
            | k ∷ more ↦ check_request claims collection (object fs) (Object.get fs keys_field)
          ])
            ≡ run (object fs)
      go [] full = absurd (full refl)
      go (k ∷ ks) full = rw keys check_request-IsOther

  module _ (skip : Bytes → Option Bytes) (h : Host) (coalesced : Coalesced)
      (state : Map Str (Map Str Bytes)) (seq_index : Map Str SeqIndex) where
    fetch_by-IsOther :
        (p : FetchParams)
        → fetch_by skip h coalesced state seq_index p (some v)
          ≡ scan_documents skip h coalesced state seq_index p
    unfolding fetch_by
    fetch_by-IsOther p = by_value v other
      where
        by_value :
            (u : Value)
            → IsOther u
            → fetch_by skip h coalesced state seq_index p (some u)
              ≡ scan_documents skip h coalesced state seq_index p
        by_value (string k) o = absurd o
        by_value (array arr) o = absurd o
        by_value _ o = refl

    choose_full_scan :
        (p : FetchParams)
        → p.where_clause ≡ none
        → p.allowed_prefixes ≡ none
        → choose_scan_strategy p ≡ full_scan
    unfolding choose_scan_strategy
    choose_full_scan p no_filter no_prefixes =
        rw (choose_scan_strategy, no_filter, no_prefixes) refl

    scan_documents-full_scan :
        (p : FetchParams)
        → p.where_clause ≡ none
        → p.allowed_prefixes ≡ none
        → scan_documents skip h coalesced state seq_index p
          ≡ get_filtered skip (scan_params p (λ k bs. true) false) state seq_index p.col_name
    unfolding scan_documents scan_strategy scan
    scan_documents-full_scan p no_filter no_prefixes =
        ap (scan_strategy skip h coalesced state seq_index p)
          (choose_full_scan p no_filter no_prefixes)

    parsed-plain :
        (ttl_expiry : Map Str ℕ) (now : ℕ)
        → text_at (object fs) collection_field ≡ some collection
        → ltb 1000 (number_at (object fs) (codes "count") 100) ≡ false
        → Map.get ttl_expiry collection ≡ none
        → parse_get_params ttl_expiry now (object fs) ≡ parsed (fetch_params (object fs))
    unfolding parse_get_params fetch_params Object.lookup
    parsed-plain ttl_expiry now named few lasting =
        let own : Map.get ttl_expiry (fetch_params (object fs)).col_name ≡ none =
          ap (λ t. Map.get ttl_expiry (get_or t (codes "default"))) named ∙ lasting in
        rw (few, parse_get_params) (rw own refl)

    -- If a request names the collection, has something under `keys` that is neither a string nor a list,
    -- has no sort, no filter and no prefixes, and a count of at most 1000 if any, and the collection
    -- does not expire, then for a token that may read a single key of the collection the request goes on
    -- unchanged, its parameters are accepted, and what is fetched for them is the page of all documents
    -- of the collection.
    pub handle_get-leak :
        (ttl_expiry : Map Str ℕ) (now : ℕ)
        → text_at (object fs) collection_field ≡ some collection
        → Object.get fs (codes "sort") ≡ none
        → Object.get fs (codes "where") ≡ none
        → Object.get fs allowed_prefixes_field ≡ none
        → ltb 1000 (number_at (object fs) (codes "count") 100) ≡ false
        → Map.get ttl_expiry collection ≡ none
        → allowed_keys claims action_read collection ≢ []
        → (handle_get claims (object fs) ≡ run (object fs))
          × (parse_get_params ttl_expiry now (object fs) ≡ parsed (fetch_params (object fs)))
          × (fetch_documents skip h coalesced state seq_index (fetch_params (object fs))
              ≡ get_filtered skip
                  (scan_params (fetch_params (object fs)) (λ k bs. true) false)
                  state
                  seq_index
                  collection)
    unfolding handle_get fetch_documents fetch_params Object.lookup
    handle_get-leak ttl_expiry now named unsorted no_filter no_prefixes few lasting some_key = (
      ap (λ t. handle_get_in claims (object fs) (get_or t [])) named
          ∙ handle_get_in-IsOther some_key,
      parsed-plain ttl_expiry now named few lasting,
      ap (fetch_by skip h coalesced state seq_index (fetch_params (object fs))) keys
          ∙ fetch_by-IsOther (fetch_params (object fs))
          ∙ scan_documents-full_scan (fetch_params (object fs)) no_filter
              (ap (λ o. do x ← o; as_items x) no_prefixes)
          ∙ ap
              (λ t.
                get_filtered skip (scan_params (fetch_params (object fs)) (λ k bs. true) false)
                  state seq_index (get_or t (codes "default")))
              named,
    )
