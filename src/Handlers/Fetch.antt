-- ===== src/Handlers/Fetch.antt =====
-- `fetch_documents` of moltendb-core/src/handlers/get/fetch.rs, for requests without a sort.
use molten_db.Prelude.{
  ℕ, ◌+◌, ◌%◌, ◌^◌, Bool, true, false, not, ◌&&◌, Option, none, some, List, [], ◌∷◌, Bytes, Str,
  codes, get_or, retain, if◌then◌else◌,
}
use molten_db.Prelude.Map.{Map}
use molten_db.Json.{Value, Items, string, array, nil, cons}
use molten_db.Json.Object
use molten_db.Engine.SeqIndex.{SeqIndex}
use molten_db.Query.Host.{Host}
use molten_db.Query.Where.{starts_with}
use molten_db.Reads.{Params, get, get_filtered}
use molten_db.Auth.{any}
use molten_db.Handlers.Filter.{passes_clause}

pub record FetchParams : Type 0 where
  pub col_name : Str
  pub payload : Value
  pub where_clause : Option Value
  pub has_joins : Bool
  pub default_order_asc : Bool
  pub offset : ℕ
  pub count_limit : ℕ
  pub allowed_prefixes : Option Items

-- `filter_map(as_str)`
unfoldable pub strings : Items → List Str
unfolding Object.as_str
strings nil = []
strings (cons x xs) = elim (Object.as_str x) [ none ↦ strings xs | some s ↦ s ∷ strings xs ]

abbrev pub keys_field : Str
keys_field = codes "keys"

abbrev pub allowed_prefixes_field : Str
allowed_prefixes_field = codes "_allowed_prefixes"

abbrev pub begins_with : List Str → Str → Bool
begins_with prefixes k = any (starts_with k) prefixes

-- Without a list of prefixes every key will do.
unfoldable pub prefix_allows : Option Items → Str → Bool
unfolding strings starts_with
prefix_allows none k = true
prefix_allows (some prefixes) k = begins_with (strings prefixes) k

pub data ScanStrategy : Type 0 where
  where_only prefix_only where_and_prefix full_scan : ScanStrategy

abbrev pub is_some {ℓ} : {A : Type ℓ} → Option A → Bool
is_some none = false
is_some (some a) = true

abbrev not_empty : Option Items → Bool
not_empty (some (cons x xs)) = true
not_empty _ = false

unfoldable pub choose_scan_strategy : FetchParams → ScanStrategy
choose_scan_strategy p =
    let has_where = is_some p.where_clause && not p.has_joins in
    let has_prefix = not_empty p.allowed_prefixes in
    if has_where
    then (if has_prefix then where_and_prefix else where_only)
    else (if has_prefix then prefix_only else full_scan)

abbrev pub scan_params : FetchParams → (Str → Bytes → Bool) → Bool → Params
scan_params p predicate has_where = record {
  predicate = predicate;
  offset = 0;
  count = (p.offset + p.count_limit) % 2 ^ 64;
  default_order_asc = p.default_order_asc;
  has_where = has_where;
}

-- The coordinator of shared scans: of a collection, a predicate, a count and the order.
abbrev pub Coalesced : Type 0
Coalesced = Str → (Bytes → Bool) → ℕ → Bool → List (Str × Value)

module _ (skip : Bytes → Option Bytes) (h : Host) (coalesced : Coalesced) where
  module _ (state : Map Str (Map Str Bytes)) (seq_index : Map Str SeqIndex) where
    -- `db.get_filtered` with the count of the request
    unfoldable pub scan : FetchParams → (Str → Bytes → Bool) → Bool → List (Str × Value)
    unfolding get_filtered
    scan p predicate has_where =
        get_filtered skip (scan_params p predicate has_where) state seq_index p.col_name

    unfoldable pub scan_strategy : FetchParams → ScanStrategy → List (Str × Value)
    unfolding scan passes_clause strings
    scan_strategy p where_only =
        coalesced p.col_name (λ bs. passes_clause skip h (get_or p.where_clause Object.null) bs)
          ((p.offset + p.count_limit) % 2 ^ 64) p.default_order_asc
    scan_strategy p prefix_only =
        scan p (λ k bs. begins_with (strings (get_or p.allowed_prefixes nil)) k)
          (is_some p.where_clause)
    scan_strategy p where_and_prefix =
        scan p
          (λ k bs.
            begins_with (strings (get_or p.allowed_prefixes nil)) k
            && passes_clause skip h (get_or p.where_clause Object.null) bs)
          (is_some p.where_clause)
    scan_strategy p full_scan = scan p (λ k bs. true) false

    unfoldable pub scan_documents : FetchParams → List (Str × Value)
    unfolding scan_strategy choose_scan_strategy
    scan_documents p = scan_strategy p (choose_scan_strategy p)

    unfoldable pub fetch_key : FetchParams → Str → List (Str × Value)
    unfolding prefix_allows get
    fetch_key p k = if prefix_allows p.allowed_prefixes k then get state p.col_name (k ∷ []) else []

    unfoldable pub fetch_keys : FetchParams → List Str → List (Str × Value)
    unfolding prefix_allows get
    fetch_keys p ks = get state p.col_name (retain (prefix_allows p.allowed_prefixes) ks)

    -- What is under `keys`: a key, a list, or anything else, which is as if nothing were there.
    unfoldable pub fetch_by : FetchParams → Option Value → List (Str × Value)
    unfolding fetch_key fetch_keys scan_documents strings
    fetch_by p (some (string k)) = fetch_key p k
    fetch_by p (some (array arr)) = fetch_keys p (strings arr)
    fetch_by p _ = scan_documents p

    unfoldable pub fetch_documents : FetchParams → List (Str × Value)
    unfolding fetch_by Object.lookup
    fetch_documents p = fetch_by p (Object.lookup p.payload keys_field)
