-- ===== src/Handlers/Fetched.antt =====
-- The keys of the documents that a request fetches.
use molten_db.Prelude.{
  ◌≡◌, refl, arith, Bool, true, false, not, ◌&&◌, Option, some, List, [], ◌∷◌, Bytes, Str, get_or,
  retain, if◌then◌else◌, All,
}
use molten_db.Prelude.Map.{Map}
use molten_db.Json.{Value, Items, nil, cons}
use molten_db.Engine.SeqIndex.{SeqIndex}
use molten_db.Query.Host.{Host}
use molten_db.Reads.Keys.{KeysAll, if-All, get-KeysAll}
use molten_db.Reads.Passing.{get_filtered-KeysAll}
use molten_db.Handlers.Fetch.{
  FetchParams, Coalesced, strings, prefix_allows, fetch_key, fetch_keys, scan_documents,
  scan_strategy, scan, choose_scan_strategy, begins_with, scan_params, is_some, where_and_prefix,
  prefix_only,
}

retain-All :
    {A : Type 0} (P : A → Type 0) (test : A → Bool) (xs : List A)
    → All P xs
    → All P (retain test xs)
retain-All P test [] h = tt
retain-All P test (x ∷ xs) h =
    if-All P (test x) _ _ (λ e. (h.0, retain-All P test xs h.1)) λ e. retain-All P test xs h.1

module _ (Q : Str → Type 0) (skip : Bytes → Option Bytes) (h : Host) (coalesced : Coalesced)
    (state : Map Str (Map Str Bytes)) (seq_index : Map Str SeqIndex) where
  pub fetch_key-KeysAll :
      (p : FetchParams) (k : Str) → Q k → KeysAll Q (fetch_key skip h coalesced state seq_index p k)
  unfolding fetch_key
  fetch_key-KeysAll p k g =
      if-All (λ q. Q q.0) (prefix_allows p.allowed_prefixes k) _ _
        (λ e. get-KeysAll Q state p.col_name (k ∷ []) (g, tt)) λ e. tt

  pub fetch_keys-KeysAll :
      (p : FetchParams) (ks : List Str)
      → All Q ks
      → KeysAll Q (fetch_keys skip h coalesced state seq_index p ks)
  unfolding fetch_keys
  fetch_keys-KeysAll p ks g =
      get-KeysAll Q state p.col_name (retain (prefix_allows p.allowed_prefixes) ks)
        (retain-All Q (prefix_allows p.allowed_prefixes) ks g)

  scan-KeysAll :
      (p : FetchParams) (predicate : Str → Bytes → Bool) (has_where : Bool)
      → ((k : Str) (bs : Bytes) → predicate k bs ≡ true → Q k)
      → KeysAll Q (scan skip h coalesced state seq_index p predicate has_where)
  unfolding scan
  scan-KeysAll p predicate has_where sound =
      get_filtered-KeysAll Q skip (scan_params p predicate has_where) sound state seq_index
        p.col_name

  module _ (p : FetchParams) (x : Value) (xs : Items) (e : p.allowed_prefixes ≡ some (cons x xs))
      (sound : (k : Str) → begins_with (strings (cons x xs)) k ≡ true → Q k) where
    prefix_sound : (k : Str) → begins_with (strings (get_or p.allowed_prefixes nil)) k ≡ true → Q k
    prefix_sound k g = sound k (rw e at g)

    chosen-KeysAll :
        (b : Bool)
        → KeysAll Q (
            scan_strategy skip h coalesced state seq_index p
              (if b then where_and_prefix else prefix_only))
    unfolding scan_strategy
    chosen-KeysAll true =
        scan-KeysAll p _ (is_some p.where_clause) λ k bs g. prefix_sound k (ground (arith, g))
    chosen-KeysAll false = scan-KeysAll p _ (is_some p.where_clause) λ k bs g. prefix_sound k g

    chosen :
        choose_scan_strategy p
        ≡ (if is_some p.where_clause && not p.has_joins then where_and_prefix else prefix_only)
    unfolding choose_scan_strategy
    chosen = rw (choose_scan_strategy, e) refl

    -- A scan under prefixes.
    pub scan_documents-KeysAll : KeysAll Q (scan_documents skip h coalesced state seq_index p)
    unfolding scan_documents
    scan_documents-KeysAll =
        rw (scan_documents, chosen) (chosen-KeysAll (is_some p.where_clause && not p.has_joins))
