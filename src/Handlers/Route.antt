-- ===== src/Handlers/Route.antt =====
-- `handle_get` of moltendb-server/src/route_handlers.rs, which decides what a token may ask for, and
-- the parameters that moltendb-core/src/handlers/process_get.rs reads off the request.
use molten_db.Prelude.{
  ℕ, Bool, true, false, ◌&&◌, Option, none, some, List, [], ◌∷◌, Str, codes, str_beq, str_eq, ltb,
  get_or, ◌>>=◌, if◌then◌else◌,
}
use molten_db.Json.{Value, Items, null, string, array, object, nil, cons, end}
use molten_db.Json.Object
use molten_db.Prelude.Map
use molten_db.Prelude.Map.{Map}
use molten_db.Engine.Api.{collection_is_expired}
use molten_db.Query.Nested.{remove_field}
use molten_db.Auth.{
  Claims, has_access, has_collection_access, allowed_keys, extract_prefixes, has_prefix_wildcard,
}
use molten_db.Handlers.Fetch.{FetchParams, strings, keys_field, allowed_prefixes_field}

-- The answer 403, a request that goes on to `process_get`, or a panic: a field of a value that is no
-- object is assigned.
pub data Decision : Type 0 where
  forbidden : Decision
  run : Value → Decision
  panicked : Decision

abbrev pub action_read : Str
action_read = codes "read"

abbrev pub collection_field : Str
collection_field = codes "collection"

abbrev pub text_at : Value → Str → Option Str
text_at v k = do x ← Object.lookup v k; Object.as_str x

-- `json!` of a list of strings
unfoldable pub json_strings : List Str → Items
json_strings [] = nil
json_strings (s ∷ ss) = cons (string s) (json_strings ss)

-- `v[k] = x`
unfoldable pub assign : Str → Value → Value → Decision
unfolding Object.insert
assign k x (object fs) = run (object (Object.insert k x fs))
assign k x null = run (object (Object.insert k x end))
assign k x _ = panicked

-- `as_object_mut().map(|o| o.remove(k))`
unfoldable pub strip : Str → Value → Value
unfolding remove_field
strip k (object fs) = object (remove_field k fs)
strip k v = v

unfoldable pub requested_keys : Value → List Str
unfolding strings
requested_keys (string s) = s ∷ []
requested_keys (array arr) = strings arr
requested_keys _ = []

unfoldable pub may_read_all : Claims → Str → List Str → Bool
unfolding has_access
may_read_all claims collection [] = true
may_read_all claims collection (k ∷ ks) =
    has_access claims action_read collection k && may_read_all claims collection ks

-- No keys were asked for.
unfoldable pub scope_request : Claims → Str → Value → Decision
unfolding has_prefix_wildcard extract_prefixes allowed_keys assign strip json_strings
scope_request claims collection payload =
    if has_prefix_wildcard claims action_read collection
    then (elim (extract_prefixes claims action_read collection) [
      | [] ↦ run (strip allowed_prefixes_field payload)
      | p ∷ ps ↦
          assign allowed_prefixes_field (array (json_strings (p ∷ ps)))
            (strip allowed_prefixes_field payload)
    ])
    else assign keys_field (array (json_strings (allowed_keys claims action_read collection)))
        payload

unfoldable pub check_request : Claims → Str → Value → Option Value → Decision
unfolding scope_request may_read_all requested_keys
check_request claims collection payload none = scope_request claims collection payload
check_request claims collection payload (some keys) =
    if may_read_all claims collection (requested_keys keys) then run payload else forbidden

unfoldable pub handle_get_in : Claims → Value → Str → Decision
unfolding has_collection_access allowed_keys check_request Object.lookup
handle_get_in claims payload collection =
    if has_collection_access claims action_read collection
    then run payload
    else (elim (allowed_keys claims action_read collection) [
      | [] ↦ forbidden
      | k ∷ ks ↦ check_request claims collection payload (Object.lookup payload keys_field)
    ])

unfoldable pub handle_get : Claims → Value → Decision
unfolding handle_get_in Object.lookup Object.as_str
handle_get claims payload =
    handle_get_in claims payload (get_or (text_at payload collection_field) [])

-- `as_array`
abbrev pub as_items : Value → Option Items
as_items (array xs) = some xs
as_items _ = none

abbrev items_at : Value → Str → Option Items
items_at v k = do x ← Object.lookup v k; as_items x

abbrev pub number_at : Value → Str → ℕ → ℕ
number_at v k d = get_or (do x ← Object.lookup v k; Object.as_u64 x) d

abbrev not_nil : Option Items → Bool
not_nil (some (cons x xs)) = true
not_nil _ = false

-- `parse_get_params` and `FetchParams`, of a request without a sort.
unfoldable pub fetch_params : Value → FetchParams
unfolding Object.lookup Object.as_str Object.as_u64
fetch_params payload = record {
  col_name = get_or (text_at payload collection_field) (codes "default");
  payload = payload;
  where_clause = Object.lookup payload (codes "where");
  has_joins = not_nil (items_at payload (codes "joins"));
  default_order_asc = str_beq (get_or (text_at payload (codes "order")) []) (codes "asc");
  offset = number_at payload (codes "offset") 0;
  count_limit = number_at payload (codes "count") 100;
  allowed_prefixes = items_at payload allowed_prefixes_field;
}

pub data GetError : Type 0 where
  count_exceeded collection_expired : GetError

pub data Parsed : Type 0 where
  parsed : FetchParams → Parsed
  refused : GetError → Parsed

-- `parse_get_params`, with the parts of its result that `fetch_documents` takes.
unfoldable pub parse_get_params : Map Str ℕ → ℕ → Value → Parsed
unfolding fetch_params collection_is_expired
parse_get_params ttl_expiry query_time payload =
    let p : FetchParams = fetch_params payload in
    let on_time : Parsed = elim (Map.get ttl_expiry p.col_name) [
      | none ↦ parsed p
      | some exp ↦
          if collection_is_expired exp query_time then refused collection_expired else parsed p
    ] in
    if ltb 1000 p.count_limit then refused count_exceeded else on_time
