-- ===== src/Query/Predicate/Decoded.antt =====
-- Filters against the bytes of a document decide what they say of the document.
use mathlib.Core.List.{append-nil}
use mathlib.Core.Path.{subst, fun_ext}
use molten_db.Prelude.{
  ◌≡◌, refl, ap, sym, ◌∙◌, arith, Bool, Option, none, some, List, [], ◌∷◌, Bytes, Str, ◌>>=◌, All,
  Option-cases, inl, inr,
}
use molten_db.Json.{Value, null, bool, number, string, array, object}
use molten_db.Json.Object
use molten_db.Codec.Canon.{IsEncodable}
use molten_db.Codec.Token.{system_token, read_msgpack_system_field_u64}
use molten_db.Codec.Token.Laws.{Skips}
use molten_db.Codec.Write.{write_value, value_to_msgpack}
use molten_db.Query.Host.{Host}
use molten_db.Query.Operator
use molten_db.Query.Operator.{
  WhereOperator, eq, not_eq, gt, gte, lt, lte, isin, notin, contains, or, and,
}
use molten_db.Query.Bytes.{find_msgpack_value}
use molten_db.Query.Bytes.Points.{Points}
use molten_db.Query.Bytes.Laws.{IsSegment, find_msgpack_value-get_nested_value, get-IsEncodable}
use molten_db.Query.Nested.Paths.{split_path-cons}
use molten_db.Query.Nested.{split_path, get_nested_value}
use molten_db.Query.Predicate.{test_value, evaluate_predicate_msgpack}
use molten_db.Query.Predicate.Reference.{IsSearchable, test_decoded}
use molten_db.Query.Predicate.Tests.{test_value-test_decoded}

get_nested_value-IsEncodable :
    (path : List Str) (v x : Value)
    → IsEncodable v
    → get_nested_value v path ≡ some x
    → IsEncodable x
unfolding get_nested_value Object.lookup
get_nested_value-IsEncodable [] v x e h =
    let same : v ≡ x = ground (arith, h) in subst IsEncodable same e
get_nested_value-IsEncodable (part ∷ path) (object fs) x e h =
    elim (Option-cases (Object.get fs part)) [
      | inl gone ↦ absurd (let no : none ≡ some x = rw gone at h in cc no)
      | inr (w, here) ↦
          get_nested_value-IsEncodable path w x (get-IsEncodable fs part w e.1 here) (rw here at h)
    ]
get_nested_value-IsEncodable (part ∷ path) null x e h = absurd (cc h)
get_nested_value-IsEncodable (part ∷ path) (bool b) x e h = absurd (cc h)
get_nested_value-IsEncodable (part ∷ path) (number n) x e h = absurd (cc h)
get_nested_value-IsEncodable (part ∷ path) (string s) x e h = absurd (cc h)
get_nested_value-IsEncodable (part ∷ path) (array xs) x e h = absurd (cc h)

module _ (h : Host) (skip : Bytes → Option Bytes) (op : Str) (arg : Value) where
  abbrev on_bytes : Bytes → Option Bool
  on_bytes bs = Operator.from_str op >>= λ o. test_value skip h o bs arg

  abbrev on_value : Value → Option Bool
  on_value x = Operator.from_str op >>= λ o. test_decoded h o x arg

  no_system_field :
      (bs : Bytes) (path : Str)
      → system_token path ≡ none
      → evaluate_predicate_msgpack skip h bs path op arg
        ≡ (find_msgpack_value skip (split_path path) bs >>= on_bytes)
  unfolding evaluate_predicate_msgpack read_msgpack_system_field_u64
  no_system_field bs path plain = rw (plain, evaluate_predicate_msgpack) refl

  on_bytes-on_value :
      (o : Option Bytes) (p : Option Value)
      → Points o p
      → ((x : Value) → p ≡ some x → IsEncodable x × IsSearchable x)
      → (o >>= on_bytes) ≡ (p >>= on_value)
  on_bytes-on_value none none h k = refl
  on_bytes-on_value none (some v) h k = absurd h
  on_bytes-on_value (some bs) none h k = absurd h
  on_bytes-on_value (some bs) (some v) (rest, e) k =
      let (enc, search) = k v refl in
      rw e (
        ap (λ f. Operator.from_str op >>= f)
          (fun_ext (λ o. test_value-test_decoded h skip v rest enc o arg search)))

module _ (skip : Bytes → Option Bytes) (skips : Skips skip) where
  find-split_path :
      (v : Value) (path : Str)
      → IsEncodable v
      → All IsSegment (split_path path)
      → Points
          (find_msgpack_value skip (split_path path) (value_to_msgpack v))
          (get_nested_value v (split_path path))
  unfolding value_to_msgpack
  find-split_path v path e ss =
      let (part, parts, split) = split_path-cons path in
      let own : All IsSegment (part ∷ parts) = rw split at ss in
      rw (split, sym (append-nil (write_value v)))
        (find_msgpack_value-get_nested_value skip skips part parts own.0 own.1 v [] e)

module _ (h : Host) (skip : Bytes → Option Bytes) (skips : Skips skip) where
  -- A filter on a path of names that are not those of system fields decides against the bytes of a
  -- value that MsgPack can hold what the operator says of the value that the path leads to, and nothing
  -- if the path leads to none or the operator is unknown, where that value, if it is a list, holds
  -- strings only, and where the skipper passes over exactly one encoded value.
  pub evaluate_predicate_msgpack-test_decoded :
      (v : Value) (path op : Str) (arg : Value)
      → IsEncodable v
      → system_token path ≡ none
      → All IsSegment (split_path path)
      → ((x : Value) → get_nested_value v (split_path path) ≡ some x → IsSearchable x)
      → evaluate_predicate_msgpack skip h (value_to_msgpack v) path op arg ≡ (
          get_nested_value v (split_path path) >>= λ x.
          Operator.from_str op >>= λ o. test_decoded h o x arg)
  evaluate_predicate_msgpack-test_decoded v path op arg e plain ss t =
      no_system_field h skip op arg (value_to_msgpack v) path plain
      ∙ on_bytes-on_value h skip op arg
          (find_msgpack_value skip (split_path path) (value_to_msgpack v))
          (get_nested_value v (split_path path)) (find-split_path skip skips v path e ss)
          (λ x found. (get_nested_value-IsEncodable (split_path path) v x e found, t x found))
