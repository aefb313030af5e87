-- ===== src/Handlers/Filter.antt =====
-- The filter of a request as a predicate on bytes: moltendb-core/src/handlers/get/fetch.rs.
use molten_db.Prelude.{
  Bool, true, false, ◌&&◌, Option, none, some, List, [], ◌∷◌, ◌++◌, Bytes, Str, codes, get_or,
  ◌>>=◌, if◌then◌else◌,
}
use molten_db.Json.{
  Value, Items, Fields, bool, number, string, array, object, nil, cons, end, field,
}
use molten_db.Query.Host.{Host}
use molten_db.Query.Where.{starts_with}
use molten_db.Query.Operator
use molten_db.Query.Operator.{
  WhereOperator, eq, not_eq, gt, gte, lt, lte, isin, notin, contains, or, and,
}
use molten_db.Query.Predicate.{passes, evaluate_where_msgpack}

-- A path, an operator and an argument.
abbrev pub Test : Type 0
Test = Str × Str × Value

abbrev fast : WhereOperator → Bool
fast or = false
fast and = false
fast _ = true

unfoldable pub is_fast_path_op : Str → Bool
unfolding Operator.from_str
is_fast_path_op op = elim (Operator.from_str op) [ none ↦ false | some o ↦ fast o ]

unfoldable pub extract_ops : Str → Fields → Option (List Test)
unfolding is_fast_path_op
extract_ops path end = some []
extract_ops path (field op arg ops) =
    let rest = extract_ops path ops in
    if is_fast_path_op op then (do ts ← rest; some ((path, op, arg) ∷ ts)) else none

unfoldable pub extract_condition : Str → Value → Option (List Test)
unfolding extract_ops Operator.as_str
extract_condition path (string s) = some ((path, Operator.as_str eq, string s) ∷ [])
extract_condition path (number n) = some ((path, Operator.as_str eq, number n) ∷ [])
extract_condition path (bool b) = some ((path, Operator.as_str eq, bool b) ∷ [])
extract_condition path (object ops) = extract_ops path ops
extract_condition path _ = none

unfoldable pub extract_fields : Fields → Option (List Test)
unfolding extract_condition starts_with
extract_fields end = some []
extract_fields (field path condition fs) =
    let rest = extract_fields fs in
    if starts_with path (codes "$")
    then none
    else (do ts ← extract_condition path condition; more ← rest; some (ts ++ more))

-- Nothing, where a part of a list gives nothing.
abbrev join_tests : List Test → Option (List Test) → Option (List Test)
join_tests [] rest = none
join_tests (t ∷ ts) none = none
join_tests (t ∷ ts) (some more) = some (t ∷ ts ++ more)

unfoldable mutual
  unfolding extract_fields

  pub extract_fast_predicates : Value → List Test
  extract_fast_predicates (array items) = get_or (extract_items items) []
  extract_fast_predicates (object fs) = get_or (extract_fields fs) []
  extract_fast_predicates _ = []

  pub extract_items : Items → Option (List Test)
  extract_items nil = some []
  extract_items (cons x xs) = join_tests (extract_fast_predicates x) (extract_items xs)

module _ (skip : Bytes → Option Bytes) (h : Host) where
  unfoldable pub all_tests : Bytes → List Test → Bool
  unfolding passes
  all_tests bs [] = true
  all_tests bs (t ∷ ts) = passes skip h bs t.0 t.1 t.2 && all_tests bs ts

  -- The tests, or the whole clause where there are none.
  unfoldable pub passes_tests : Bytes → Value → List Test → Bool
  unfolding evaluate_where_msgpack all_tests
  passes_tests bs clause [] = get_or (evaluate_where_msgpack skip h bs clause) false
  passes_tests bs clause (t ∷ ts) = all_tests bs (t ∷ ts)

  unfoldable pub passes_clause : Value → Bytes → Bool
  unfolding passes_tests extract_fast_predicates
  passes_clause clause bs = passes_tests bs clause (extract_fast_predicates clause)
