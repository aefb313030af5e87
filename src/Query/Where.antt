-- ===== src/Query/Where.antt =====
-- `evaluate_where` of query.rs: a filter against a decoded document.
use molten_db.Prelude.{
  Bool, true, false, not, ◌||◌, ◌&&◌, ◌++◌, Option, none, some, [], ◌∷◌, Str, str_beq, nat_beq,
  codes, get_or, if◌then◌else◌, ℕ,
}
use molten_db.Json.{Value, Items, Fields, null, object, string, array, end, field, nil, cons}
use molten_db.Engine.Types.{DbError, invalid_query, Result, ok, err}
use molten_db.Query.Host.{Host, as_f64, value_beq, matches}
use molten_db.Query.Operator
use molten_db.Query.Operator.{
  WhereOperator, eq, not_eq, gt, gte, lt, lte, isin, notin, contains, or, and,
}
use molten_db.Query.Nested.{split_path, get_nested_value}

-- `if !first? { return Ok(false) }; second`
unfoldable pub both : Result Bool → Result Bool → Result Bool
both (ok true) second = second
both (ok false) second = ok false
both (err e) second = err e

-- `if first? { break with true }; second`
unfoldable pub either : Result Bool → Result Bool → Result Bool
either (ok true) second = ok true
either (ok false) second = second
either (err e) second = err e

unfoldable pub starts_with : Str → Str → Bool
starts_with s [] = true
starts_with [] (c ∷ p) = false
starts_with (b ∷ s) (c ∷ p) = nat_beq b c && starts_with s p

-- `str::contains`
unfoldable pub contains_str : Str → Str → Bool
unfolding starts_with
contains_str [] needle = starts_with [] needle
contains_str (b ∷ s) needle = starts_with (b ∷ s) needle || contains_str s needle

module _ (h : Host) where
  -- `any` over the items of a list
  unfoldable pub any_matches : Value → Items → Bool
  unfolding matches
  any_matches v nil = false
  any_matches v (cons x xs) = matches h v x || any_matches v xs

  -- `Vec::contains`
  unfoldable pub has_item : Items → Value → Bool
  unfolding value_beq
  has_item nil v = false
  has_item (cons x xs) v = value_beq h x v || has_item xs v

  -- A comparison of numbers, which nothing else passes.
  unfoldable pub compare_numbers : (ℕ → ℕ → Bool) → Value → Value → Bool
  unfolding as_f64
  compare_numbers test a b = elim (as_f64 h a) [
    | none ↦ false
    | some x ↦ elim (as_f64 h b) [ none ↦ false | some y ↦ test x y ]
  ]

  unfoldable pub contains_value : Value → Value → Bool
  unfolding contains_str has_item
  contains_value (string s) (string needle) = contains_str (h.lowercase s) (h.lowercase needle)
  contains_value (string s) _ = false
  contains_value (array xs) v = has_item xs v
  contains_value _ v = false

  abbrev pub expects_array : Str → DbError
  expects_array op = invalid_query (op ++ codes " expects an array")

  abbrev pub unknown_operator : Str → DbError
  unknown_operator op = invalid_query (codes "Unknown operator: " ++ op)

  unfoldable pub in_list : Str → Value → Value → Result Bool
  unfolding any_matches
  in_list op v (array xs) = ok (any_matches v xs)
  in_list op v _ = err (expects_array op)

  abbrev pub negated : Result Bool → Result Bool
  negated (ok b) = ok (not b)
  negated (err e) = err e

  -- One operator of a condition, for the value of the field, or null where there is none.
  unfoldable pub test_operator : Str → Option WhereOperator → Value → Value → Result Bool
  unfolding in_list matches compare_numbers contains_value
  test_operator op (some eq) v arg = ok (matches h v arg)
  test_operator op (some not_eq) v arg = ok (not (matches h v arg))
  test_operator op (some gt) v arg = ok (compare_numbers (λ a b. h.less b a) v arg)
  test_operator op (some gte) v arg = ok (compare_numbers (λ a b. h.at_most b a) v arg)
  test_operator op (some lt) v arg = ok (compare_numbers h.less v arg)
  test_operator op (some lte) v arg = ok (compare_numbers h.at_most v arg)
  test_operator op (some contains) v arg = ok (contains_value v arg)
  test_operator op (some isin) v arg = in_list op v arg
  test_operator op (some notin) v arg = negated (in_list op v arg)
  test_operator op (some or) v arg = err (unknown_operator op)
  test_operator op (some and) v arg = err (unknown_operator op)
  test_operator op none v arg = err (unknown_operator op)

  -- The operators of one field, in the order of the query.
  unfoldable pub test_operators : Value → Fields → Result Bool
  unfolding both test_operator Operator.from_str
  test_operators v end = ok true
  test_operators v (field op arg ops) =
      both (test_operator op (Operator.from_str op) v arg) (test_operators v ops)

  -- What is no object is compared for equality, and then the field must be there.
  unfoldable pub test_condition : Option Value → Value → Result Bool
  unfolding test_operators matches
  test_condition o (object ops) = test_operators (get_or o null) ops
  test_condition none condition = ok false
  test_condition (some v) condition = ok (matches h v condition)

  module _ (doc : Value) where
    unfoldable mutual
      unfolding both either test_condition split_path get_nested_value Operator.as_str

      -- A list of queries is their conjunction; what is neither list nor object passes.
      pub evaluate_where : Value → Result Bool
      evaluate_where (array queries) = all_queries queries
      evaluate_where (object query) = all_fields query
      evaluate_where _ = ok true

      pub all_queries : Items → Result Bool
      all_queries nil = ok true
      all_queries (cons q qs) = both (evaluate_where q) (all_queries qs)

      pub any_query : Items → Result Bool
      any_query nil = ok false
      any_query (cons q qs) = either (evaluate_where q) (any_query qs)

      pub all_fields : Fields → Result Bool
      all_fields end = ok true
      all_fields (field key condition fs) =
          let rest = all_fields fs in
          let any = disjunction condition in
          let all = conjunction condition in
          if str_beq key (Operator.as_str or)
          then both any rest
          else if str_beq key (Operator.as_str and)
          then both all rest
          else both (test_condition (get_nested_value doc (split_path key)) condition) rest

      pub disjunction : Value → Result Bool
      disjunction (array queries) = any_query queries
      disjunction _ = err (expects_array (Operator.as_str or))

      pub conjunction : Value → Result Bool
      conjunction (array queries) = all_queries queries
      conjunction _ = err (expects_array (Operator.as_str and))
