-- ===== src/Query/Predicate.antt =====
-- `evaluate_predicate_msgpack` and `evaluate_where_msgpack` of query.rs: filters against the bytes of
-- a document.
pub mod Readers
pub mod Reference
pub mod Tests
pub mod Decoded
pub mod Agreement
pub mod Mixed
use molten_db.Prelude.{
  ℕ, zero, suc, Bool, true, false, not, ◌&&◌, ◌||◌, Option, none, some, [], ◌∷◌, Bytes, Str,
  str_beq, nat_beq, ltb, leb, get_or, ◌>>=◌, if◌then◌else◌,
}
use molten_db.Json.{
  Value, Items, Fields, object, array, string, number, bool, end, field, nil, cons,
}
use molten_db.Codec.BigEndian.{read_be}
use molten_db.Codec.Marker.{Marker, marker, str}
use molten_db.Codec.Token.{read_msgpack_system_field_u64}
use molten_db.Query.Host.{Host, to_f64, as_f64}
use molten_db.Query.Operator
use molten_db.Query.Operator.{
  WhereOperator, eq, not_eq, gt, gte, lt, lte, isin, notin, contains, or, and,
}
use molten_db.Query.Nested.{split_path}
use molten_db.Query.Where.{contains_str}
use molten_db.Query.Bytes.{
  skip_value, read_msgpack_str, read_msgpack_array_len, read_msgpack_number, read_msgpack_bool,
  read_str_value, find_msgpack_value,
}

-- A system field against the number that the argument truncates to.
unfoldable pub test_system : WhereOperator → ℕ → ℕ → Option Bool
test_system gt v t = some (ltb t v)
test_system gte v t = some (leb t v)
test_system lt v t = some (ltb v t)
test_system lte v t = some (leb v t)
test_system eq v t = some (nat_beq v t)
test_system not_eq v t = some (not (nat_beq v t))
test_system _ v t = none

abbrev as_items : Value → Option Items
as_items (array xs) = some xs
as_items _ = none

abbrev as_text : Value → Option Str
as_text (string s) = some s
as_text _ = none

abbrev same_bool : Bool → Bool → Bool
same_bool true b = b
same_bool false b = not b

-- What `read_msgpack_str` leaves of the buffer where it finds no string: the marker is consumed, and
-- the length if it was read.
unfoldable pub after_no_str : Bytes → Bytes
after_no_str [] = []
after_no_str (b ∷ bs) = elim (marker b) [
  | str w ↦ elim (read_be w bs) [ none ↦ bs | some (n, rest) ↦ rest ]
  | _ ↦ bs
]

module _ (h : Host) where
  -- One of the strings in a list of arguments.
  unfoldable pub any_text : Option Str → Items → Bool
  any_text o nil = false
  any_text none (cons x xs) = false
  any_text (some a) (cons (string b) xs) = str_beq a (h.lowercase b) || any_text (some a) xs
  any_text (some a) (cons _ xs) = any_text (some a) xs

  unfoldable pub test_eq : Bytes → Value → Option Bool
  unfolding read_str_value read_msgpack_number read_msgpack_bool to_f64
  test_eq bs (string s) = do a ← read_str_value h bs; some (str_beq a (h.lowercase s))
  test_eq bs (number n) = do a ← read_msgpack_number h bs; some (h.near a (to_f64 h n))
  test_eq bs (bool b) = do a ← read_msgpack_bool bs; some (same_bool a b)
  test_eq bs _ = none

  unfoldable pub test_not_eq : Bytes → Value → Option Bool
  unfolding read_str_value read_msgpack_number read_msgpack_bool to_f64
  test_not_eq bs (string s) = do a ← read_str_value h bs; some (not (str_beq a (h.lowercase s)))
  test_not_eq bs (number n) = do a ← read_msgpack_number h bs; some (h.apart a (to_f64 h n))
  test_not_eq bs (bool b) = do a ← read_msgpack_bool bs; some (not (same_bool a b))
  test_not_eq bs _ = none

  unfoldable pub test_number : (ℕ → ℕ → Bool) → Bytes → Value → Option Bool
  unfolding as_f64 read_msgpack_number
  test_number test bs arg = do
    threshold ← as_f64 h arg
    actual ← read_msgpack_number h bs
    some (test actual threshold)

module _ (skip : Bytes → Option Bytes) (h : Host) where
  -- Whether one of the strings in a list holds the needle. After an element that is no string, the
  -- value that follows the consumed bytes is skipped.
  unfoldable pub scan_items : Str → ℕ → Bytes → Bool
  unfolding read_msgpack_str after_no_str contains_str
  scan_items needle zero bs = false
  scan_items needle (suc n) bs = elim (read_msgpack_str bs) [
    | none ↦ scan_items needle n (skip_value skip (after_no_str bs))
    | some (s, rest) ↦ contains_str (h.lowercase s) needle || scan_items needle n rest
  ]

  unfoldable pub test_contains : Bytes → Value → Option Bool
  unfolding read_str_value contains_str read_msgpack_array_len scan_items
  test_contains bs arg = do
    s ← as_text arg
    let needle = h.lowercase s
    elim (read_str_value h bs) [
      | some haystack ↦ some (contains_str haystack needle)
      | none ↦ do (n, rest) ← read_msgpack_array_len bs; some (scan_items needle n rest)
    ]

  unfoldable pub test_value : WhereOperator → Bytes → Value → Option Bool
  unfolding test_eq test_not_eq test_number test_contains any_text read_str_value
  test_value eq bs arg = test_eq h bs arg
  test_value not_eq bs arg = test_not_eq h bs arg
  test_value isin bs arg = do xs ← as_items arg; some (any_text h (read_str_value h bs) xs)
  test_value notin bs arg = do xs ← as_items arg; some (not (any_text h (read_str_value h bs) xs))
  test_value gt bs arg = test_number h (λ a t. h.less t a) bs arg
  test_value gte bs arg = test_number h (λ a t. h.at_most t a) bs arg
  test_value lt bs arg = test_number h h.less bs arg
  test_value lte bs arg = test_number h h.at_most bs arg
  test_value contains bs arg = test_contains bs arg
  test_value or bs arg = none
  test_value and bs arg = none

  unfoldable pub evaluate_predicate_msgpack : Bytes → Str → Str → Value → Option Bool
  unfolding read_msgpack_system_field_u64 as_f64 Operator.from_str test_system find_msgpack_value
      split_path test_value
  evaluate_predicate_msgpack bs path op arg = elim (read_msgpack_system_field_u64 skip bs path) [
    | some v ↦ do
      threshold ← as_f64 h arg
      o ← Operator.from_str op
      test_system o v (h.to_u64 threshold)
    | none ↦ do
      value ← find_msgpack_value skip (split_path path) bs
      o ← Operator.from_str op
      test_value o value arg
  ]

  module _ (bs : Bytes) where
    -- `.unwrap_or(false)`
    unfoldable pub passes : Str → Str → Value → Bool
    unfolding evaluate_predicate_msgpack
    passes path op arg = get_or (evaluate_predicate_msgpack bs path op arg) false

    unfoldable pub passes_all : Str → Fields → Bool
    unfolding passes
    passes_all path end = true
    passes_all path (field op arg ops) = passes path op arg && passes_all path ops

    unfoldable pub passes_condition : Str → Value → Bool
    unfolding passes passes_all Operator.as_str
    passes_condition path (object ops) = passes_all path ops
    passes_condition path condition = passes path (Operator.as_str eq) condition

    unfoldable mutual
      unfolding passes_condition Operator.as_str

      pub evaluate_where_msgpack : Value → Option Bool
      evaluate_where_msgpack (array queries) = some (all_pass queries)
      evaluate_where_msgpack (object query) = all_fields_pass query
      evaluate_where_msgpack _ = none

      pub all_pass : Items → Bool
      all_pass nil = true
      all_pass (cons q qs) = get_or (evaluate_where_msgpack q) false && all_pass qs

      pub any_passes : Items → Bool
      any_passes nil = false
      any_passes (cons q qs) = get_or (evaluate_where_msgpack q) false || any_passes qs

      pub all_fields_pass : Fields → Option Bool
      all_fields_pass end = some true
      all_fields_pass (field key condition fs) =
          let rest = all_fields_pass fs in
          let any = disjunction_passes condition in
          let all = conjunction_passes condition in
          if str_beq key (Operator.as_str or)
          then (do b ← any; if b then rest else some false)
          else if str_beq key (Operator.as_str and)
          then (do b ← all; if b then rest else some false)
          else if passes_condition key condition
          then rest
          else some false

      -- `None` where the condition is no list
      pub disjunction_passes : Value → Option Bool
      disjunction_passes (array queries) = some (any_passes queries)
      disjunction_passes _ = none

      pub conjunction_passes : Value → Option Bool
      conjunction_passes (array queries) = some (all_pass queries)
      conjunction_passes _ = none
