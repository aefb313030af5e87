-- ===== src/Query/Predicate/Reference.antt =====
-- What filters say of decoded values, as a reference for those that read bytes.
use molten_db.Prelude.{ℕ, Bool, false, not, ◌||◌, Option, none, some, Str, ◌>>=◌, str_beq}
use molten_db.Json.{Value, Items, bool, number, string, array, nil, cons}
use molten_db.Query.Host.{Host, to_f64, as_f64}
use molten_db.Query.Operator.{
  WhereOperator, eq, not_eq, gt, gte, lt, lte, isin, notin, contains, or, and,
}
use molten_db.Query.Where.{contains_str}
use molten_db.Query.Predicate.{as_text, as_items, same_bool, any_text}
use molten_db.Query.Predicate.Readers.{as_bool}

-- A list of strings only.
abbrev pub AreTexts : Items → Type 0
AreTexts nil = Unit
AreTexts (cons (string s) xs) = AreTexts xs
AreTexts (cons _ xs) = ⊥

-- Whatever it is, if it is a list then one of strings.
abbrev pub IsSearchable : Value → Type 0
IsSearchable (array xs) = AreTexts xs
IsSearchable _ = Unit

module _ (h : Host) where
  -- Whether a string in the list holds the needle.
  unfoldable pub any_contains : Str → Items → Bool
  unfolding contains_str
  any_contains needle nil = false
  any_contains needle (cons (string s) xs) =
      contains_str (h.lowercase s) needle || any_contains needle xs
  any_contains needle (cons _ xs) = any_contains needle xs

  abbrev pub lower_text : Value → Option Str
  lower_text v = do s ← as_text v; some (h.lowercase s)

  -- The comparison of a value with an argument of its kind; `none` if the kinds differ.
  unfoldable pub same : Value → Value → Option Bool
  unfolding to_f64 as_f64
  same v (string s) = do a ← lower_text v; some (str_beq a (h.lowercase s))
  same v (number n) = do a ← as_f64 h v; some (h.near a (to_f64 h n))
  same v (bool b) = do a ← as_bool v; some (same_bool a b)
  same v _ = none

  unfoldable pub differs : Value → Value → Option Bool
  unfolding to_f64 as_f64
  differs v (string s) = do a ← lower_text v; some (not (str_beq a (h.lowercase s)))
  differs v (number n) = do a ← as_f64 h v; some (h.apart a (to_f64 h n))
  differs v (bool b) = do a ← as_bool v; some (not (same_bool a b))
  differs v _ = none

  unfoldable pub ordered : (ℕ → ℕ → Bool) → Value → Value → Option Bool
  unfolding as_f64
  ordered test v arg = do
    threshold ← as_f64 h arg
    actual ← as_f64 h v
    some (test actual threshold)

  unfoldable pub holds_text : Value → Value → Option Bool
  unfolding contains_str any_contains
  holds_text (string s) (string needle) = some (contains_str (h.lowercase s) (h.lowercase needle))
  holds_text (array xs) (string needle) = some (any_contains (h.lowercase needle) xs)
  holds_text _ _ = none

  -- What an operator says of a decoded value.
  unfoldable pub test_decoded : WhereOperator → Value → Value → Option Bool
  unfolding same differs ordered holds_text any_text
  test_decoded eq v arg = same v arg
  test_decoded not_eq v arg = differs v arg
  test_decoded isin v arg = do xs ← as_items arg; some (any_text h (lower_text v) xs)
  test_decoded notin v arg = do xs ← as_items arg; some (not (any_text h (lower_text v) xs))
  test_decoded gt v arg = ordered (λ a t. h.less t a) v arg
  test_decoded gte v arg = ordered (λ a t. h.at_most t a) v arg
  test_decoded lt v arg = ordered h.less v arg
  test_decoded lte v arg = ordered h.at_most v arg
  test_decoded contains v arg = holds_text v arg
  test_decoded or v arg = none
  test_decoded and v arg = none
