-- ===== src/Query/Operator.antt =====
-- moltendb-core/src/common/where_operators.rs
use molten_db.Prelude.{
  Bool, false, ◌||◌, Option, none, some, List, [], ◌∷◌, Str, str_beq, codes, if◌then◌else◌,
}

pub data WhereOperator : Type 0 where
  eq not_eq gt gte lt lte isin notin contains or and : WhereOperator

unfoldable pub as_str : WhereOperator → Str
as_str eq = codes "$eq"
as_str not_eq = codes "$ne"
as_str gt = codes "$gt"
as_str gte = codes "$gte"
as_str lt = codes "$lt"
as_str lte = codes "$lte"
as_str isin = codes "$in"
as_str notin = codes "$nin"
as_str contains = codes "$ct"
as_str or = codes "$or"
as_str and = codes "$and"

unfoldable pub aliases : WhereOperator → List Str
aliases eq = codes "$eq" ∷ codes "$equals" ∷ []
aliases not_eq = codes "$ne" ∷ codes "$notEquals" ∷ []
aliases gt = codes "$gt" ∷ codes "$greaterThan" ∷ []
aliases gte = codes "$gte" ∷ codes "$greaterThanOrEqual" ∷ []
aliases lt = codes "$lt" ∷ codes "$lessThan" ∷ []
aliases lte = codes "$lte" ∷ codes "$lessThanOrEqual" ∷ []
aliases isin = codes "$in" ∷ codes "$oneOf" ∷ []
aliases notin = codes "$nin" ∷ codes "$notIn" ∷ []
aliases contains = codes "$ct" ∷ codes "$contains" ∷ []
aliases or = codes "$or" ∷ []
aliases and = codes "$and" ∷ []

unfoldable pub has_str : List Str → Str → Bool
has_str [] s = false
has_str (t ∷ ts) s = str_beq t s || has_str ts s

abbrev operators : List WhereOperator
operators = eq ∷ not_eq ∷ gt ∷ gte ∷ lt ∷ lte ∷ isin ∷ notin ∷ contains ∷ or ∷ and ∷ []

unfoldable pub find_operator : List WhereOperator → Str → Option WhereOperator
unfolding has_str aliases
find_operator [] s = none
find_operator (op ∷ ops) s =
    let rest = find_operator ops s in if has_str (aliases op) s then some op else rest

-- `WhereOperator::from_str`
unfoldable pub from_str : Str → Option WhereOperator
unfolding find_operator
from_str s = find_operator operators s
