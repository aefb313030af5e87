-- ===== src/Query/Predicate/Tests.antt =====
-- Each test of a filter against the bytes of a value is the test of the value.
use mathlib.Core.List.{append_assoc}
use molten_db.Prelude.{◌≡◌, refl, ap, sym, arith, ℕ, Bool, Option, none, some, ◌++◌, Bytes, Str}
use molten_db.Json.{Value, Items, null, bool, number, string, array, object, nil, cons}
use molten_db.Json.Object
use molten_db.Codec.Canon.{IsEncodable, AreEncodable}
use molten_db.Codec.Write.{write_value, write_items}
use molten_db.Query.Host.{Host}
use molten_db.Query.Operator.{
  WhereOperator, eq, not_eq, gt, gte, lt, lte, isin, notin, contains, or, and,
}
use molten_db.Query.Bytes.Headers.{read_msgpack_str-write_str}
use molten_db.Query.Predicate.{
  as_text, scan_items, test_eq, test_not_eq, test_number, test_contains, test_value,
}
use molten_db.Query.Predicate.Readers.{
  IsNoArray, read_msgpack_bool-write_value, read_msgpack_number-write_value,
  read_str_value-write_value, read_msgpack_array_len-write_array,
  read_msgpack_array_len-write_other,
}
use molten_db.Query.Predicate.Reference.{
  AreTexts, IsSearchable, any_contains, same, differs, ordered, holds_text, test_decoded,
}

module _ (h : Host) where
  module _ (skip : Bytes → Option Bytes) where
    scan_items-write_items :
        (needle : Str) (xs : Items) (rest : Bytes)
        → AreTexts xs
        → AreEncodable xs
        → scan_items skip h needle (Object.count xs) (write_items xs ++ rest)
          ≡ any_contains h needle xs
    unfolding scan_items any_contains write_value Object.count
    scan_items-write_items needle nil rest t e = refl
    scan_items-write_items needle (cons (string s) xs) rest t e =
        rw (append_assoc (write_value (string s)) (write_items xs) rest, scan_items)
          (rw (
            read_msgpack_str-write_str s (write_items xs ++ rest) e.0,
            scan_items-write_items needle xs rest t e.1,
          ))
    scan_items-write_items needle (cons null xs) rest t e = absurd t
    scan_items-write_items needle (cons (bool b) xs) rest t e = absurd t
    scan_items-write_items needle (cons (number n) xs) rest t e = absurd t
    scan_items-write_items needle (cons (array ys) xs) rest t e = absurd t
    scan_items-write_items needle (cons (object fs) xs) rest t e = absurd t

    module _ (needle : Str) (rest : Bytes) where
      contains_other :
          (v : Value)
          → IsEncodable v
          → as_text v ≡ none
          → IsNoArray v
          → test_contains skip h (write_value v ++ rest) (string needle) ≡ none
      unfolding test_contains
      contains_other v e t a =
          rw (read_str_value-write_value h v rest e, t)
            (rw (read_msgpack_array_len-write_other v rest a))

      contains_needle :
          (v : Value)
          → IsEncodable v
          → IsSearchable v
          → test_contains skip h (write_value v ++ rest) (string needle)
            ≡ holds_text h v (string needle)
      unfolding test_contains holds_text
      contains_needle (string s) e t = rw (read_str_value-write_value h (string s) rest e)
      contains_needle (array xs) e t = rw (read_str_value-write_value h (array xs) rest e) (
          rw (read_msgpack_array_len-write_array xs rest e.0)
            (ap (λ b. some b) (scan_items-write_items (h.lowercase needle) xs rest t e.1)))
      contains_needle null e t = contains_other null e refl tt
      contains_needle (bool b) e t = contains_other (bool b) e refl tt
      contains_needle (number n) e t = contains_other (number n) e refl tt
      contains_needle (object fs) e t = contains_other (object fs) e refl tt

    holds_text-other : (v arg : Value) → as_text arg ≡ none → holds_text h v arg ≡ none
    unfolding holds_text
    holds_text-other v (string t) h = absurd (cc h)
    holds_text-other (string s) null h = refl
    holds_text-other (array xs) null h = refl
    holds_text-other v arg h = ground arith

    module _ (v : Value) (rest : Bytes) (e : IsEncodable v) where
      test_eq-same : (arg : Value) → test_eq h (write_value v ++ rest) arg ≡ same h v arg
      unfolding test_eq same
      test_eq-same null = refl
      test_eq-same (string s) = rw (read_str_value-write_value h v rest e)
      test_eq-same (number n) = rw (read_msgpack_number-write_value h v rest e)
      test_eq-same (bool b) = rw (read_msgpack_bool-write_value v rest)
      test_eq-same (array xs) = refl
      test_eq-same (object fs) = refl

      test_not_eq-differs :
          (arg : Value) → test_not_eq h (write_value v ++ rest) arg ≡ differs h v arg
      unfolding test_not_eq differs
      test_not_eq-differs null = refl
      test_not_eq-differs (string s) = rw (read_str_value-write_value h v rest e)
      test_not_eq-differs (number n) = rw (read_msgpack_number-write_value h v rest e)
      test_not_eq-differs (bool b) = rw (read_msgpack_bool-write_value v rest)
      test_not_eq-differs (array xs) = refl
      test_not_eq-differs (object fs) = refl

      test_number-ordered :
          (test : ℕ → ℕ → Bool) (arg : Value)
          → test_number h test (write_value v ++ rest) arg ≡ ordered h test v arg
      unfolding test_number ordered
      test_number-ordered test arg = rw (read_msgpack_number-write_value h v rest e)

      test_contains-holds_text :
          (arg : Value)
          → IsSearchable v
          → test_contains skip h (write_value v ++ rest) arg ≡ holds_text h v arg
      unfolding test_contains holds_text
      test_contains-holds_text (string needle) t = contains_needle needle rest v e t
      test_contains-holds_text null t = sym (holds_text-other v null refl)
      test_contains-holds_text (bool b) t = sym (holds_text-other v (bool b) refl)
      test_contains-holds_text (number n) t = sym (holds_text-other v (number n) refl)
      test_contains-holds_text (array xs) t = sym (holds_text-other v (array xs) refl)
      test_contains-holds_text (object fs) t = sym (holds_text-other v (object fs) refl)

      pub test_value-test_decoded :
          (o : WhereOperator) (arg : Value)
          → IsSearchable v
          → test_value skip h o (write_value v ++ rest) arg ≡ test_decoded h o v arg
      unfolding test_value test_decoded
      test_value-test_decoded eq arg t = test_eq-same arg
      test_value-test_decoded not_eq arg t = test_not_eq-differs arg
      test_value-test_decoded isin arg t = rw (read_str_value-write_value h v rest e)
      test_value-test_decoded notin arg t = rw (read_str_value-write_value h v rest e)
      test_value-test_decoded gt arg t = test_number-ordered (λ a t. h.less t a) arg
      test_value-test_decoded gte arg t = test_number-ordered (λ a t. h.at_most t a) arg
      test_value-test_decoded lt arg t = test_number-ordered h.less arg
      test_value-test_decoded lte arg t = test_number-ordered h.at_most arg
      test_value-test_decoded contains arg t = test_contains-holds_text arg t
      test_value-test_decoded or arg t = refl
      test_value-test_decoded and arg t = refl
