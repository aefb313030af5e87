-- ===== src/Tests/Query.antt =====
-- Queries against a small document.
use mathlib.Core.Path.{subst}
use molten_db.Prelude.{
  ◌∙◌, true, ◌≡◌, refl, false, not, none, some, [], ◌∷◌, ◌++◌, codes, arith, All, nat_beq, ltb, leb,
  str_beq,
}
use molten_db.Json.{Value, Items, pos_int, number, string, object, nil, cons, end, field}
use molten_db.Json.Object
use molten_db.Codec.Canon.{IsText, IsEncodable}
use molten_db.Codec.Utf8.{is_utf8}
use molten_db.Codec.Token.{system_token}
use molten_db.Codec.Write.{write_value, write_map_key, value_to_msgpack}
use molten_db.Query.Host.{Host}
use molten_db.Query.Operator
use molten_db.Query.Nested.{split_path, get_nested_value, exclude_from, exclude}
use molten_db.Query.Nested.Laws.{AllGone, exclude_from-AllGone}
use molten_db.Query.Bytes.{find_msgpack_value}
use molten_db.Query.Bytes.Points.{Points}
use molten_db.Query.Bytes.Laws.{IsSegment, find_msgpack_value-get_nested_value}
use molten_db.Query.Predicate.{evaluate_predicate_msgpack}
use molten_db.Query.Predicate.Reference.{IsSearchable, test_decoded, holds_text}
use molten_db.Query.Predicate.Agreement.{evaluate_predicate_msgpack-evaluate_where}
use molten_db.Query.Where.{evaluate_where, contains_str, starts_with}
use molten_db.Query.Operator.{contains, or, and}
use molten_db.Engine.Types.{ok}
use molten_db.Query.Predicate.Decoded.{evaluate_predicate_msgpack-test_decoded}
use molten_db.Tests.Codec.{skip_one, skip_one-Skips}

-- Doubles that hold small numbers only.
abbrev pub host : Host
host = record {
  lowercase = λ s. s;
  of_u64 = λ n. n;
  of_negative = λ n. 0;
  to_u64 = λ n. n;
  less = ltb;
  at_most = leb;
  equal = nat_beq;
  near = nat_beq;
  apart = λ a b. not (nat_beq a b);
}

-- {"a": {"n": 5, "t": "xyz"}}
abbrev doc : Value
doc = object (
    field (codes "a")
      (object
        (field (codes "n") (number (pos_int 5)) (field (codes "t") (string (codes "xyz")) end)))
      end)

a_IsText : IsText (codes "a")
unfolding is_utf8
a_IsText = record { short = omega arith; utf8 = refl }

n_IsText : IsText (codes "n")
unfolding is_utf8
n_IsText = record { short = omega arith; utf8 = refl }

t_IsText : IsText (codes "t")
unfolding is_utf8
t_IsText = record { short = omega arith; utf8 = refl }

xyz_IsText : IsText (codes "xyz")
unfolding is_utf8
xyz_IsText = record { short = omega arith; utf8 = refl }

doc-IsEncodable : IsEncodable doc
unfolding Object.len
doc-IsEncodable = (
  omega arith,
  (a_IsText, (omega arith, (n_IsText, omega arith, (t_IsText, xyz_IsText, tt))), tt),
)

a_IsSegment : IsSegment (codes "a")
unfolding write_map_key str_beq
a_IsSegment = record { text = a_IsText; plain = refl }

t_IsSegment : IsSegment (codes "t")
unfolding write_map_key str_beq
t_IsSegment = record { text = t_IsText; plain = refl }

find_msgpack_value-get_nested_value_example :
    Points
      (find_msgpack_value skip_one (codes "a" ∷ codes "t" ∷ []) (write_value doc ++ []))
      (get_nested_value doc (codes "a" ∷ codes "t" ∷ []))
find_msgpack_value-get_nested_value_example =
    find_msgpack_value-get_nested_value skip_one skip_one-Skips (codes "a") (codes "t" ∷ [])
      a_IsSegment (t_IsSegment, tt) doc [] doc-IsEncodable

path : split_path (codes "a.t") ≡ codes "a" ∷ codes "t" ∷ []
unfolding split_path
path = refl

path_IsSegment : All IsSegment (split_path (codes "a.t"))
path_IsSegment = rw path (a_IsSegment, (t_IsSegment, tt))

plain_path : system_token (codes "a.t") ≡ none
unfolding system_token str_beq
plain_path = refl

found_IsSearchable :
    (x : Value) → get_nested_value doc (split_path (codes "a.t")) ≡ some x → IsSearchable x
unfolding get_nested_value split_path Object.lookup str_beq
found_IsSearchable x found =
    let own : string (codes "xyz") ≡ x = ground (arith, found) in subst IsSearchable own tt

no_keywords :
    (str_beq (codes "a.t") (Operator.as_str or) ≡ false)
    × (str_beq (codes "a.t") (Operator.as_str and) ≡ false)
    × (Operator.from_str (codes "$ct") ≡ some contains)
unfolding Operator.as_str Operator.from_str Operator.find_operator Operator.has_str Operator.aliases
    str_beq
no_keywords = (refl, refl, refl)

found_there : get_nested_value doc (split_path (codes "a.t")) ≡ some (string (codes "xyz"))
unfolding get_nested_value split_path Object.lookup str_beq
found_there = refl

decided :
    evaluate_predicate_msgpack skip_one host
      (value_to_msgpack doc)
      (codes "a.t")
      (codes "$ct")
      (string (codes "yz"))
    ≡ some true
unfolding test_decoded holds_text contains_str starts_with
decided =
    evaluate_predicate_msgpack-test_decoded host skip_one skip_one-Skips doc (codes "a.t")
      (codes "$ct") (string (codes "yz")) doc-IsEncodable plain_path path_IsSegment
      found_IsSearchable
    ∙ rw (found_there, no_keywords.2) refl

evaluate_predicate_msgpack-evaluate_where_example :
    evaluate_where host doc
      (object (field (codes "a.t") (object (field (codes "$ct") (string (codes "yz")) end)) end))
    ≡ ok true
evaluate_predicate_msgpack-evaluate_where_example =
    evaluate_predicate_msgpack-evaluate_where host skip_one skip_one-Skips doc
      (string (codes "xyz")) (codes "a.t") (codes "$ct") contains (string (codes "yz")) true
      doc-IsEncodable plain_path path_IsSegment no_keywords.0 no_keywords.1 found_there tt
      no_keywords.2 tt decided

abbrev names : Items
names = cons (string (codes "a.t")) (cons (string (codes "a.n")) nil)

abbrev fields : Object.Fields
fields =
    field (codes "a")
      (object
        (field (codes "n") (number (pos_int 5)) (field (codes "t") (string (codes "xyz")) end)))
      end

nothing_left : exclude doc names ≡ object end
unfolding exclude split_path Object.get str_beq Object.insert
nothing_left = refl

exclude_from-AllGone_example : AllGone names (exclude_from names fields)
exclude_from-AllGone_example = exclude_from-AllGone names fields
