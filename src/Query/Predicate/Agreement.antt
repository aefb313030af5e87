-- ===== src/Query/Predicate/Agreement.antt =====
-- Where a filter against the bytes of a document and the same filter against the decoded document agree.
use mathlib.Core.Path.{subst}
use molten_db.Prelude.{
  ◌≡◌, refl, ap, sym, ◌∙◌, Bool, true, false, not, ◌||◌, Option, none, some, Bytes, Str, str_beq,
  ◌>>=◌, All, Option-cases, inl, inr, get_or,
}
use molten_db.Json.{Value, Items, null, bool, number, string, array, object, nil, cons, field, end}
use molten_db.Codec.Canon.{IsEncodable}
use molten_db.Codec.Token.{system_token}
use molten_db.Codec.Token.Laws.{Skips}
use molten_db.Codec.Write.{value_to_msgpack}
use molten_db.Engine.Types.{ok}
use molten_db.Query.Host.{Host, matches, as_f64, value_beq}
use molten_db.Query.Operator
use molten_db.Query.Operator.{
  WhereOperator, eq, not_eq, gt, gte, lt, lte, isin, notin, contains, or, and,
}
use molten_db.Query.Bytes.Laws.{IsSegment}
use molten_db.Query.Nested.{split_path, get_nested_value}
use molten_db.Query.Predicate.{evaluate_predicate_msgpack, as_items, any_text}
use molten_db.Query.Predicate.Reference.{
  IsSearchable, test_decoded, same, differs, ordered, holds_text,
}
use molten_db.Query.Predicate.Decoded.{evaluate_predicate_msgpack-test_decoded}
use molten_db.Query.Where.{
  evaluate_where, test_operator, test_operators, test_condition, any_matches, compare_numbers,
  in_list, contains_value, negated, both,
}

abbrev IsString : Value → Type 0
IsString (string s) = Unit
IsString _ = ⊥

abbrev IsNoNumber : Value → Type 0
IsNoNumber (number n) = ⊥
IsNoNumber _ = Unit

-- What an operator compares alike in both: (in)equality with anything but a number, the order of
-- numbers, and membership and containment of strings.
abbrev pub IsComparable : WhereOperator → Value → Value → Type 0
IsComparable eq v arg = IsNoNumber arg
IsComparable not_eq v arg = IsNoNumber arg
IsComparable isin v arg = IsString v
IsComparable notin v arg = IsString v
IsComparable contains v arg = IsString v
IsComparable _ v arg = Unit

module _ (h : Host) where
  same-matches :
      (v arg : Value) (b : Bool) → IsNoNumber arg → same h v arg ≡ some b → matches h v arg ≡ b
  unfolding same matches value_beq
  same-matches null (string s) b n e = absurd (cc e)
  same-matches (bool c) (string s) b n e = absurd (cc e)
  same-matches (number m) (string s) b n e = absurd (cc e)
  same-matches (string t) (string s) b n e = ap (λ o. get_or o false) e
  same-matches (array ys) (string s) b n e = absurd (cc e)
  same-matches (object gs) (string s) b n e = absurd (cc e)
  same-matches null (bool d) b n e = absurd (cc e)
  same-matches (bool true) (bool true) b n e = ap (λ o. get_or o false) e
  same-matches (bool true) (bool false) b n e = ap (λ o. get_or o false) e
  same-matches (bool false) (bool true) b n e = ap (λ o. get_or o false) e
  same-matches (bool false) (bool false) b n e = ap (λ o. get_or o false) e
  same-matches (number m) (bool d) b n e = absurd (cc e)
  same-matches (string t) (bool d) b n e = absurd (cc e)
  same-matches (array ys) (bool d) b n e = absurd (cc e)
  same-matches (object gs) (bool d) b n e = absurd (cc e)
  same-matches v (number m) b n e = absurd n
  same-matches v null b n e = absurd (cc e)
  same-matches v (array xs) b n e = absurd (cc e)
  same-matches v (object fs) b n e = absurd (cc e)

  differs-matches :
      (v arg : Value) (b : Bool)
      → IsNoNumber arg
      → differs h v arg ≡ some b
      → not (matches h v arg) ≡ b
  unfolding differs matches value_beq
  differs-matches null (string s) b n e = absurd (cc e)
  differs-matches (bool c) (string s) b n e = absurd (cc e)
  differs-matches (number m) (string s) b n e = absurd (cc e)
  differs-matches (string t) (string s) b n e = ap (λ o. get_or o false) e
  differs-matches (array ys) (string s) b n e = absurd (cc e)
  differs-matches (object gs) (string s) b n e = absurd (cc e)
  differs-matches null (bool d) b n e = absurd (cc e)
  differs-matches (bool true) (bool true) b n e = ap (λ o. get_or o false) e
  differs-matches (bool true) (bool false) b n e = ap (λ o. get_or o false) e
  differs-matches (bool false) (bool true) b n e = ap (λ o. get_or o false) e
  differs-matches (bool false) (bool false) b n e = ap (λ o. get_or o false) e
  differs-matches (number m) (bool d) b n e = absurd (cc e)
  differs-matches (string t) (bool d) b n e = absurd (cc e)
  differs-matches (array ys) (bool d) b n e = absurd (cc e)
  differs-matches (object gs) (bool d) b n e = absurd (cc e)
  differs-matches v (number m) b n e = absurd n
  differs-matches v null b n e = absurd (cc e)
  differs-matches v (array xs) b n e = absurd (cc e)
  differs-matches v (object fs) b n e = absurd (cc e)

  ordered-compare_numbers :
      (test : _) (v arg : Value) (b : Bool)
      → ordered h test v arg ≡ some b
      → compare_numbers h test v arg ≡ b
  unfolding ordered compare_numbers
  ordered-compare_numbers test v arg b e = elim (Option-cases (as_f64 h arg)) [
    | inl none_arg ↦ absurd (let no : none ≡ some b = rw none_arg at e in cc no)
    | inr (y, arg_is) ↦ elim (Option-cases (as_f64 h v)) [
      | inl none_v ↦ absurd (let no : none ≡ some b = rw (arg_is, none_v) at e in cc no)
      | inr (x, v_is) ↦
          let own : some (test x y) ≡ some b = rw (arg_is, v_is) at e in
          rw (v_is, compare_numbers) (rw arg_is (ap (λ o. get_or o false) own))
    ]
  ]

  any_text-any_matches :
      (s : Str) (xs : Items) → any_text h (some (h.lowercase s)) xs ≡ any_matches h (string s) xs
  unfolding any_text any_matches matches value_beq
  any_text-any_matches s nil = refl
  any_text-any_matches s (cons (string t) xs) =
      ap (λ r. str_beq (h.lowercase s) (h.lowercase t) || r) (any_text-any_matches s xs)
  any_text-any_matches s (cons null xs) = any_text-any_matches s xs
  any_text-any_matches s (cons (bool c) xs) = any_text-any_matches s xs
  any_text-any_matches s (cons (number m) xs) = any_text-any_matches s xs
  any_text-any_matches s (cons (array ys) xs) = any_text-any_matches s xs
  any_text-any_matches s (cons (object gs) xs) = any_text-any_matches s xs

  in_list-any_text :
      (op s : Str) (arg : Value) (b : Bool)
      → (as_items arg >>= λ xs. some (any_text h (some (h.lowercase s)) xs)) ≡ some b
      → in_list h op (string s) arg ≡ ok b
  unfolding in_list
  in_list-any_text op s (array xs) b e =
      ap ok (sym (any_text-any_matches s xs) ∙ ap (λ o. get_or o false) e)
  in_list-any_text op s null b e = absurd (cc e)
  in_list-any_text op s (bool c) b e = absurd (cc e)
  in_list-any_text op s (number m) b e = absurd (cc e)
  in_list-any_text op s (string t) b e = absurd (cc e)
  in_list-any_text op s (object gs) b e = absurd (cc e)

  negated-any_text :
      (op s : Str) (arg : Value) (b : Bool)
      → (as_items arg >>= λ xs. some (not (any_text h (some (h.lowercase s)) xs))) ≡ some b
      → negated h (in_list h op (string s) arg) ≡ ok b
  unfolding in_list
  negated-any_text op s (array xs) b e =
      ap (λ m. ok (not m)) (sym (any_text-any_matches s xs)) ∙ ap (λ o. ok (get_or o false)) e
  negated-any_text op s null b e = absurd (cc e)
  negated-any_text op s (bool d) b e = absurd (cc e)
  negated-any_text op s (number m) b e = absurd (cc e)
  negated-any_text op s (string t) b e = absurd (cc e)
  negated-any_text op s (object gs) b e = absurd (cc e)

  holds_text-contains_value :
      (s : Str) (arg : Value) (b : Bool)
      → holds_text h (string s) arg ≡ some b
      → contains_value h (string s) arg ≡ b
  unfolding holds_text contains_value
  holds_text-contains_value s (string t) b e = ap (λ o. get_or o false) e
  holds_text-contains_value s null b e = absurd (cc e)
  holds_text-contains_value s (bool d) b e = absurd (cc e)
  holds_text-contains_value s (number m) b e = absurd (cc e)
  holds_text-contains_value s (array ys) b e = absurd (cc e)
  holds_text-contains_value s (object gs) b e = absurd (cc e)

  test_decoded-test_operator :
      (op : Str) (o : WhereOperator) (v arg : Value) (b : Bool)
      → IsComparable o v arg
      → test_decoded h o v arg ≡ some b
      → test_operator h op (some o) v arg ≡ ok b
  unfolding test_decoded test_operator in_list holds_text contains_value
  test_decoded-test_operator op eq v arg b c e = ap ok (same-matches v arg b c e)
  test_decoded-test_operator op not_eq v arg b c e = ap ok (differs-matches v arg b c e)
  test_decoded-test_operator op gt v arg b c e = ap ok (ordered-compare_numbers _ v arg b e)
  test_decoded-test_operator op gte v arg b c e = ap ok (ordered-compare_numbers _ v arg b e)
  test_decoded-test_operator op lt v arg b c e = ap ok (ordered-compare_numbers _ v arg b e)
  test_decoded-test_operator op lte v arg b c e = ap ok (ordered-compare_numbers _ v arg b e)
  test_decoded-test_operator op isin (string s) arg b c e = in_list-any_text op s arg b e
  test_decoded-test_operator op isin null arg b c e = absurd c
  test_decoded-test_operator op isin (bool d) arg b c e = absurd c
  test_decoded-test_operator op isin (number m) arg b c e = absurd c
  test_decoded-test_operator op isin (array ys) arg b c e = absurd c
  test_decoded-test_operator op isin (object gs) arg b c e = absurd c
  test_decoded-test_operator op notin (string s) arg b c e = negated-any_text op s arg b e
  test_decoded-test_operator op notin null arg b c e = absurd c
  test_decoded-test_operator op notin (bool d) arg b c e = absurd c
  test_decoded-test_operator op notin (number m) arg b c e = absurd c
  test_decoded-test_operator op notin (array ys) arg b c e = absurd c
  test_decoded-test_operator op notin (object gs) arg b c e = absurd c
  test_decoded-test_operator op contains (string s) arg b c e =
      ap ok (holds_text-contains_value s arg b e)
  test_decoded-test_operator op contains null arg b c e = absurd c
  test_decoded-test_operator op contains (bool d) arg b c e = absurd c
  test_decoded-test_operator op contains (number m) arg b c e = absurd c
  test_decoded-test_operator op contains (array ys) arg b c e = absurd c
  test_decoded-test_operator op contains (object gs) arg b c e = absurd c
  test_decoded-test_operator op or v arg b c e = absurd (cc e)
  test_decoded-test_operator op and v arg b c e = absurd (cc e)

settled : (b : Bool) → both (both (ok b) (ok true)) (ok true) ≡ ok b
unfolding both
settled true = refl
settled false = refl

same_value : (x y : Value) → some x ≡ some y → x ≡ y
same_value x y e = ap (λ o. get_or o null) e

module _ (h : Host) (skip : Bytes → Option Bytes) (skips : Skips skip) where
  -- If a filter on a path of names that are not those of system fields decides against the bytes of a
  -- value that MsgPack can hold, and the operator is one for (in)equality and the argument is no number,
  -- or one for the order of numbers, or one for membership or containment and the path leads to a string,
  -- then `evaluate_where` decides the same of the decoded value, where the path leads to a value that, if
  -- it is a list, holds strings only, and where the skipper passes over exactly one encoded value.
  pub evaluate_predicate_msgpack-evaluate_where :
      (v x : Value) (path op : Str) (o : WhereOperator) (arg : Value) (b : Bool)
      → IsEncodable v
      → system_token path ≡ none
      → All IsSegment (split_path path)
      → str_beq path (Operator.as_str or) ≡ false
      → str_beq path (Operator.as_str and) ≡ false
      → get_nested_value v (split_path path) ≡ some x
      → IsSearchable x
      → Operator.from_str op ≡ some o
      → IsComparable o x arg
      → evaluate_predicate_msgpack skip h (value_to_msgpack v) path op arg ≡ some b
      → evaluate_where h v (object (field path (object (field op arg end)) end)) ≡ ok b
  unfolding evaluate_where test_condition test_operators both
  evaluate_predicate_msgpack-evaluate_where v x path op o arg b enc plain ss no_or no_and there
        search known comparable decided =
      let reference =
        evaluate_predicate_msgpack-test_decoded h skip skips v path op arg enc plain ss
          (λ y found. subst IsSearchable (same_value x y (sym there ∙ found)) search) in
      let own : test_decoded h o x arg ≡ some b = rw (there, known) at (sym reference ∙ decided) in
      let test = test_decoded-test_operator h op o x arg b comparable own in
      rw (no_or, no_and, there, known, test) (settled b)
