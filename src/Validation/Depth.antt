-- ===== src/Validation/Depth.antt =====
-- The check of the depth against the depth.
use molten_db.Prelude.{
  ◌≡◌, refl, arith, ℕ, suc, ◌+◌, ◌≤◌, true, false, ltb, leb, if◌then◌else◌, ap, ap₂, sym, ◌∙◌,
  Bool-cases, inl, inr,
}
use molten_db.Json.{
  Value, Items, Fields, null, bool, number, string, array, object, nil, cons, end, field,
}
use molten_db.Validation.{
  Validated, valid, refused, invalid_json_depth, then_check, check, check_fields, check_items,
  validate_json_depth,
}

abbrev max : ℕ → ℕ → ℕ
max a b = if leb a b then b else a

-- How many levels lie below a value, and below the first level of parts.
unfoldable mutual
  pub depth : Value → ℕ
  depth (object fs) = fields_depth fs
  depth (array xs) = items_depth xs
  depth _ = 0

  pub fields_depth : Fields → ℕ
  fields_depth end = 0
  fields_depth (field k v fs) = max (suc (depth v)) (fields_depth fs)

  pub items_depth : Items → ℕ
  items_depth nil = 0
  items_depth (cons x xs) = max (suc (depth x)) (items_depth xs)

-- What the check answers for a depth at a level.
abbrev verdict : ℕ → ℕ → Validated
verdict reached most = if ltb most reached then refused invalid_json_depth else valid

then_check-verdict :
    (a b most : ℕ) → then_check (verdict a most) (verdict b most) ≡ verdict (max a b) most
unfolding then_check
then_check-verdict a b most = ground arith

max-plus : (c d e : ℕ) → max (c + 1 + d) (c + e) ≡ c + max (suc d) e
max-plus c d e = ground arith

too_deep : (c d most : ℕ) → ltb most c ≡ true → verdict (c + d) most ≡ refused invalid_json_depth
too_deep c d most h = ground (arith, h)

module _ (c most : ℕ) where
  check_object :
      (fs : Fields) → ltb most c ≡ true → check (object fs) c most ≡ refused invalid_json_depth
  unfolding check
  check_object fs h = rw (h, check) refl

  check_array :
      (xs : Items) → ltb most c ≡ true → check (array xs) c most ≡ refused invalid_json_depth
  unfolding check
  check_array xs h = rw (h, check) refl

  check_object_inner :
      (fs : Fields) → ltb most c ≡ false → check (object fs) c most ≡ check_fields fs (c + 1) most
  unfolding check
  check_object_inner fs h = rw (h, check) refl

  check_array_inner :
      (xs : Items) → ltb most c ≡ false → check (array xs) c most ≡ check_items xs (c + 1) most
  unfolding check
  check_array_inner xs h = rw (h, check) refl

mutual
  unfolding check depth then_check

  check-depth :
      (v : Value) (current most : ℕ) → check v current most ≡ verdict (current + depth v) most
  check-depth (object fs) current most = elim (Bool-cases (ltb most current)) [
    | inl deep ↦
        check_object current most fs deep ∙ sym (too_deep current (fields_depth fs) most deep)
    | inr fits ↦
        check_object_inner current most fs fits
        ∙ check_fields-depth fs current most (ground (arith, fits))
  ]
  check-depth (array xs) current most = elim (Bool-cases (ltb most current)) [
    | inl deep ↦
        check_array current most xs deep ∙ sym (too_deep current (items_depth xs) most deep)
    | inr fits ↦
        check_array_inner current most xs fits
        ∙ check_items-depth xs current most (ground (arith, fits))
  ]
  check-depth null current most = ground arith
  check-depth (bool b) current most = ground arith
  check-depth (number n) current most = ground arith
  check-depth (string s) current most = ground arith

  -- at the level of the parts
  check_fields-depth :
      (fs : Fields) (current most : ℕ)
      → current ≤ most
      → check_fields fs (current + 1) most ≡ verdict (current + fields_depth fs) most
  check_fields-depth end current most h = ground (arith, h)
  check_fields-depth (field k v fs) current most h =
      ap₂ then_check (check-depth v (current + 1) most) (check_fields-depth fs current most h)
      ∙ then_check-verdict (current + 1 + depth v) (current + fields_depth fs) most
      ∙ ap (λ n. verdict n most) (max-plus current (depth v) (fields_depth fs))

  check_items-depth :
      (xs : Items) (current most : ℕ)
      → current ≤ most
      → check_items xs (current + 1) most ≡ verdict (current + items_depth xs) most
  check_items-depth nil current most h = ground (arith, h)
  check_items-depth (cons x xs) current most h =
      ap₂ then_check (check-depth x (current + 1) most) (check_items-depth xs current most h)
      ∙ then_check-verdict (current + 1 + depth x) (current + items_depth xs) most
      ∙ ap (λ n. verdict n most) (max-plus current (depth x) (items_depth xs))

-- A value is refused as too deep if it has more levels below it than are allowed, and is valid if not.
pub validate_json_depth-depth :
    (v : Value) (max_depth : ℕ)
    → validate_json_depth v max_depth
      ≡ (if ltb max_depth (depth v) then refused invalid_json_depth else valid)
unfolding validate_json_depth
validate_json_depth-depth v max_depth =
    let plain : 0 + depth v ≡ depth v = omega arith in rw plain at (check-depth v 0 max_depth)
