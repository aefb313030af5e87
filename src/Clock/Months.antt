-- ===== src/Clock/Months.antt =====
-- The loop over the months against a count of days.
use mathlib.Core.Path.{subst}
use native.Mathlib.Decide.{dec_lt}
use molten_db.Prelude.{
  ◌≡◌, refl, ap, arith, ℕ, ◌+◌, ◌-◌, ◌*◌, ◌/◌, ◌<◌, ◌≤◌, leb, Bool, true, false, if◌then◌else◌,
  List, [], ◌∷◌,
}
use molten_db.Clock.{month_days, find_month}

-- The days of a year before its month `mo`, from 1 on.
unfoldable pub days_before_month : Bool → ℕ → ℕ
days_before_month leap mo = (367 * mo - 362) / 12 - (if leb mo 2 then 0 else if leap then 1 else 2)

unfoldable pub month_length : Bool → ℕ → ℕ
unfolding days_before_month
month_length leap mo = days_before_month leap (mo + 1) - days_before_month leap mo

-- The lengths of the months from `mo` to December.
abbrev AreMonths : Bool → ℕ → List ℕ → Type 0
AreMonths leap mo [] = mo ≡ 13
AreMonths leap mo (x ∷ xs) =
    (days_before_month leap (mo + 1) ≡ days_before_month leap mo + x) × AreMonths leap (mo + 1) xs

module _ (xs : List ℕ) (x d mo : ℕ) where
  find_month-here : d < x → find_month (x ∷ xs) d mo ≡ (mo, d)
  unfolding find_month
  find_month-here h = ground (arith, h)

  find_month-next : x ≤ d → find_month (x ∷ xs) d mo ≡ find_month xs (d - x) (mo + 1)
  unfolding find_month
  find_month-next h = ground (arith, h)

-- A month and a day of it, from 0 on.
pub record IsDay (leap : Bool) (day : ℕ) (p : ℕ × ℕ) : Type 0 where
  pub sum : days_before_month leap p.0 + p.1 ≡ day
  pub first : 1 ≤ p.0
  pub last : p.0 ≤ 12
  pub inside : p.1 < month_length leap p.0

month_at_most :
    (leap : Bool) (d mo : ℕ)
    → mo ≤ 13
    → days_before_month leap mo + d < days_before_month leap 13
    → mo ≤ 12
month_at_most leap d mo high h = elim (dec_lt mo 13) [
  | yes p ↦ omega (arith, p)
  | no q ↦
      absurd (let e : mo ≡ 13 = omega (arith, q) in omega (arith, h, ap (days_before_month leap) e))
]

find_month-IsDay :
    (leap : Bool) (xs : List ℕ) (d mo : ℕ)
    → AreMonths leap mo xs
    → 1 ≤ mo
    → mo ≤ 13
    → days_before_month leap mo + d < days_before_month leap 13
    → IsDay leap (days_before_month leap mo + d) (find_month xs d mo)
find_month-IsDay leap [] d mo months low high h =
    absurd (omega (arith, ap (days_before_month leap) months))
find_month-IsDay leap (x ∷ xs) d mo months low high h = elim (dec_lt d x) [
  | yes inside ↦ rw (find_month-here xs x d mo inside) record {
    sum = refl;
    first = low;
    last = month_at_most leap d mo high h;
    inside = unfold month_length in omega (arith, months.0, inside);
  }
  | no beyond ↦
      let long : x ≤ d = omega (arith, beyond) in
      let same : days_before_month leap (mo + 1) + (d - x) ≡ days_before_month leap mo + d =
        omega (arith, months.0) in
      rw (find_month-next xs x d mo long) (
        subst (λ day. IsDay leap day (find_month xs (d - x) (mo + 1))) same
          (find_month-IsDay leap xs (d - x) (mo + 1) months.1 (omega arith)
            (omega (arith, month_at_most leap d mo high h)) (omega (arith, same))))
]

are_months : (leap : Bool) → AreMonths leap 1 (month_days leap)
unfolding month_days days_before_month
are_months true = (
  refl,
  (refl, (refl, (refl, (refl, (refl, (refl, (refl, (refl, (refl, (refl, (refl, refl))))))))))),
)
are_months false = (
  refl,
  (refl, (refl, (refl, (refl, (refl, (refl, (refl, (refl, (refl, (refl, (refl, refl))))))))))),
)

december : (leap : Bool) → days_before_month leap 13 ≡ (if leap then 366 else 365)
unfolding days_before_month
december true = refl
december false = refl

january : (leap : Bool) → days_before_month leap 1 ≡ 0
unfolding days_before_month
january true = refl
january false = refl

-- The loop stops at the month that the day of the year lies in.
pub find_month-month_days :
    (leap : Bool) (d : ℕ)
    → d < (if leap then 366 else 365)
    → IsDay leap d (find_month (month_days leap) d 1)
find_month-month_days leap d h =
    subst (λ day. IsDay leap day (find_month (month_days leap) d 1)) (omega (arith, january leap))
      (find_month-IsDay leap (month_days leap) d 1 (are_months leap) (omega arith) (omega arith)
        (omega (arith, january leap, december leap, h)))
