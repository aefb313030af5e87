-- ===== src/Scan/Sorting.antt =====
-- Insertions into a list of items.
use molten_db.Prelude.{
  ◌≡◌, refl, arith, true, false, List, [], ◌∷◌, ◌++◌, All, if◌then◌else◌, Bool-cases, inl, inr, ap,
  sym, ◌∙◌,
}
use molten_db.Scan.{SortItem, item_lt, Heap, push}
use molten_db.Scan.Order.{item_lt_trans, item_lt_asym, item_lt_total}

-- The items, each inserted, from the first on.
unfoldable pub sort_into : Heap → List SortItem → Heap
sort_into heap [] = heap
sort_into heap (x ∷ xs) = sort_into (push x heap) xs

-- No item is before one that stands before it.
abbrev pub IsSorted : Heap → Type 0
IsSorted [] = Unit
IsSorted (x ∷ heap) = All (λ y. item_lt y x ≡ false) heap × IsSorted heap

pub lt_not_lt : (x y z : SortItem) → item_lt x y ≡ true → item_lt z y ≡ false → item_lt x z ≡ true
lt_not_lt x y z h k = elim (Bool-cases (item_lt x z)) [
  | inl own ↦ own
  | inr other ↦ ground (arith, h, k, other, item_lt_total x z other, item_lt_trans z x y)
]

pub not_lt_trans :
    (x y z : SortItem) → item_lt y x ≡ false → item_lt z y ≡ false → item_lt z x ≡ false
not_lt_trans x y z h k = elim (Bool-cases (item_lt z x)) [
  | inl own ↦ ground (arith, h, k, own, lt_not_lt z x y own h)
  | inr other ↦ other
]

module _ (x y : SortItem) (heap : Heap) where
  pub push_first : item_lt x y ≡ true → push x (y ∷ heap) ≡ x ∷ y ∷ heap
  unfolding push
  push_first h = rw h refl

  pub push_later : item_lt x y ≡ false → push x (y ∷ heap) ≡ y ∷ push x heap
  unfolding push
  push_later h = rw h refl

pub push_none : (x : SortItem) → push x [] ≡ x ∷ []
unfolding push
push_none x = refl

push_one : (x y : SortItem) → push x (y ∷ []) ≡ push y (x ∷ [])
push_one x y = elim (Bool-cases (item_lt x y)) [
  | inl less ↦
      push_first x y [] less
      ∙ sym (push_later y x [] (item_lt_asym x y less) ∙ ap (λ t. x ∷ t) (push_none y))
  | inr later ↦ elim (Bool-cases (item_lt y x)) [
    | inl more ↦
        push_later x y [] later ∙ ap (λ t. y ∷ t) (push_none x) ∙ sym (push_first y x [] more)
    | inr neither ↦
        let same : x ≡ y = item_lt_total x y later neither in λ i. push (same i) (sym same i ∷ [])
  ]
]

-- Two items in front of one that both are before.
push_both :
    (x y z : SortItem) (heap : Heap)
    → item_lt x z ≡ true
    → item_lt y z ≡ true
    → push x (y ∷ z ∷ heap) ≡ push y (x ∷ z ∷ heap)
push_both x y z heap h k = elim (Bool-cases (item_lt x y)) [
  | inl less ↦
      push_first x y (z ∷ heap) less
      ∙ sym (
          push_later y x (z ∷ heap) (item_lt_asym x y less)
          ∙ ap (λ t. x ∷ t) (push_first y z heap k))
  | inr later ↦ elim (Bool-cases (item_lt y x)) [
    | inl more ↦
        push_later x y (z ∷ heap) later
        ∙ ap (λ t. y ∷ t) (push_first x z heap h)
        ∙ sym (push_first y x (z ∷ heap) more)
    | inr neither ↦
        let same : x ≡ y = item_lt_total x y later neither in
        λ i. push (same i) (sym same i ∷ z ∷ heap)
  ]
]

-- One item before the front and one not.
push_around :
    (x y z : SortItem) (heap : Heap)
    → item_lt x z ≡ true
    → item_lt y z ≡ false
    → push x (push y (z ∷ heap)) ≡ push y (push x (z ∷ heap))
push_around x y z heap h k =
    let after : item_lt y x ≡ false = elim (Bool-cases (item_lt y x)) [
      | inl less ↦ ground (arith, less, k, item_lt_trans y x z less h)
      | inr later ↦ later
    ] in
    ap (push x) (push_later y z heap k)
    ∙ push_first x z (push y heap) h
    ∙ sym (
        ap (push y) (push_first x z heap h)
        ∙ push_later y x (z ∷ heap) after
        ∙ ap (λ t. x ∷ t) (push_later y z heap k))

pub push-push : (x y : SortItem) (heap : Heap) → push x (push y heap) ≡ push y (push x heap)
push-push x y [] = ap (push x) (push_none y) ∙ push_one x y ∙ sym (ap (push y) (push_none x))
push-push x y (z ∷ heap) = elim (Bool-cases (item_lt x z)) [
  | inl h ↦ elim (Bool-cases (item_lt y z)) [
    | inl k ↦
        ap (push x) (push_first y z heap k)
        ∙ push_both x y z heap h k
        ∙ sym (ap (push y) (push_first x z heap h))
    | inr k ↦ push_around x y z heap h k
  ]
  | inr h ↦ elim (Bool-cases (item_lt y z)) [
    | inl k ↦ sym (push_around y x z heap k h)
    | inr k ↦
        ap (push x) (push_later y z heap k)
        ∙ push_later x z (push y heap) h
        ∙ ap (λ t. z ∷ t) (push-push x y heap)
        ∙ sym (ap (push y) (push_later x z heap h) ∙ push_later y z (push x heap) k)
  ]
]

All-push :
    (x y : SortItem) (heap : Heap)
    → item_lt y x ≡ false
    → All (λ z. item_lt z x ≡ false) heap
    → All (λ z. item_lt z x ≡ false) (push y heap)
unfolding push
All-push x y [] h k = (h, tt)
All-push x y (z ∷ heap) h k =
    elim (item_lt y z)
      as (λ b. All (λ z. item_lt z x ≡ false) (if b then y ∷ z ∷ heap else z ∷ push y heap)) [
        | true ↦ (h, k)
        | false ↦ (k.0, All-push x y heap h k.1)
      ]

All-trans :
    (x y : SortItem) (heap : Heap)
    → item_lt y x ≡ false
    → All (λ z. item_lt z y ≡ false) heap
    → All (λ z. item_lt z x ≡ false) heap
All-trans x y [] h k = tt
All-trans x y (z ∷ heap) h k = (not_lt_trans x y z h k.0, All-trans x y heap h k.1)

pub push-IsSorted : (x : SortItem) (heap : Heap) → IsSorted heap → IsSorted (push x heap)
unfolding push
push-IsSorted x [] s = (tt, tt)
push-IsSorted x (y ∷ heap) s = elim (Bool-cases (item_lt x y)) [
  | inl own ↦ rw own ((item_lt_asym x y own, All-trans x y heap (item_lt_asym x y own) s.0), s)
  | inr other ↦ rw other (All-push y x heap other s.0, push-IsSorted x heap s.1)
]

pub sort_into-push :
    (x : SortItem) (heap : Heap) (xs : List SortItem)
    → sort_into (push x heap) xs ≡ push x (sort_into heap xs)
unfolding sort_into
sort_into-push x heap [] = refl
sort_into-push x heap (y ∷ xs) =
    ap (λ h. sort_into h xs) (push-push y x heap) ∙ sort_into-push x (push y heap) xs

pub sort_into-append :
    (heap : Heap) (xs ys : List SortItem)
    → sort_into heap (xs ++ ys) ≡ sort_into (sort_into heap xs) ys
unfolding sort_into
sort_into-append heap [] ys = refl
sort_into-append heap (x ∷ xs) ys = sort_into-append (push x heap) xs ys

pub sort_into-IsSorted :
    (heap : Heap) (xs : List SortItem) → IsSorted heap → IsSorted (sort_into heap xs)
unfolding sort_into
sort_into-IsSorted heap [] s = s
sort_into-IsSorted heap (x ∷ xs) s = sort_into-IsSorted (push x heap) xs (push-IsSorted x heap s)

-- To insert the items of a pushed heap is to insert the item and those of the heap.
sort_into_pushed :
    (heap : Heap) (x : SortItem) (ys : Heap)
    → sort_into heap (push x ys) ≡ push x (sort_into heap ys)
unfolding push sort_into
sort_into_pushed heap x [] = refl
sort_into_pushed heap x (y ∷ ys) = elim (Bool-cases (item_lt x y)) [
  | inl own ↦ ap (sort_into heap) (push_first x y ys own) ∙ sort_into-push x heap (y ∷ ys)
  | inr other ↦ ap (sort_into heap) (push_later x y ys other) ∙ sort_into_pushed (push y heap) x ys
]

-- Sorting the items before does not matter.
pub sort_into-sorted :
    (heap : Heap) (ys : Heap) (xs : List SortItem)
    → sort_into heap (sort_into ys xs) ≡ sort_into (sort_into heap ys) xs
unfolding sort_into
sort_into-sorted heap ys [] = refl
sort_into-sorted heap ys (x ∷ xs) =
    sort_into-sorted heap (push x ys) xs ∙ ap (λ h. sort_into h xs) (sort_into_pushed heap x ys)
