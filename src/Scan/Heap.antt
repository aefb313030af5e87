-- ===== src/Scan/Heap.antt =====
-- A bounded heap keeps the smallest items.
use molten_db.Prelude.{
  ◌≡◌, refl, arith, ℕ, zero, suc, ◌≤◌, true, false, some, List, [], ◌∷◌, All, length, take, leb,
  nat_beq, if◌then◌else◌, Bool-cases, inl, inr, ap, sym, ◌∙◌,
}
use molten_db.Scan.{SortItem, item_lt, Heap, push, peek, pop, push_bounded, push_all}
use molten_db.Scan.Sorting.{
  sort_into, IsSorted, lt_not_lt, push_first, push_later, push_none, push-IsSorted,
}

last : SortItem → Heap → SortItem
last y [] = y
last y (z ∷ heap) = last z heap

peek-last : (y : SortItem) (heap : Heap) → peek (y ∷ heap) ≡ some (last y heap)
unfolding peek last
peek-last y [] = refl
peek-last y (z ∷ heap) = peek-last z heap

last_above :
    (x y : SortItem) (heap : Heap)
    → IsSorted (y ∷ heap)
    → item_lt x y ≡ true
    → item_lt x (last y heap) ≡ true
unfolding last
last_above x y [] s h = h
last_above x y (z ∷ heap) s h = last_above x z heap s.1 (lt_not_lt x y z h s.0.0)

take-pop : (y : SortItem) (heap : Heap) → take (length heap) (y ∷ heap) ≡ pop (y ∷ heap)
unfolding pop
take-pop y [] = refl
take-pop y (z ∷ heap) = ap (λ t. y ∷ t) (take-pop z heap)

-- What a push to a full heap makes of it.
take-push-full :
    (x y : SortItem) (heap : Heap)
    → IsSorted (y ∷ heap)
    → take (suc (length heap)) (push x (y ∷ heap))
      ≡ (if item_lt x (last y heap) then push x (pop (y ∷ heap)) else y ∷ heap)
unfolding last pop
take-push-full x y [] s = elim (Bool-cases (item_lt x y)) [
  | inl less ↦ rw less (ap (take 1) (push_first x y [] less) ∙ sym (push_none x))
  | inr later ↦ rw later (ap (take 1) (push_later x y [] later))
]
take-push-full x y (z ∷ heap) s = elim (Bool-cases (item_lt x y)) [
  | inl less ↦ rw (last_above x y (z ∷ heap) s less) (
      ap (take (suc (suc (length heap)))) (push_first x y (z ∷ heap) less)
      ∙ ap (λ t. x ∷ y ∷ t) (take-pop z heap)
      ∙ sym (push_first x y (pop (z ∷ heap)) less))
  | inr later ↦
      ap (take (suc (suc (length heap)))) (push_later x y (z ∷ heap) later)
      ∙ ap (λ t. y ∷ t) (take-push-full x z heap s.1)
      ∙ elim (Bool-cases (item_lt x (last z heap))) [
        | inl h ↦ rw h (sym (push_later x y (pop (z ∷ heap)) later))
        | inr h ↦ rw h refl
      ]
]

take-all : (n : ℕ) (heap : Heap) → length heap ≤ n → take n heap ≡ heap
take-all zero [] h = refl
take-all zero (x ∷ heap) h = absurd (omega (arith, h))
take-all (suc n) [] h = refl
take-all (suc n) (x ∷ heap) h = ap (λ t. x ∷ t) (take-all n heap (omega (arith, h)))

pub length-push : (x : SortItem) (heap : Heap) → length (push x heap) ≡ suc (length heap)
unfolding push
length-push x [] = refl
length-push x (y ∷ heap) = ground (arith, length-push x heap)

not_zero : (c : ℕ) → nat_beq (suc c) 0 ≡ false
not_zero c = ground arith

bounded_full :
    (c : ℕ) (x y : SortItem) (heap : Heap)
    → leb (suc c) (suc (length heap)) ≡ true
    → push_bounded (suc c) (y ∷ heap) x
      ≡ (if item_lt x (last y heap) then push x (pop (y ∷ heap)) else y ∷ heap)
unfolding push_bounded
bounded_full c x y heap h = rw (h, not_zero c, push_bounded) (rw (peek-last y heap) refl)

bounded_room :
    (c : ℕ) (x : SortItem) (heap : Heap)
    → leb (suc c) (length heap) ≡ false
    → push_bounded (suc c) heap x ≡ push x heap
unfolding push_bounded
bounded_room c x heap h = rw (h, not_zero c, push_bounded) refl

push_bounded-take :
    (cap : ℕ) (x : SortItem) (heap : Heap)
    → IsSorted heap
    → length heap ≤ cap
    → push_bounded cap heap x ≡ take cap (push x heap)
push_bounded-take zero x [] s h = unfold push_bounded in refl
push_bounded-take zero x (y ∷ heap) s h = absurd (omega (arith, h))
push_bounded-take (suc c) x [] s h =
    bounded_room c x [] (ground arith)
    ∙ sym (take-all (suc c) (push x []) (omega (arith, length-push x [])))
push_bounded-take (suc c) x (y ∷ heap) s h = elim (Bool-cases (leb (suc c) (suc (length heap)))) [
  | inl full ↦
      let same : c ≡ length heap = ground (arith, full, h) in
      bounded_full c x y heap full ∙ sym (rw same (take-push-full x y heap s))
  | inr room ↦
      bounded_room c x (y ∷ heap) room
      ∙ sym (take-all (suc c) (push x (y ∷ heap)) (ground (arith, room, length-push x (y ∷ heap))))
]

take-take : (n : ℕ) (heap : Heap) → take n (take (suc n) heap) ≡ take n heap
take-take zero heap = refl
take-take (suc n) [] = refl
take-take (suc n) (x ∷ heap) = ap (λ t. x ∷ t) (take-take n heap)

take-cons-take : (n : ℕ) (y : SortItem) (heap : Heap) → take n (y ∷ take n heap) ≡ take n (y ∷ heap)
take-cons-take zero y heap = refl
take-cons-take (suc n) y heap = ap (λ t. y ∷ t) (take-take n heap)

length-take-le : (n : ℕ) (heap : Heap) → length (take n heap) ≤ n
length-take-le zero heap = omega arith
length-take-le (suc n) [] = omega arith
length-take-le (suc n) (x ∷ heap) = omega (arith, length-take-le n heap)

All-take :
    (n : ℕ) (x : SortItem) (heap : Heap)
    → All (λ y. item_lt y x ≡ false) heap
    → All (λ y. item_lt y x ≡ false) (take n heap)
All-take zero x heap h = tt
All-take (suc n) x [] h = tt
All-take (suc n) x (y ∷ heap) h = (h.0, All-take n x heap h.1)

-- A cut before an insertion does not show behind it.
take-push-take :
    (n : ℕ) (x : SortItem) (heap : Heap) → take n (push x (take n heap)) ≡ take n (push x heap)
take-push-take zero x heap = refl
take-push-take (suc n) x [] = refl
take-push-take (suc n) x (y ∷ heap) = elim (Bool-cases (item_lt x y)) [
  | inl less ↦
      ap (take (suc n)) (push_first x y (take n heap) less)
      ∙ ap (λ t. x ∷ t) (take-cons-take n y heap)
      ∙ sym (ap (take (suc n)) (push_first x y heap less))
  | inr later ↦
      ap (take (suc n)) (push_later x y (take n heap) later)
      ∙ ap (λ t. y ∷ t) (take-push-take n x heap)
      ∙ sym (ap (take (suc n)) (push_later x y heap later))
]

take-IsSorted : (n : ℕ) (heap : Heap) → IsSorted heap → IsSorted (take n heap)
take-IsSorted zero heap s = tt
take-IsSorted (suc n) [] s = tt
take-IsSorted (suc n) (x ∷ heap) s = (All-take n x heap s.0, take-IsSorted n heap s.1)

-- The smallest of the items are kept, whatever was pushed before.
pub push_all-take :
    (cap : ℕ) (heap : Heap) (xs : List SortItem)
    → IsSorted heap
    → push_all cap (take cap heap) xs ≡ take cap (sort_into heap xs)
unfolding push_all sort_into
push_all-take cap heap [] s = refl
push_all-take cap heap (x ∷ xs) s =
    ap (λ h. push_all cap h xs)
      (push_bounded-take cap x (take cap heap) (take-IsSorted cap heap s) (length-take-le cap heap)
        ∙ take-push-take cap x heap)
    ∙ push_all-take cap (push x heap) xs (push-IsSorted x heap s)
