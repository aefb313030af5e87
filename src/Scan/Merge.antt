-- ===== src/Scan/Merge.antt =====
-- A shared pass gives each task what it would find alone, however the collection is divided.
use mathlib.Core.List.{Permᴰ}
use molten_db.Prelude.{
  ◌≡◌, refl, arith, ℕ, zero, suc, ◌+◌, false, List, [], ◌∷◌, ◌++◌, All, take, Bool-cases, inl, inr,
  ap, sym, ◌∙◌,
}
use molten_db.Scan.{SortItem, item_lt, Heap, push, push_all}
use molten_db.Scan.Sorting.{
  sort_into, IsSorted, not_lt_trans, push_later, sort_into-IsSorted, sort_into-append,
  sort_into-sorted, push-push,
}
use molten_db.Scan.Heap.{push_all-take}

-- The order of the items does not matter.
sort_into-perm :
    {xs ys : List SortItem} → Permᴰ xs ys → (items : Heap) → sort_into items xs ≡ sort_into items ys
unfolding sort_into
sort_into-perm Permᴰ.nil items = refl
sort_into-perm (Permᴰ.cons {a = a} {b = b} {l₁ = l} e p) items =
    ap (λ x. sort_into (push x items) l) e ∙ sort_into-perm p (push b items)
sort_into-perm (Permᴰ.swap {a = a} {b = b} {l = l} e f) items =
    ap (λ t. sort_into t l) (push-push b a items ∙ (λ i. push (e i) (push (f i) items)))
sort_into-perm (Permᴰ.trans p q) items = sort_into-perm p items ∙ sort_into-perm q items

-- None of the first `n` items is behind the given one, and there are so many.
abbrev Covers : ℕ → SortItem → Heap → Type 0
Covers zero b items = Unit
Covers (suc n) b [] = ⊥
Covers (suc n) b (z ∷ items) = (item_lt b z ≡ false) × Covers n b items

Covers-push-take :
    (n : ℕ) (b : SortItem) (items : Heap) → Covers n b items → take n (push b items) ≡ take n items
Covers-push-take zero b items c = refl
Covers-push-take (suc n) b [] c = absurd c
Covers-push-take (suc n) b (z ∷ items) c =
    ap (take (suc n)) (push_later b z items c.0) ∙ ap (λ t. z ∷ t) (Covers-push-take n b items c.1)

Covers-push :
    (n : ℕ) (b x : SortItem) (items : Heap)
    → item_lt b x ≡ false
    → Covers n b items
    → Covers (suc n) b (push x items)
unfolding push
Covers-push zero b x [] h c = (h, tt)
Covers-push (suc n) b x [] h c = absurd c
Covers-push zero b x (z ∷ items) h c = elim (Bool-cases (item_lt x z)) [
  | inl less ↦ rw less (h, tt)
  | inr later ↦ rw later (not_lt_trans z x b later h, tt)
]
Covers-push (suc n) b x (z ∷ items) h c = elim (Bool-cases (item_lt x z)) [
  | inl less ↦ rw less (h, c)
  | inr later ↦ rw later (c.0, Covers-push n b x items h c.1)
]

Covers-less : (n : ℕ) (b : SortItem) (items : Heap) → Covers (suc n) b items → Covers n b items
Covers-less n b [] c = absurd c
Covers-less zero b (z ∷ items) c = tt
Covers-less (suc n) b (z ∷ items) c = (c.0, Covers-less n b items c.1)

All-Covers-push :
    (n : ℕ) (x : SortItem) (items bs : Heap)
    → All (λ b. Covers n b items) bs
    → All (λ b. item_lt b x ≡ false) bs
    → All (λ b. Covers (suc n) b (push x items)) bs
All-Covers-push n x items [] c h = tt
All-Covers-push n x items (b ∷ bs) c h =
    (Covers-push n b x items h.0 c.0, All-Covers-push n x items bs c.1 h.1)

All-Covers-less :
    (n : ℕ) (items bs : Heap)
    → All (λ b. Covers (suc n) b items) bs
    → All (λ b. Covers n b items) bs
All-Covers-less n items [] c = tt
All-Covers-less n items (b ∷ bs) c = (Covers-less n b items c.0, All-Covers-less n items bs c.1)

-- Of items in order, those that come after the first `k + n` in all do not show among these.
sort_into-take :
    (k n : ℕ) (items bs : Heap)
    → IsSorted bs
    → All (λ b. Covers n b items) bs
    → take (k + n) (sort_into items (take k bs)) ≡ take (k + n) (sort_into items bs)
unfolding sort_into
sort_into-take zero n items [] s c = refl
sort_into-take (suc k) n items [] s c = refl
sort_into-take zero n items (b ∷ bs) s c =
    let plain : 0 + n ≡ n = omega arith in
    let rest : take n (push b items) ≡ take n (sort_into (push b items) bs) = rw plain at (
      sort_into-take zero n (push b items) bs s.1
        (All-Covers-less n (push b items) bs (All-Covers-push n b items bs c.1 s.0))) in
    rw plain (sym (Covers-push-take n b items c.0) ∙ rest)
sort_into-take (suc k) n items (b ∷ bs) s c =
    let more : suc k + n ≡ k + suc n = omega arith in
    rw more (sort_into-take k (suc n) (push b items) bs s.1 (All-Covers-push n b items bs c.1 s.0))

sort_into_nil : (items : Heap) → sort_into items [] ≡ items
unfolding sort_into
sort_into_nil items = refl

none_covered : (items bs : Heap) → All (λ b. Covers zero b items) bs
none_covered items [] = tt
none_covered items (b ∷ bs) = (tt, none_covered items bs)

-- Two bounded heaps joined are the bounded heap of all items.
pub push_all-merge :
    (most : ℕ) (xs ys : List SortItem) (drained : Heap)
    → Permᴰ drained (take most (sort_into [] ys))
    → push_all most (take most (sort_into [] xs)) drained ≡ take most (sort_into [] (xs ++ ys))
push_all-merge most xs ys drained p =
    let left = sort_into [] xs in
    let plain : most + 0 ≡ most = omega arith in
    let cut : take most (sort_into left (take most (sort_into [] ys)))
        ≡ take most (sort_into left (sort_into [] ys)) =
      rw plain at (
        sort_into-take most 0 left (sort_into [] ys) (sort_into-IsSorted [] ys tt)
          (none_covered left (sort_into [] ys))) in
    push_all-take most left drained (sort_into-IsSorted [] xs tt)
    ∙ ap (take most) (sort_into-perm p left)
    ∙ cut
    ∙ ap (take most) (
        sort_into-sorted left [] ys
        ∙ ap (λ t. sort_into t ys) (sort_into_nil left)
        ∙ sym (sort_into-append [] xs ys))
