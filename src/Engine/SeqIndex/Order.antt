-- ===== src/Engine/SeqIndex/Order.antt =====
-- The index of sequence numbers is a map in order.
use molten_db.Prelude.{
  ◌≡◌, refl, ◌<◌, ℕ, none, some, [], ◌∷◌, Str, arith, nat_beq, ◌≤◌, ltb→lt, Bool-cases, inl, inr,
  ltb, if◌then◌else◌,
}
use molten_db.Engine.SeqIndex.{SeqIndex, insert, remove, get}

abbrev pub Above : ℕ → SeqIndex → Type 0
Above s [] = Unit
Above s ((t, k) ∷ m) = (s < t) × Above s m

abbrev pub IsSorted : SeqIndex → Type 0
IsSorted [] = Unit
IsSorted ((s, k) ∷ m) = Above s m × IsSorted m

Above-trans : (s t : ℕ) (m : SeqIndex) → s < t → Above t m → Above s m
Above-trans s t [] l h = tt
Above-trans s t ((u, k) ∷ m) l h = (omega (arith, l, h.0), Above-trans s t m l h.1)

insert-Above : (r s : ℕ) (k : Str) (m : SeqIndex) → r < s → Above r m → Above r (insert s k m)
unfolding insert
insert-Above r s k [] l h = (l, tt)
insert-Above r s k ((t, j) ∷ m) l h = elim (Bool-cases (nat_beq t s)) [
  | inl e ↦ rw e (h.0, h.1)
  | inr e ↦ elim (Bool-cases (ltb s t)) [
    | inl g ↦ rw (e, g) (l, h)
    | inr g ↦ rw (e, g) (h.0, insert-Above r s k m l h.1)
  ]
]

-- An insertion keeps the index in order.
insert-IsSorted : (s : ℕ) (k : Str) (m : SeqIndex) → IsSorted m → IsSorted (insert s k m)
unfolding insert
insert-IsSorted s k [] h = (tt, tt)
insert-IsSorted s k ((t, j) ∷ m) h = elim (Bool-cases (nat_beq t s)) [
  | inl e ↦ rw e (h.0, h.1)
  | inr e ↦ elim (Bool-cases (ltb s t)) [
    | inl g ↦ rw (e, g) ((ltb→lt s t g, Above-trans s t m (ltb→lt s t g) h.0), (h.0, h.1))
    | inr g ↦ rw (e, g) (insert-Above t s k m (ground (arith, e, g)) h.0, insert-IsSorted s k m h.1)
  ]
]

get-Above : (s t : ℕ) (m : SeqIndex) → s ≤ t → Above t m → get m s ≡ none
unfolding get
get-Above s t [] l h = refl
get-Above s t ((u, k) ∷ m) l h = ground (arith, h.0, get-Above s t m l h.1)

remove-Above : (r s : ℕ) (m : SeqIndex) → Above r m → Above r (remove s m)
unfolding remove
remove-Above r s [] h = tt
remove-Above r s ((t, j) ∷ m) h = elim (Bool-cases (nat_beq t s)) [
  | inl e ↦ rw e h.1
  | inr e ↦ rw e (h.0, remove-Above r s m h.1)
]

remove-IsSorted : (s : ℕ) (m : SeqIndex) → IsSorted m → IsSorted (remove s m)
unfolding remove
remove-IsSorted s [] h = tt
remove-IsSorted s ((t, j) ∷ m) h = elim (Bool-cases (nat_beq t s)) [
  | inl e ↦ rw e h.1
  | inr e ↦ rw e (remove-Above t s m h.0, remove-IsSorted s m h.1)
]

get-insert :
    (s t : ℕ) (k : Str) (m : SeqIndex)
    → get (insert s k m) t ≡ (if nat_beq s t then some k else get m t)
unfolding get insert
get-insert s t k [] = refl
get-insert s t k ((u, j) ∷ m) = ground (arith, get-insert s t k m)

get-remove :
    (s t : ℕ) (m : SeqIndex)
    → IsSorted m
    → get (remove s m) t ≡ (if nat_beq s t then none else get m t)
unfolding get remove
get-remove s t [] h = ground arith
get-remove s t ((u, j) ∷ m) h =
    ground (arith, get-remove s t m h.1, get-Above u u m (omega arith) h.0)

-- Of an index in order: an insertion and a removal keep the order, and change what is found under
-- their number and nothing else.
pub index-IsSorted :
    (s : ℕ) (k : Str) (m : SeqIndex)
    → IsSorted m
    → IsSorted (insert s k m)
      × IsSorted (remove s m)
      × ((t : ℕ) → get (insert s k m) t ≡ (if nat_beq s t then some k else get m t))
      × ((t : ℕ) → get (remove s m) t ≡ (if nat_beq s t then none else get m t))
index-IsSorted s k m h = (
  insert-IsSorted s k m h,
  remove-IsSorted s m h,
  (λ t. get-insert s t k m),
  λ t. get-remove s t m h,
)
