-- ===== src/Query/Nested/Paths.antt =====
-- A path has a first part.
use molten_db.Prelude.{◌≡◌, refl, List, [], ◌∷◌, Str, nat_beq, Bool-cases, inl, inr}
use molten_db.Query.Nested.{push_front, split_path}

push_front-cons :
    (parts : List Str) (f : Str → Str)
    → (part : Str) × (rest : List Str) × (push_front parts f ≡ part ∷ rest)
unfolding push_front
push_front-cons [] f = (f [], [], refl)
push_front-cons (part ∷ parts) f = (f part, parts, refl)

pub split_path-cons : (s : Str) → (part : Str) × (rest : List Str) × (split_path s ≡ part ∷ rest)
unfolding split_path
split_path-cons [] = ([], [], refl)
split_path-cons (c ∷ s) = elim (Bool-cases (nat_beq c b'.')) [
  | inl dot ↦ ([], split_path s, rw dot refl)
  | inr other ↦
      let (part, rest, e) = push_front-cons (split_path s) (λ p. c ∷ p) in (part, rest, rw other e)
]
