-- ===== src/Prelude/Strings.antt =====
-- Rust strings as the list of their UTF-8 bytes, with equality and the byte order of `str::cmp`.
use Prim.Native.Nat.{ℕ}
use Prim.Native.Char.{code}
use Prim.Native.String.{String}
use mathlib.Core.Path.{◌≡◌, refl}
use mathlib.Core.Logic.{◌↔◌}
use mathlib.Core.Bool.{Bool, true, false, ◌&&◌, ◌||◌}
use mathlib.Core.List.{List, [], ◌∷◌}
use native.Mathlib.Omega.{arith}
use molten_db.Prelude.Tests.{nat_beq, ltb, Eq}

abbrev pub Bytes : Type 0
Bytes = List ℕ

abbrev pub Str : Type 0
Str = List ℕ

-- The bytes of an ASCII literal.
abbrev pub codes : String → Str
codes String.[] = []
codes (String.◌∷◌ c s) = code c ∷ codes s

unfoldable pub str_beq : Str → Str → Bool
str_beq [] [] = true
str_beq [] (b ∷ t) = false
str_beq (a ∷ s) [] = false
str_beq (a ∷ s) (b ∷ t) = nat_beq a b && str_beq s t

pub str_beq→eq : (s t : Str) → str_beq s t ≡ true → s ≡ t
unfolding str_beq
str_beq→eq [] [] h = refl
str_beq→eq [] (b ∷ t) h = cc
str_beq→eq (a ∷ s) [] h = cc
str_beq→eq (a ∷ s) (b ∷ t) h = ground (arith, str_beq→eq s t)

pub str_beq_refl : (s : Str) → str_beq s s ≡ true
unfolding str_beq
str_beq_refl [] = refl
str_beq_refl (a ∷ s) = ground (arith, str_beq_refl s)

eq→str_beq : (s t : Str) → s ≡ t → str_beq s t ≡ true
eq→str_beq s t h = ground (arith, str_beq_refl s)

pub str_beq_iff : (s t : Str) → (str_beq s t ≡ true) ↔ (s ≡ t)
str_beq_iff s t = (str_beq→eq s t, eq→str_beq s t)

instance abbrev pub str_eq : Eq Str
str_eq = record { beq = str_beq; beq_iff = str_beq_iff }

-- `str::cmp` is the lexicographic order of the bytes.
unfoldable pub str_ltb : Str → Str → Bool
str_ltb s [] = false
str_ltb [] (b ∷ t) = true
str_ltb (a ∷ s) (b ∷ t) = ltb a b || (nat_beq a b && str_ltb s t)

pub str_ltb_irrefl : (s : Str) → str_ltb s s ≡ false
unfolding str_ltb
str_ltb_irrefl [] = refl
str_ltb_irrefl (a ∷ s) = ground (arith, str_ltb_irrefl s)

pub str_ltb_trans : (s t u : Str) → str_ltb s t ≡ true → str_ltb t u ≡ true → str_ltb s u ≡ true
unfolding str_ltb
str_ltb_trans s [] u h k = cc
str_ltb_trans s (b ∷ t) [] h k = cc
str_ltb_trans [] (b ∷ t) (c ∷ u) h k = refl
str_ltb_trans (a ∷ s) (b ∷ t) (c ∷ u) h k = ground (arith, str_ltb_trans s t u)

pub str_ltb_total : (s t : Str) → str_beq s t ≡ false → str_ltb s t ≡ false → str_ltb t s ≡ true
unfolding str_beq str_ltb
str_ltb_total [] [] h k = cc
str_ltb_total [] (b ∷ t) h k = cc
str_ltb_total (a ∷ s) [] h k = refl
str_ltb_total (a ∷ s) (b ∷ t) h k = ground (arith, str_ltb_total s t)
