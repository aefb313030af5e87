-- ===== src/Engine/SeqIndex.antt =====
-- `BTreeMap<u64, String>`: the entries in the order of their sequence numbers.
pub mod Order
use molten_db.Prelude.{ℕ, List, [], ◌∷◌, Option, none, some, Str, ltb, nat_beq, if◌then◌else◌}

abbrev pub SeqIndex : Type 0
SeqIndex = List (ℕ × Str)

unfoldable pub insert : ℕ → Str → SeqIndex → SeqIndex
insert s k [] = (s, k) ∷ []
insert s k ((t, j) ∷ m) =
    if nat_beq t s
    then (t, k) ∷ m
    else if ltb s t
    then (s, k) ∷ (t, j) ∷ m
    else (t, j) ∷ insert s k m

unfoldable pub remove : ℕ → SeqIndex → SeqIndex
remove s [] = []
remove s ((t, j) ∷ m) = if nat_beq t s then m else (t, j) ∷ remove s m

unfoldable pub get : SeqIndex → ℕ → Option Str
get [] s = none
get ((t, j) ∷ m) s = if nat_beq t s then some j else get m s
