-- ===== src/Query/Bytes/Points.antt =====
-- Where a walk through bytes ends, against what it stands for in the value.
use mathlib.Core.Path.{subst⁻¹}
use molten_db.Prelude.{◌≡◌, refl, Option, none, some, ◌++◌, Bytes, ◌>>=◌}
use molten_db.Json.{Value}
use molten_db.Codec.Write.{write_value}

-- The bytes begin with the encoding of the value, or there are neither.
abbrev pub Points : Option Bytes → Option Value → Type 0
Points none none = Unit
Points (some bs) (some v) = (rest : Bytes) × (bs ≡ write_value v ++ rest)
Points _ _ = ⊥

pub Points-cong :
    (o o' : Option Bytes) (p p' : Option Value) → o ≡ o' → p ≡ p' → Points o' p' → Points o p
Points-cong o o' p p' e f h = subst⁻¹ (λ x. Points x p) e (subst⁻¹ (Points o') f h)

pub Points-chain :
    (o : Option Bytes) (p : Option Value) (f : Bytes → Option Bytes) (g : Value → Option Value)
    → Points o p
    → ((v : Value) (rest : Bytes) → p ≡ some v → Points (f (write_value v ++ rest)) (g v))
    → Points (o >>= f) (p >>= g)
Points-chain none none f g h k = tt
Points-chain none (some v) f g h k = absurd h
Points-chain (some bs) none f g h k = absurd h
Points-chain (some bs) (some v) f g (rest, e) k =
    subst⁻¹ (λ b. Points (f b) (g v)) e (k v rest refl)

pub Points-some : (o : Option Bytes) (p : Option Value) → Points o p → Points o (p >>= λ v. some v)
Points-some none none h = tt
Points-some none (some v) h = absurd h
Points-some (some bs) none h = absurd h
Points-some (some bs) (some v) h = h
