-- ===== src/Engine/Op.antt =====
-- Operations that change the database and may fail. What was changed before a failure stays
-- changed, so the database comes back beside an error too.
use molten_db.Prelude.{List, [], ◌∷◌}
use molten_db.Engine.Types.{DbError, Result, ok, err}

abbrev pub Op {ℓ} : Type ℓ → Type ℓ → Type ℓ
Op S A = S → Result A × S

module _ {ℓ} {S A : Type ℓ} where
  abbrev pub pure : A → Op S A
  pure a s = (ok a, s)

  abbrev pub fail : DbError → Op S A
  fail e s = (err e, s)

  abbrev pub gets : (S → A) → Op S A
  gets f s = (ok (f s), s)

module _ {ℓ} {S A B : Type ℓ} where
  abbrev pub continue : Result A → (A → Op S B) → Op S B
  continue (ok a) f s = f a s
  continue (err e) f s = (err e, s)

  infixl 5 ◌>>=◌ ◌>>◌
  abbrev pub ◌>>=◌ : Op S A → (A → Op S B) → Op S B
  ◌>>=◌ m f s = let (r, s') = m s in continue r f s'

  abbrev pub ◌>>◌ : Op S A → Op S B → Op S B
  m >> n = m >>= λ _. n

abbrev pub modify : {S : Type 0} → (S → S) → Op S (Unit {0})
modify f s = (ok tt, f s)

-- `for x in xs { body(x)?; }`
unfoldable pub for_each : {S A : Type 0} → List A → (A → Op S (Unit {0})) → Op S (Unit {0})
for_each [] body = pure tt
for_each (x ∷ xs) body = let rest = for_each xs body in do body x; rest
