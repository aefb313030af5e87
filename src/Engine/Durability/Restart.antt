-- ===== src/Engine/Durability/Restart.antt =====
-- What operations that succeed leave in the log, also those that may have nothing to do.
use molten_db.Prelude.{
  ◌≡◌, refl, ◌⊎◌, inl, inr, Bool, ℕ, zero, suc, Option, none, some, List, [], ◌∷◌, Bytes, Str,
  str_eq, map,
}
use molten_db.Prelude.Map
use molten_db.Prelude.Map.{Map}
use molten_db.Json.{Value}
use molten_db.Engine.Types.{Result, ok}
use molten_db.Engine.Op.{pure}
use molten_db.Engine.State.{World, Db}
use molten_db.Engine.Delete.{
  delete, delete_some, delete_filtered, delete_n, limited, sort_by_seq, matches, oldest_or_newest,
}
use molten_db.Engine.Durability.Transaction.{Succeeds, Succeeds-ok, Succeeds-bind, Committed}
use molten_db.Engine.Durability.Operations.{delete-Committed}

module _ (compiles : Value → Bool) (now : ℕ) (w : World) (at : ℕ) (tx c : Str) (db : Db) where
  abbrev pub Moves : Db → Type 0
  Moves db' = Committed compiles now db db' ⊎ (db ≡ db')

  delete_some-Moves : (keys : List Str) → Succeeds Moves (delete_some w at tx c keys db)
  unfolding delete_some
  delete_some-Moves [] = inr refl
  delete_some-Moves (k ∷ ks) =
      Succeeds-bind Moves (Committed compiles now db) (delete w at tx c (k ∷ ks) db) _
        (delete-Committed compiles now w at tx c (k ∷ ks) db) (λ _ db' h. inl h)

  filtered-Moves :
      (predicate : Str → Bytes → Bool) (count_limit : Option ℕ) (asc : Bool)
      → Succeeds Moves (delete_filtered w at tx c predicate count_limit asc db)
  unfolding delete_filtered
  filtered-Moves predicate count_limit asc =
      elim (Map.get db.memory.state c)
        as (λ o. Succeeds Moves (elim o as (λ _. Result ℕ × Db) [
          | none ↦ pure 0 db
          | some col ↦
              delete_some w at tx c
                (limited count_limit
                  (map (λ p. p.1) (sort_by_seq asc (matches w.skip predicate col))))
                db
        ])) [ none ↦ inr refl | some col ↦ delete_some-Moves _ ]

  oldest-Moves : (n : ℕ) (asc : Bool) → Succeeds Moves (delete_n w at tx c n asc db)
  unfolding delete_n
  oldest-Moves zero asc = inr refl
  oldest-Moves (suc n) asc =
      elim (Map.get db.memory.state c)
        as (λ o. Succeeds Moves (elim o as (λ _. Result ℕ × Db) [
          | none ↦ pure 0 db
          | some col ↦ delete_some w at tx c (oldest_or_newest w c (suc n) asc col db) db
        ])) [ none ↦ inr refl | some col ↦ delete_some-Moves _ ]

  pub delete_filtered-Moves :
      (predicate : Str → Bytes → Bool) (count_limit : Option ℕ) (asc : Bool) (n : ℕ) (db' : Db)
      → delete_filtered w at tx c predicate count_limit asc db ≡ (ok n, db')
      → Moves db'
  delete_filtered-Moves predicate count_limit asc n db' h =
      Succeeds-ok Moves _ n db' h (filtered-Moves predicate count_limit asc)

  pub delete_n-Moves :
      (limit : ℕ) (asc : Bool) (n : ℕ) (db' : Db)
      → delete_n w at tx c limit asc db ≡ (ok n, db')
      → Moves db'
  delete_n-Moves limit asc n db' h = Succeeds-ok Moves _ n db' h (oldest-Moves limit asc)
