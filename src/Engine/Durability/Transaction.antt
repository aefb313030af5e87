-- ===== src/Engine/Durability/Transaction.antt =====
-- How an operation that succeeds moves the log and the documents together.
use mathlib.Core.Path.{subst}
use mathlib.Core.List.{append_assoc, append-nil}
use molten_db.Prelude.{
  ◌≡◌, refl, sym, ap, ◌∙◌, Bool, true, false, ℕ, List, [], ◌∷◌, ◌++◌, Str, All, if◌then◌else◌,
}
use molten_db.Json.{Value, null}
use molten_db.Wal.Command
use molten_db.Wal.Entry.{LogEntry}
use molten_db.Wal.Replay.{Memory, apply_all, empty, stream_into_state}
use molten_db.Wal.Replay.Transactions.{Begins, Commits}
use molten_db.Engine.Types.{DbError, Result, ok, err}
use molten_db.Engine.Op.{Op, continue, for_each}
use molten_db.Engine.State.{World, Db, write_entry, new_entry, begin, commit, document}
use molten_db.Engine.Durability.Entries.{
  SameDocuments, IsWrite, All-append, apply_all-SameDocuments, apply_all-append,
}

-- What holds of the state, if there is no error.
abbrev pub Succeeds : {A : Type 0} → (Db → Type 0) → Result A × Db → Type 0
Succeeds P (ok a, db) = P db
Succeeds P (err e, db) = Unit

pub Succeeds-bind :
    {A B : Type 0} (P Q : Db → Type 0) (r : Result A × Db) (f : A → Op Db B)
    → Succeeds Q r
    → ((a : A) (db : Db) → Q db → Succeeds P (f a db))
    → Succeeds P (continue r.0 f r.1)
Succeeds-bind P Q (ok a, db) f h k = k a db h
Succeeds-bind P Q (err e, db) f h k = tt

pub Succeeds-ok :
    {A : Type 0} (P : Db → Type 0) (r : Result A × Db) (a : A) (db : Db)
    → r ≡ (ok a, db)
    → Succeeds P r
    → P db
Succeeds-ok P r a db h s = subst (Succeeds P) h s

pub Succeeds-map :
    {A : Type 0} (P Q : Db → Type 0) (r : Result A × Db)
    → Succeeds P r
    → ((db : Db) → P db → Q db)
    → Succeeds Q r
Succeeds-map P Q (ok a, db) h f = f db h
Succeeds-map P Q (err e, db) h f = tt

Succeeds-if :
    {A : Type 0} (P : Db → Type 0) (b : Bool) (a : A) (e : DbError) (db db' : Db)
    → P db
    → Succeeds P (if b then (ok a, db) else (err e, db'))
Succeeds-if P true a e db db' h = h
Succeeds-if P false a e db db' h = tt

pub write_entry-Succeeds :
    (P : Db → Type 0) (w : World) (e : LogEntry) (db : Db)
    → P (record db { wal = db.wal ++ e ∷ [] })
    → Succeeds P (write_entry w e db)
unfolding write_entry
write_entry-Succeeds P w e db h = Succeeds-if P (w.accepts db.wal e) tt _ _ db h

module _ (compiles : Value → Bool) (now : ℕ) where
  -- Entries were written, and the documents are what they make of the documents before.
  abbrev pub Logged : Db → Db → Type 0
  Logged db db' =
      (body : List LogEntry) × All IsWrite body
      × (db'.wal ≡ db.wal ++ body)
      × SameDocuments db'.memory (apply_all compiles now db.memory body)

  pub Logged-refl : (db : Db) → Logged db db
  unfolding apply_all
  Logged-refl db = ([], tt, sym (append-nil db.wal), λ c k. refl)

  SameDocuments-append :
      (m m' m'' : Memory) (xs ys : List LogEntry)
      → All IsWrite ys
      → SameDocuments m' (apply_all compiles now m xs)
      → SameDocuments m'' (apply_all compiles now m' ys)
      → SameDocuments m'' (apply_all compiles now m (xs ++ ys))
  SameDocuments-append m m' m'' xs ys hy sx sy c k =
      sy c k
      ∙ apply_all-SameDocuments compiles now ys m' (apply_all compiles now m xs) hy sx c k
      ∙ sym (ap (λ n. document n.state c k) (apply_all-append compiles now m xs ys))

  pub Logged-trans : (db db' db'' : Db) → Logged db db' → Logged db' db'' → Logged db db''
  Logged-trans db db' db'' (xs, hx, wx, sx) (ys, hy, wy, sy) = (
    xs ++ ys,
    All-append IsWrite xs ys (hx, hy),
    wy ∙ ap (λ l. l ++ ys) wx ∙ append_assoc db.wal xs ys,
    SameDocuments-append db.memory db'.memory db''.memory xs ys hy sx sy,
  )

  -- The log ends in a transaction that is open, whose entries made the documents what they are.
  abbrev pub Open : Str → Db → Db → Type 0
  Open t db db' =
      (b : LogEntry) × (body : List LogEntry) × Begins t b
      × All IsWrite body
      × (db'.wal ≡ db.wal ++ b ∷ body)
      × SameDocuments db'.memory (apply_all compiles now db.memory body)

  -- The same, and the transaction is committed.
  abbrev pub Committed : Db → Db → Type 0
  Committed db db' =
      (t : Str) × (b : LogEntry) × (c : LogEntry) × (body : List LogEntry) × Begins t b
      × Commits t c
      × All IsWrite body
      × (db'.wal ≡ db.wal ++ b ∷ (body ++ c ∷ []))
      × SameDocuments db'.memory (apply_all compiles now db.memory body)

  -- A replay of the entries as they were given to the storage finds the documents that are in memory.
  abbrev pub IsDurable : Db → Type 0
  IsDurable db = SameDocuments (stream_into_state compiles now empty db.wal) db.memory

  pub Open-Logged : (t : Str) (db db' db'' : Db) → Open t db db' → Logged db' db'' → Open t db db''
  Open-Logged t db db' db'' (b, xs, hb, hx, wx, sx) (ys, hy, wy, sy) = (
    b,
    xs ++ ys,
    hb,
    All-append IsWrite xs ys (hx, hy),
    wy ∙ ap (λ l. l ++ ys) wx ∙ append_assoc db.wal (b ∷ xs) ys,
    SameDocuments-append db.memory db'.memory db''.memory xs ys hy sx sy,
  )

  pub begin-Succeeds :
      (w : World) (at : ℕ) (c t : Str) (db db' : Db)
      → db'.wal ≡ db.wal
      → SameDocuments db'.memory db.memory
      → Succeeds (Open t db) (begin w at c t db')
  unfolding begin new_entry apply_all
  begin-Succeeds w at c t db db' hw hs =
      let e : LogEntry = new_entry at Command.ikey_tx_begin c t null in
      write_entry-Succeeds (Open t db) w e db'
        (e, [], (refl, refl), tt, ap (λ l. l ++ e ∷ []) hw, hs)

  pub commit-Succeeds :
      (w : World) (at : ℕ) (c t : Str) (db db' : Db)
      → Open t db db'
      → Succeeds (Committed db) (commit w at c t db')
  unfolding commit new_entry
  commit-Succeeds w at c t db db' (b, xs, hb, hx, wx, sx) =
      let e : LogEntry = new_entry at Command.ikey_tx_commit c t null in
      write_entry-Succeeds (Committed db) w e db' (
        t,
        b,
        e,
        xs,
        hb,
        (refl, refl),
        hx,
        ap (λ l. l ++ e ∷ []) wx ∙ append_assoc db.wal (b ∷ xs) (e ∷ []),
        sx,
      )

  pub for_each-Logged :
      {A : Type 0} (xs : List A) (body : A → Op Db (Unit {0}))
      → ((x : A) (db : Db) → Succeeds (Logged db) (body x db))
      → (db : Db) → Succeeds (Logged db) (for_each xs body db)
  unfolding for_each
  for_each-Logged [] body h db = Logged-refl db
  for_each-Logged (x ∷ xs) body h db =
      Succeeds-bind (Logged db) (Logged db) (body x db) (λ _. for_each xs body) (h x db)
        λ _ db' hx.
          Succeeds-map (Logged db') (Logged db) (for_each xs body db')
            (for_each-Logged xs body h db') (λ db'' hy. Logged-trans db db' db'' hx hy)
