-- ===== src/Engine/Durability/Operations.antt =====
-- Each operation on documents, if it succeeds, is one committed transaction.
use molten_db.Prelude.{
  ◌≡◌, refl, sym, ap, ◌∙◌, Bool, true, false, ℕ, Option, none, some, List, [], ◌∷◌, ◌++◌, Str,
  str_eq, codes, arith, str_beq_iff, inr, if◌then◌else◌,
}
use molten_db.Prelude.Map
use molten_db.Json.{Value, null, object}
use molten_db.Codec.SystemFields
use molten_db.Wal.Command
use molten_db.Wal.Entry.{LogEntry}
use molten_db.Wal.Replay.{Memory, apply_all, put_document, drop_collection}
use molten_db.Engine.Types.{DbError}
use molten_db.Engine.Op.{Op, pure, fail, for_each, ◌>>=◌}
use molten_db.Engine.State.{
  World, Db, new_entry, write_entry, send, set_memory, document, begin, commit,
}
use molten_db.Engine.Schema.{validate_document}
use molten_db.Engine.Documents.{decoded, get_u64}
use molten_db.Engine.Set.{insert_item, ensure_collection, insert}
use molten_db.Engine.Update.{
  guard_fails, existing_version, updated, store_update, update_found, update,
}
use molten_db.Engine.Delete.{delete_keys, delete, drop_state, delete_collection}
use molten_db.Engine.Durability.Steps.{
  insert-Logged, insert_item-Logged, delete_keys-Logged, validate_document-Succeeds,
}
use molten_db.Engine.Durability.Entries.{SameDocuments, apply_entry-drop}
use molten_db.Engine.Durability.Transaction.{
  Succeeds, Succeeds-bind, Succeeds-map, write_entry-Succeeds, Logged, Open, Open-Logged,
  begin-Succeeds, commit-Succeeds, Committed, for_each-Logged,
}

refuse-Succeeds :
    {A : Type 0} (P : Db → Type 0) (b : Bool) (e : DbError) (a : A) (db : Db)
    → P db
    → Succeeds P ((if b then fail e else pure a) db)
refuse-Succeeds P true e a db h = tt
refuse-Succeeds P false e a db h = h

updated-Succeeds :
    (P : Db → Type 0) (at : ℕ) (updates doc : Value) (db : Db)
    → P db
    → Succeeds P (updated at updates doc db)
unfolding updated
updated-Succeeds P at (object updates) doc db h =
    refuse-Succeeds P
      (guard_fails (get_u64 (object updates) SystemFields.version) (existing_version doc)) _ _ db h
updated-Succeeds P at _ doc db h = h

module _ (compiles : Value → Bool) (now : ℕ) where
  -- A transaction around steps that keep the log and the documents together.
  transaction-Committed :
      {A : Type 0} (w : World) (at : ℕ) (c t : Str) (m : Op Db A) (db db' : Db)
      → ((s : Db) → Succeeds (Logged compiles now s) (m s))
      → db'.wal ≡ db.wal
      → SameDocuments db'.memory db.memory
      → Succeeds
          (Committed compiles now db)
          ((begin w at c t >>= λ _. m >>= λ _. commit w at c t) db')
  transaction-Committed w at c t m db db' h hw hs =
      Succeeds-bind (Committed compiles now db) (Open compiles now t db) (begin w at c t db')
        (λ _. m >>= λ _. commit w at c t) (begin-Succeeds compiles now w at c t db db' hw hs)
        (λ _ s opened.
          Succeeds-bind (Committed compiles now db) (Open compiles now t db) (m s)
            (λ _. commit w at c t)
            (Succeeds-map (Logged compiles now s) (Open compiles now t db) (m s) (h s)
              (λ s' logged. Open-Logged compiles now t db s s' opened logged))
            (λ _ s' opened'. commit-Succeeds compiles now w at c t db s' opened'))

  ensure_collection-SameDocuments : (c : Str) (m : Memory) → SameDocuments (ensure_collection c m) m
  unfolding ensure_collection document Map.get
  ensure_collection-SameDocuments c m c' k' =
      ground (arith, Map.get-insert c c' [] m.state, str_beq_iff c c')

  pub insert-Committed :
      (w : World) (at : ℕ) (tx c : Str) (items : List (Str × Value)) (db : Db)
      → Succeeds (Committed compiles now db) (insert w at tx c items db)
  unfolding insert
  insert-Committed w at tx c items db =
      transaction-Committed w at c tx (for_each items (insert_item w at c)) db
        (set_memory (ensure_collection c db.memory) db)
        (for_each-Logged compiles now items (insert_item w at c)
          (insert_item-Logged compiles now w at c))
        refl (ensure_collection-SameDocuments c db.memory)

  pub delete-Committed :
      (w : World) (at : ℕ) (tx c : Str) (keys : List Str) (db : Db)
      → Succeeds (Committed compiles now db) (delete w at tx c keys db)
  unfolding delete
  delete-Committed w at tx c keys db =
      transaction-Committed w at c tx (delete_keys w at c keys) db db
        (delete_keys-Logged compiles now w at c keys) refl (λ c k. refl)

  store_update-Committed :
      (w : World) (at : ℕ) (tx c key : Str) (v : Value) (db s : Db)
      → Open compiles now tx db s
      → Succeeds (Committed compiles now db) (store_update w at tx c key v s)
  unfolding store_update send
  store_update-Committed w at tx c key v db s opened =
      let before : Db = set_memory (put_document c key v s.memory) s in
      let e : LogEntry = new_entry at Command.ikey_insert c key v in
      Succeeds-bind (Committed compiles now db) (Open compiles now tx db) (write_entry w e before) _
        (write_entry-Succeeds (Open compiles now tx db) w e before (
          Open-Logged compiles now tx db s (record before { wal = before.wal ++ e ∷ [] }) opened
            (insert-Logged compiles now s e (record before { wal = before.wal ++ e ∷ [] }) refl refl
              refl)))
        (λ _ s1 h1.
          Succeeds-bind (Committed compiles now db) (Committed compiles now db)
            (commit w at c tx s1) _ (commit-Succeeds compiles now w at c tx db s1 h1)
            (λ _ s2 h2. h2))

  update_found-Committed :
      (w : World) (at : ℕ) (tx c key : Str) (updates : Value) (doc : Option Value) (db s : Db)
      → Open compiles now tx db s
      → Succeeds (Committed compiles now db) (update_found w at tx c key updates doc s)
  unfolding update_found send
  update_found-Committed w at tx c key updates none db s opened =
      Succeeds-bind (Committed compiles now db) (Committed compiles now db) (commit w at c tx s)
        (λ _. pure false) (commit-Succeeds compiles now w at c tx db s opened) (λ _ s' h. h)
  update_found-Committed w at tx c key updates (some doc) db s opened =
      Succeeds-bind (Committed compiles now db) (Open compiles now tx db) (updated at updates doc s)
        _ (updated-Succeeds (Open compiles now tx db) at updates doc s opened)
        (λ v s1 h1.
          Succeeds-bind (Committed compiles now db) (Open compiles now tx db)
            (validate_document w c v s1) _
            (validate_document-Succeeds (Open compiles now tx db) w c v s1 h1)
            (λ _ s2 h2. store_update-Committed w at tx c key v db s2 h2))

  pub update-Committed :
      (w : World) (at : ℕ) (tx c key : Str) (updates : Value) (db : Db)
      → Succeeds (Committed compiles now db) (update w at tx c key updates db)
  unfolding update
  update-Committed w at tx c key updates db =
      Succeeds-bind (Committed compiles now db) (Open compiles now tx db) (begin w at c tx db) _
        (begin-Succeeds compiles now w at c tx db db refl (λ c k. refl))
        (λ _ s opened.
          update_found-Committed w at tx c key updates (decoded s.memory.state c key) db s opened)

  drop-Logged :
      (db : Db) (e : LogEntry) (db' : Db)
      → e.cmd ≡ Command.ikey_drop
      → db'.wal ≡ db.wal ++ e ∷ []
      → SameDocuments db'.memory (drop_collection e.collection db.memory)
      → Logged compiles now db db'
  unfolding apply_all
  drop-Logged db e db' hc hw hm = (
    e ∷ [],
    (inr (inr hc), tt),
    hw,
    λ c k.
        hm c k
        ∙ ap (λ m. document m.state c k) (sym (apply_entry-drop compiles now db.memory e hc)),
  )

  pub delete_collection-Committed :
      (w : World) (at : ℕ) (tx c : Str) (db : Db)
      → Succeeds (Committed compiles now db) (delete_collection w at tx c db)
  unfolding delete_collection drop_state new_entry send drop_collection
  delete_collection-Committed w at tx c db =
      let e : LogEntry = new_entry at Command.ikey_drop c (codes "*") null in
      Succeeds-bind (Committed compiles now db) (Open compiles now tx db) (begin w at c tx db) _
        (begin-Succeeds compiles now w at c tx db db refl (λ c k. refl))
        (λ _ s opened.
          Succeeds-bind (Committed compiles now db) (Open compiles now tx db)
            (write_entry w e (drop_state c s)) _
            (write_entry-Succeeds (Open compiles now tx db) w e (drop_state c s) (
              Open-Logged compiles now tx db s (record (drop_state c s) { wal = s.wal ++ e ∷ [] })
                opened
                (drop-Logged s e (record (drop_state c s) { wal = s.wal ++ e ∷ [] }) refl refl
                  (λ c k. refl))))
            (λ _ s1 h1.
              Succeeds-bind (Committed compiles now db) (Committed compiles now db)
                (commit w at c tx s1) _ (commit-Succeeds compiles now w at c tx db s1 h1)
                (λ _ s2 h2. h2)))
