-- ===== src/Engine/Durability/Steps.antt =====
-- The steps of the operations inside their transactions move the log and the documents together.
use molten_db.Prelude.{
  ◌≡◌, refl, sym, ap, ◌∙◌, Bool, true, false, ℕ, Option, none, some, List, [], ◌∷◌, ◌++◌, Str,
  str_eq, codes, arith, inl, inr, if◌then◌else◌, get_or,
}
use molten_db.Prelude.Map
use molten_db.Json.{Value, null}
use molten_db.Codec.SystemFields
use molten_db.Wal.Command
use molten_db.Wal.Entry.{LogEntry}
use molten_db.Wal.Replay.{apply_all, put_document, remove_document}
use molten_db.Engine.Types.{Result, DbError, schema_validation_error}
use molten_db.Engine.Op.{pure, fail, for_each}
use molten_db.Engine.State.{
  World, Db, new_entry, write_entry, send, set_memory, next_seq, index_insert, index_remove,
  document,
}
use molten_db.Engine.Schema.{validate_document}
use molten_db.Engine.Documents.{decoded, get_u64}
use molten_db.Engine.Set.{store_item, insert_item, stamp_value, must_validate}
use molten_db.Engine.Delete.{unindex, delete_key, delete_keys}
use molten_db.Engine.Durability.Entries.{apply_entry-insert, apply_entry-delete}
use molten_db.Engine.Durability.Transaction.{
  Succeeds, Succeeds-bind, Succeeds-map, write_entry-Succeeds, Logged, Logged-refl, for_each-Logged,
}

check-Succeeds :
    (P : Db → Type 0) (b : Bool) (e : DbError) (db : Db)
    → P db
    → Succeeds P ((if b then pure tt else fail e) db)
check-Succeeds P true e db h = h
check-Succeeds P false e db h = tt

-- A validation changes nothing.
pub validate_document-Succeeds :
    (P : Db → Type 0) (w : World) (c : Str) (v : Value) (db : Db)
    → P db
    → Succeeds P (validate_document w c v db)
unfolding validate_document
validate_document-Succeeds P w c v db h =
    elim (Map.get db.memory.schemas c)
      as (λ o. Succeeds P (elim o as (λ _. Result (Unit {0}) × Db) [
        | none ↦ pure tt db
        | some schema ↦
            (if w.conforms schema v
                then pure tt
                else fail (schema_validation_error (codes "Document does not conform to schema")))
              db
      ])) [ none ↦ h | some schema ↦ check-Succeeds P (w.conforms schema v) _ db h ]

unindex-wal : (w : World) (c key : Str) (db : Db) → (unindex w c key db).wal ≡ db.wal
unfolding unindex index_remove
unindex-wal w c key db = ground arith

pub unindex-memory : (w : World) (c key : Str) (db : Db) → (unindex w c key db).memory ≡ db.memory
unfolding unindex index_remove
unindex-memory w c key db = ground arith

module _ (compiles : Value → Bool) (now : ℕ) where
  validation :
      (b : Bool) (w : World) (c : Str) (v : Value) (db : Db)
      → Succeeds (λ s. s ≡ db) ((if b then validate_document w c v else pure tt) db)
  validation true w c v db = validate_document-Succeeds (λ s. s ≡ db) w c v db refl
  validation false w c v db = refl

  -- Only the log and the documents of the state before matter.
  pub same_start :
      {A : Type 0} (db s : Db) (r : Result A × Db)
      → s.wal ≡ db.wal
      → s.memory ≡ db.memory
      → Succeeds (Logged compiles now s) r
      → Succeeds (Logged compiles now db) r
  same_start db s r hw hm h =
      Succeeds-map (Logged compiles now s) (Logged compiles now db) r h (λ s' (body, hb, hl, hd). (
        body,
        hb,
        hl ∙ ap (λ l. l ++ body) hw,
        λ c k. hd c k ∙ ap (λ m. document (apply_all compiles now m body).state c k) hm,
      ))

  -- An INSERT entry beside the document that it puts.
  pub insert-Logged :
      (db : Db) (e : LogEntry) (db' : Db)
      → e.cmd ≡ Command.ikey_insert
      → db'.wal ≡ db.wal ++ e ∷ []
      → db'.memory ≡ put_document e.collection e.key e.value db.memory
      → Logged compiles now db db'
  unfolding apply_all
  insert-Logged db e db' hc hw hm = (
    e ∷ [],
    (inl hc, tt),
    hw,
    λ c k.
        ap (λ m. document m.state c k) (hm ∙ sym (apply_entry-insert compiles now db.memory e hc)),
  )

  store_item-Logged :
      (w : World) (at : ℕ) (c key : Str) (v : Value) (seq : ℕ) (db : Db)
      → Succeeds (Logged compiles now db) (store_item w at c key v seq db)
  unfolding store_item new_entry index_insert send
  store_item-Logged w at c key v seq db =
      let before : Db =
        index_insert c (get_or (get_u64 v SystemFields.ikey_seq) seq) key
          (set_memory (put_document c key v db.memory) db) in
      let e : LogEntry = new_entry at Command.ikey_insert c key v in
      Succeeds-bind (Logged compiles now db) (Logged compiles now db) (write_entry w e before) _
        (write_entry-Succeeds (Logged compiles now db) w e before
          (insert-Logged db e (record before { wal = before.wal ++ e ∷ [] }) refl refl refl))
        (λ _ db' h. h)

  pub insert_item-Logged :
      (w : World) (at : ℕ) (c : Str) (item : Str × Value) (db : Db)
      → Succeeds (Logged compiles now db) (insert_item w at c item db)
  unfolding insert_item next_seq
  insert_item-Logged w at c (key, value) db =
      let seq : ℕ = get_or (Map.get db.seq_counters c) 0 in
      let counted : Db = (next_seq c db).1 in
      let existing : Option Value = decoded db.memory.state c key in
      let v : Value = stamp_value at seq existing value in
      Succeeds-bind (Logged compiles now db) (λ s. s ≡ counted)
        ((if must_validate existing v then validate_document w c v else pure tt) counted) _
        (validation (must_validate existing v) w c v counted)
        (λ _ s h.
          same_start db s (store_item w at c key v seq s) (ap (λ s. s.wal) h) (ap (λ s. s.memory) h)
            (store_item-Logged w at c key v seq s))

  delete-Logged :
      (db : Db) (e : LogEntry) (db' : Db)
      → e.cmd ≡ Command.ikey_delete
      → db'.wal ≡ db.wal ++ e ∷ []
      → db'.memory ≡ remove_document e.collection e.key db.memory
      → Logged compiles now db db'
  unfolding apply_all
  delete-Logged db e db' hc hw hm = (
    e ∷ [],
    (inr (inl hc), tt),
    hw,
    λ c k.
        ap (λ m. document m.state c k) (hm ∙ sym (apply_entry-delete compiles now db.memory e hc)),
  )

  delete_key-Logged :
      (w : World) (at : ℕ) (c key : Str) (db : Db)
      → Succeeds (Logged compiles now db) (delete_key w at c key db)
  unfolding delete_key new_entry send
  delete_key-Logged w at c key db =
      let unindexed : Db = unindex w c key db in
      let before : Db = set_memory (remove_document c key unindexed.memory) unindexed in
      let e : LogEntry = new_entry at Command.ikey_delete c key null in
      Succeeds-bind (Logged compiles now db) (Logged compiles now db) (write_entry w e before) _
        (write_entry-Succeeds (Logged compiles now db) w e before (
          delete-Logged db e (record before { wal = before.wal ++ e ∷ [] }) refl
            (ap (λ l. l ++ e ∷ []) (unindex-wal w c key db))
            (ap (remove_document c key) (unindex-memory w c key db))))
        (λ _ db' h. h)

  pub delete_keys-Logged :
      (w : World) (at : ℕ) (c : Str) (keys : List Str) (db : Db)
      → Succeeds (Logged compiles now db) (delete_keys w at c keys db)
  unfolding delete_keys
  delete_keys-Logged w at c keys db =
      elim (Map.get db.memory.state c)
        as (λ o. Succeeds (Logged compiles now db) (elim o as (λ _. Result (Unit {0}) × Db) [
          | none ↦ pure tt db
          | some col ↦ for_each keys (delete_key w at c) db
        ])) [
          | none ↦ Logged-refl compiles now db
          | some col ↦
              for_each-Logged compiles now keys (delete_key w at c) (delete_key-Logged w at c) db
        ]
