-- ===== src/Engine/Behaviour/Guard.antt =====
-- The version guard of `update`, and updates of what is not there.
use mathlib.Core.Path.{subst⁻¹}
use molten_db.Prelude.{
  ◌≡◌, ◌≢◌, refl, ap, ◌∙◌, ℕ, ◌+◌, ◌%◌, ◌^◌, Bool, true, false, Option, none, some, List, [], ◌∷◌,
  ◌++◌, Str, str_eq, str_beq, str_beq_refl, nat_beq, nat_beq_iff, Bool-cases, inl, inr,
}
use molten_db.Prelude.Map
use molten_db.Json.Object
use molten_db.Json.Numeric
use molten_db.Codec.Write.{value_to_msgpack}
use molten_db.Wal.Entry.{LogEntry}
use molten_db.Wal.Replay.{put_document}
use molten_db.Engine.Schema.{validate_document}
use molten_db.Engine.Durability.Documents.{document-put_document}
use molten_db.Json.{Value, object, null, Fields}
use molten_db.Codec.SystemFields
use molten_db.Wal.Command
use molten_db.Wal.Replay.Transactions.{stream_into_state-unfinished}
use molten_db.Wal.Replay.{empty}
use molten_db.Engine.Types.{ok, err, conflict}
use molten_db.Engine.State.{World, Db, begin, commit, send, write_entry, new_entry, document}
use molten_db.Engine.Documents.{u64, get_u64, decoded}
use molten_db.Engine.Update.{
  update, update_found, updated, guard_fails, existing_version, merge_into, store_update,
}
use molten_db.Engine.Durability.Transaction.{IsDurable}

module _ (w : World) (at : ℕ) (tx c key : Str) (updates : Fields) (doc : Value) (db : Db)
    (found : decoded db.memory.state c key ≡ some doc)
    (stale : guard_fails (get_u64 (object updates) SystemFields.version) (existing_version doc)
      ≡ true)
    (accepted : w.accepts db.wal (new_entry at Command.ikey_tx_begin c tx null) ≡ true) where
  conflict_step : update w at tx c key (object updates) db ≡ (
    err conflict,
    record db { wal = db.wal ++ new_entry at Command.ikey_tx_begin c tx null ∷ [] },
  )
  unfolding update begin write_entry update_found updated new_entry
  conflict_step = rw (accepted, found, stale)

  -- After an update that ends in a conflict, a replay of the entries that were written finds the
  -- documents in memory, if it did before: the transaction that stays open in the log does no harm.
  pub update-conflict-IsDurable :
      (compiles : Value → Bool) (now : ℕ)
      → IsDurable compiles now db
      → IsDurable compiles now (update w at tx c key (object updates) db).1
  unfolding new_entry
  update-conflict-IsDurable compiles now d =
      subst⁻¹ (IsDurable compiles now) (ap (λ r. r.1) conflict_step) (λ c' k'.
        ap (λ m. document m.state c' k')
          (stream_into_state-unfinished compiles now empty db.wal tx
            (new_entry at Command.ikey_tx_begin c tx null) [] (refl, refl) tt)
        ∙ d c' k')

pub merge_into-version :
    (at v : ℕ) (updates fs : Fields)
    → get_u64 (merge_into at v updates (object fs)) SystemFields.version ≡ some ((v + 1) % 2 ^ 64)
unfolding merge_into Object.lookup Object.as_u64 Numeric.as_u64 str_beq
merge_into-version at v updates fs = rw (
  Object.get-insert SystemFields.modified_at SystemFields.version (u64 at),
  Object.get-insert SystemFields.version SystemFields.version (u64 ((v + 1) % 2 ^ 64)),
)

module _ (w : World) (at : ℕ) (tx c key : Str) (updates fs : Fields) (g : ℕ) (db : Db)
    (found : decoded db.memory.state c key ≡ some (object fs))
    (guarded : get_u64 (object updates) SystemFields.version ≡ some g)
    (always : (log : List LogEntry) (e : LogEntry) → w.accepts log e ≡ true)
    (free : Map.get db.memory.schemas c ≡ none) where
  abbrev merged : Value
  merged = merge_into at (existing_version (object fs)) updates (object fs)

  guard_holds : (o : Option ℕ) (v : ℕ) → o ≡ some g → nat_beq g v ≡ true → guard_fails o v ≡ false
  unfolding guard_fails
  guard_holds o v e h = rw (e, guard_fails) (rw h refl)

  guard_breaks : (o : Option ℕ) (v : ℕ) → o ≡ some g → nat_beq g v ≡ false → guard_fails o v ≡ true
  unfolding guard_fails
  guard_breaks o v e h = rw (e, guard_fails) (rw h refl)

  updated_on :
      nat_beq g (existing_version (object fs)) ≡ true
      → ((update w at tx c key (object updates) db).0 ≡ ok true)
        × ((update w at tx c key (object updates) db).1.memory
            ≡ put_document c key merged db.memory)
  unfolding update begin write_entry update_found updated new_entry store_update commit send
      validate_document Map.get Map.insert
  updated_on same =
      let holds = guard_holds _ _ guarded same in
      rw (always db.wal _, found, holds, free, always _ _, always _ _) (refl, refl)

  found_under :
      document (put_document c key merged db.memory).state c key ≡ some (value_to_msgpack merged)
  found_under =
      rw (document-put_document c key merged db.memory c key, str_beq_refl c, str_beq_refl key) refl

  -- If an update of an object in memory carries a version number, where the log takes every entry and
  -- the collection has no schema: with any other number than the version of the document it ends in a
  -- conflict, and nothing but the log has changed, by the entry that opens the transaction; with that
  -- number it succeeds, and under the key is then the encoding of an object whose version is the next
  -- one (modulo 2^64).
  pub update-version :
      (g ≢ existing_version (object fs)
        → update w at tx c key (object updates) db ≡ (
          err conflict,
          record db { wal = db.wal ++ new_entry at Command.ikey_tx_begin c tx null ∷ [] },
        ))
      × (g ≡ existing_version (object fs)
          → ((update w at tx c key (object updates) db).0 ≡ ok true)
            × (v : Value) × (document
                  (update w at tx c key (object updates) db).1.memory.state
                  c
                  key
                ≡ some (value_to_msgpack v))
            × (get_u64 v SystemFields.version ≡ some ((existing_version (object fs) + 1) % 2 ^ 64)))
  update-version = (
    λ other.
        conflict_step w at tx c key updates (object fs) db found
          (guard_breaks _ _ guarded (elim (Bool-cases (nat_beq g (existing_version (object fs)))) [
            | inl h ↦ absurd (other ((nat_beq_iff g _).0 h))
            | inr h ↦ h
          ]))
          (always db.wal _),
    λ same.
        let (done, moved) = updated_on ((nat_beq_iff g _).1 same) in
        (
          done,
          merged,
          ap (λ m. document m.state c key) moved ∙ found_under,
          merge_into-version at (existing_version (object fs)) updates fs,
        ),
  )
