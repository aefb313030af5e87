-- ===== src/Engine/Update.antt =====
-- `update` of moltendb-core/src/engine/operations/update.rs. It names the system fields as clients
-- do, while the documents in memory name them by their numbers.
use molten_db.Prelude.{
  ℕ, ◌+◌, ◌%◌, ◌^◌, Bool, true, false, not, ◌||◌, Option, none, some, Str, str_beq, nat_beq, get_or,
  if◌then◌else◌,
}
use molten_db.Json.{Value, object, Fields, end, field}
use molten_db.Json.Object
use molten_db.Codec.SystemFields
use molten_db.Wal.Command
use molten_db.Wal.Replay.{put_document}
use molten_db.Engine.Types.{conflict, change}
use molten_db.Engine.Op.{Op, pure, fail, gets, modify, ◌>>=◌, ◌>>◌}
use molten_db.Engine.State.{World, Db, new_entry, write_entry, send, begin, commit, set_memory}
use molten_db.Engine.Schema.{validate_document}
use molten_db.Engine.Documents.{u64, get_u64, decoded}

-- The loop over the fields of the update.
unfoldable pub merge : Fields → Fields → Fields
merge end doc = doc
merge (field k v updates) doc = merge updates (
    if str_beq k SystemFields.version || str_beq k SystemFields.created_at
    then doc
    else Object.insert k v doc)

-- `update_obj.get("_v")` is a number other than the version of the document.
unfoldable pub guard_fails : Option ℕ → ℕ → Bool
guard_fails none existing_v = false
guard_fails (some guard_v) existing_v = not (nat_beq guard_v existing_v)

abbrev pub existing_version : Value → ℕ
existing_version doc = get_or (get_u64 doc SystemFields.ikey_version) 0

unfoldable pub merge_into : ℕ → ℕ → Fields → Value → Value
unfolding merge
merge_into now existing_v updates (object fs) = object (
    Object.insert SystemFields.modified_at (u64 now)
      (Object.insert SystemFields.version (u64 ((existing_v + 1) % 2 ^ 64)) (merge updates fs)))
merge_into now existing_v updates doc = doc

-- What is not an object neither guards nor changes anything.
unfoldable pub updated : ℕ → Value → Value → Op Db Value
unfolding guard_fails merge_into
updated now (object updates) doc =
    if guard_fails (get_u64 (object updates) SystemFields.version) (existing_version doc)
    then fail conflict
    else pure (merge_into now (existing_version doc) updates doc)
updated now _ doc = pure doc

-- The steps of `update` after the validation.
unfoldable pub store_update : World → ℕ → Str → Str → Str → Value → Op Db Bool
unfolding put_document new_entry write_entry commit send
store_update w now tx c key v = do
  modify λ db. set_memory (put_document c key v db.memory) db
  write_entry w (new_entry now Command.ikey_insert c key v)
  commit w now c tx
  send (change c key (some (get_or (get_u64 v SystemFields.version) 0)) none)
  pure true

-- The rest of `update`, for the document if it was found.
unfoldable pub update_found : World → ℕ → Str → Str → Str → Value → Option Value → Op Db Bool
unfolding updated validate_document store_update commit
update_found w now tx c key updates none = do commit w now c tx; pure false
update_found w now tx c key updates (some doc) = do
  v ← updated now updates doc
  validate_document w c v
  store_update w now tx c key v

unfoldable pub update : World → ℕ → Str → Str → Str → Value → Op Db Bool
unfolding begin decoded update_found
update w now tx c key updates = do
  begin w now c tx
  doc ← gets λ db. decoded db.memory.state c key
  update_found w now tx c key updates doc
