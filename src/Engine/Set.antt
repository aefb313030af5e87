-- ===== src/Engine/Set.antt =====
-- `insert` of moltendb-core/src/engine/operations/set.rs. The clock stands still during a call, and
-- the transaction's id is an argument.
use molten_db.Prelude.{
  ℕ, ◌+◌, ◌%◌, ◌^◌, Bool, true, false, Option, none, some, List, [], Str, str_eq, get_or,
  if◌then◌else◌,
}
use molten_db.Prelude.Map
use molten_db.Prelude.Map.{Map}
use molten_db.Json.{Value, object, Fields}
use molten_db.Json.Object
use molten_db.Codec.SystemFields
use molten_db.Wal.Command
use molten_db.Wal.Replay.{Memory, put_document}
use molten_db.Engine.Documents.{u64, get_u64, decoded}
use molten_db.Engine.Types.{change}
use molten_db.Engine.Op.{Op, pure, gets, modify, for_each, ◌>>=◌, ◌>>◌}
use molten_db.Engine.State.{
  World, Db, new_entry, write_entry, send, begin, commit, set_memory, next_seq, index_insert,
}
use molten_db.Engine.Schema.{validate_document}

-- The system fields of a document, in the order in which the source sets them.
unfoldable pub stamp : ℕ → ℕ → ℕ → ℕ → Fields → Fields
stamp version created modified seq fs = Object.insert SystemFields.ikey_seq (u64 seq) (
    Object.insert SystemFields.ikey_modified_at (u64 modified) (
      Object.insert SystemFields.ikey_created_at (u64 created)
        (Object.insert SystemFields.ikey_version (u64 version) fs)))

-- What is not an object stays as it is. `existing_v + 1` wraps, as it does in a release build.
unfoldable pub stamp_value : ℕ → ℕ → Option Value → Value → Value
unfolding stamp
stamp_value now seq none (object fs) = object (stamp 1 now now seq fs)
stamp_value now seq (some existing) (object fs) = object (
    stamp ((get_or (get_u64 existing SystemFields.ikey_version) 0 + 1) % 2 ^ 64)
      (get_or (get_u64 existing SystemFields.ikey_created_at) now) now
      (get_or (get_u64 existing SystemFields.ikey_seq) seq) fs)
stamp_value now seq existing v = v

unfoldable pub is_object : Value → Bool
is_object (object fs) = true
is_object _ = false

-- A document that replaces another is validated whatever it is, a new one if it is an object.
unfoldable pub must_validate : Option Value → Value → Bool
unfolding is_object
must_validate (some existing) v = true
must_validate none v = is_object v

-- The steps of `insert` on one item after its sequence number is drawn.
unfoldable pub store_item : World → ℕ → Str → Str → Value → ℕ → Op Db (Unit {0})
unfolding write_entry new_entry send put_document
store_item w now c key v seq = do
  modify λ db. set_memory (put_document c key v db.memory) db
  modify (index_insert c (get_or (get_u64 v SystemFields.ikey_seq) seq) key)
  write_entry w (new_entry now Command.ikey_insert c key v)
  send (
      change c key (some (get_or (get_u64 v SystemFields.ikey_version) 0))
        (get_u64 v SystemFields.ikey_expires_at))

unfoldable pub insert_item : World → ℕ → Str → Str × Value → Op Db (Unit {0})
unfolding next_seq decoded stamp_value must_validate validate_document store_item
insert_item w now c (key, value) = do
  seq ← next_seq c
  existing ← gets λ db. decoded db.memory.state c key
  let v = stamp_value now seq existing value
  if must_validate existing v then validate_document w c v else pure tt
  store_item w now c key v seq

-- `state.entry(collection).or_insert_with(DashMap::new)`
unfoldable pub ensure_collection : Str → Memory → Memory
ensure_collection c m = elim (Map.get m.state c) [
  | none ↦ record m { state = Map.insert c [] m.state }
  | some col ↦ m
]

unfoldable pub insert : World → ℕ → Str → Str → List (Str × Value) → Op Db (Unit {0})
unfolding ensure_collection begin commit for_each insert_item
insert w now tx c items = do
  modify λ db. set_memory (ensure_collection c db.memory) db
  begin w now c tx
  for_each items (insert_item w now c)
  commit w now c tx
