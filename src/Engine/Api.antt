-- ===== src/Engine/Api.antt =====
-- The methods of `Db` in moltendb-core/src/engine/mod.rs, over the operations of the other modules.
-- A method that runs two transactions takes an id for each. Each `Arc` of the source is one field
-- of the state here.
use molten_db.Prelude.{
  ℕ, ◌+◌, ◌%◌, ◌^◌, ◌*◌, ◌-◌, Bool, Option, none, some, List, Bytes, Str, str_eq, nat_beq, ltb, leb,
  length, get_or, codes, if◌then◌else◌,
}
use molten_db.Prelude.Decimal
use molten_db.Prelude.Map
use molten_db.Json.{Value, null}
use molten_db.Wal.Command
use molten_db.Engine.Types.{DbError, storage_fault, ttl_expiry}
use molten_db.Engine.Op.{Op, fail, modify, ◌>>◌}
use molten_db.Engine.State.{World, Db, set_memory, new_entry, write_entry, send}
use molten_db.Engine.Set
use molten_db.Engine.Update
use molten_db.Engine.Delete

-- The error of a database whose disk has failed.
abbrev pub read_only : DbError
read_only = storage_fault (codes "Background disk I/O failed. System is in read-only mode.")

unfoldable pub guarded : {A : Type 0} → Op Db A → Op Db A
guarded m db = if db.io_fault then fail read_only db else m db

abbrev pub forget_expiry : Str → Db → Db
forget_expiry c db =
    set_memory (record db.memory { ttl_expiry = Map.remove c db.memory.ttl_expiry }) db

-- `collection_is_expired`
unfoldable pub collection_is_expired : ℕ → ℕ → Bool
collection_is_expired expires_at now = leb expires_at now

-- The lazy expiry on a write: the result of the deletion is not looked at.
unfoldable pub expire : World → ℕ → Str → Str → Db → Db
unfolding collection_is_expired Delete.delete_collection
expire w now tx c db = elim (Map.get db.memory.ttl_expiry c) [
  | none ↦ db
  | some exp ↦
      if collection_is_expired exp now
      then forget_expiry c (Delete.delete_collection w now tx c db).1
      else db
]

-- `self.state.get(collection).map(|m| m.len())`
unfoldable pub collection_count : Db → Str → Option ℕ
collection_count db c = elim (Map.get db.memory.state c) [
  | none ↦ none
  | some col ↦ some (length col)
]

unfoldable pub evict : World → ℕ → Str → Str → Db → Db
unfolding collection_count Delete.evict_oldest
evict w now tx c db = elim (Map.get db.max_sizes c) [
  | none ↦ db
  | some max ↦
      let current : ℕ = get_or (collection_count db c) 0 in
      if ltb max current then Delete.evict_oldest w now tx c (current - max) db else db
]

-- The entry goes to the log outside any transaction, and what the log says is not looked at.
unfoldable pub restart_ttl : World → ℕ → Str → Db → Db
unfolding new_entry write_entry send Decimal.to_string
restart_ttl w now c db = elim (Map.get db.ttl_defaults c) [
  | none ↦ db
  | some secs ↦
      let expires_at : ℕ = (now + secs * 1000) % 2 ^ 64 in
      let db1 : Db =
        set_memory (record db.memory { ttl_expiry = Map.insert c expires_at db.memory.ttl_expiry })
          db in
      let db2 : Db =
        (write_entry w (new_entry now Command.ttl_expiry c (Decimal.to_string expires_at) null)
          db1).1 in
      (send (ttl_expiry c expires_at) db2).1
]

unfoldable pub insert : World → ℕ → Str → Str → Str → Str → List (Str × Value) → Op Db (Unit {0})
unfolding guarded expire evict restart_ttl Set.insert
insert w now tx tx_drop tx_evict c items = guarded (do
  modify (expire w now tx_drop c)
  Set.insert w now tx c items
  modify (evict w now tx_evict c)
  modify (restart_ttl w now c))

unfoldable pub update : World → ℕ → Str → Str → Str → Value → Op Db Bool
unfolding guarded Update.update
update w now tx c key updates = guarded (Update.update w now tx c key updates)

unfoldable pub delete_filtered :
    World → ℕ → Str → Str → (Str → Bytes → Bool) → Option ℕ → Bool → Op Db ℕ
unfolding guarded Delete.delete_filtered
delete_filtered w now tx c predicate count_limit asc =
    guarded (Delete.delete_filtered w now tx c predicate count_limit asc)

unfoldable pub delete_n : World → ℕ → Str → Str → ℕ → Bool → Op Db ℕ
unfolding guarded Delete.delete_n
delete_n w now tx c n asc = guarded (Delete.delete_n w now tx c n asc)

unfoldable pub delete : World → ℕ → Str → Str → List Str → Op Db (Unit {0})
unfolding guarded Delete.delete
delete w now tx c keys = guarded (Delete.delete w now tx c keys)

-- Without the guard of the other writes.
unfoldable pub delete_collection : World → ℕ → Str → Str → Op Db (Unit {0})
unfolding Delete.delete_collection
delete_collection w now tx c = do
  Delete.delete_collection w now tx c
  modify (forget_expiry c)
  modify λ db. record db {
    ttl_defaults = Map.remove c db.ttl_defaults;
    seq_counters = Map.remove c db.seq_counters;
  }

unfoldable pub set_max_size : Str → ℕ → Db → Db
set_max_size c max db = record db { max_sizes = Map.insert c max db.max_sizes }

unfoldable pub set_ttl_default : Str → ℕ → Db → Db
set_ttl_default c secs db =
    if nat_beq secs 0
    then forget_expiry c (record db { ttl_defaults = Map.remove c db.ttl_defaults })
    else record db { ttl_defaults = Map.insert c secs db.ttl_defaults }

unfoldable pub get_ttl_expiry : Db → Str → Option ℕ
get_ttl_expiry db c = Map.get db.memory.ttl_expiry c
