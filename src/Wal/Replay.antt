-- ===== src/Wal/Replay.antt =====
-- The replay of moltendb-core/src/engine/storage/mod.rs: `apply_entry` and `stream_into_state`.
-- What the source does not implement is a parameter: whether `jsonschema` compiles a schema, and
-- the clock, which is read once for each entry and taken to stand still during a replay.
pub mod Transactions
use molten_db.Prelude.{
  ℕ, Bool, true, false, Option, none, some, List, [], ◌∷◌, ◌++◌, Bytes, Str, str_beq, str_eq, ltb,
  get_or, if◌then◌else◌,
}
use molten_db.Prelude.Decimal.{parse_u64}
use molten_db.Prelude.Map
use molten_db.Prelude.Map.{Map}
use molten_db.Json.{Value}
use molten_db.Codec.Write.{value_to_msgpack}
use molten_db.Wal.Command
use molten_db.Wal.Entry.{LogEntry}

-- The maps that a replay fills.
pub record Memory : Type 0 where
  -- collection, and in it the key of a document, to the document's bytes
  pub state : Map Str (Map Str Bytes)
  pub schemas : Map Str Value
  pub ttl_expiry : Map Str ℕ

abbrev pub empty : Memory
empty = record { state = []; schemas = []; ttl_expiry = [] }

-- `entry(collection).or_default()`
abbrev pub collection_of : Map Str (Map Str Bytes) → Str → Map Str Bytes
collection_of state c = get_or (Map.get state c) []

unfoldable pub put_document : Str → Str → Value → Memory → Memory
put_document c k v m = record m {
  state = Map.insert c (Map.insert k (value_to_msgpack v) (collection_of m.state c)) m.state;
}

-- Nothing, if there is no such collection.
unfoldable pub remove_document : Str → Str → Memory → Memory
remove_document c k m = elim (Map.get m.state c) [
  | none ↦ m
  | some col ↦ record m { state = Map.insert c (Map.remove k col) m.state }
]

unfoldable pub drop_collection : Str → Memory → Memory
drop_collection c m = record m {
  state = Map.remove c m.state;
  ttl_expiry = Map.remove c m.ttl_expiry;
}

-- An expiry that has passed takes the collection with it.
unfoldable pub restore_expiry : ℕ → Str → Option ℕ → Memory → Memory
unfolding drop_collection
restore_expiry now c none m = m
restore_expiry now c (some expires_at) m =
    if ltb now expires_at
    then record m { ttl_expiry = Map.insert c expires_at m.ttl_expiry }
    else drop_collection c m

module _ (compiles : Value → Bool) (now : ℕ) where
  -- `INDEX` entries and unknown commands do nothing.
  unfoldable pub apply_entry : Memory → LogEntry → Memory
  apply_entry m e =
      if str_beq e.cmd Command.ikey_insert
      then put_document e.collection e.key e.value m
      else if str_beq e.cmd Command.ikey_delete
      then remove_document e.collection e.key m
      else if str_beq e.cmd Command.ikey_drop
      then drop_collection e.collection m
      else if str_beq e.cmd Command.ttl_expiry
      then restore_expiry now e.collection (parse_u64 e.key) m
      else if str_beq e.cmd Command.ikey_schema
      then (if compiles e.value
          then record m { schemas = Map.insert e.collection e.value m.schemas }
          else m)
      else m

  unfoldable pub apply_all : Memory → List LogEntry → Memory
  apply_all m [] = m
  apply_all m (e ∷ es) = apply_all (apply_entry m e) es

-- The state of the loop: the maps, the open transaction, and its entries so far.
pub record Replay : Type 0 where
  pub memory : Memory
  pub active_tx : Option Str
  pub tx_buffer : List LogEntry

unfoldable pub is_active : Option Str → Str → Bool
is_active none t = false
is_active (some a) t = str_beq a t

abbrev pub is_some {ℓ} : {A : Type ℓ} → Option A → Bool
is_some none = false
is_some (some a) = true

module _ (compiles : Value → Bool) (now : ℕ) where
  unfoldable pub replay_step : Replay → LogEntry → Replay
  replay_step r e =
      if str_beq e.cmd Command.ikey_tx_begin
      then record r { active_tx = some e.key; tx_buffer = [] }
      else if str_beq e.cmd Command.ikey_tx_commit
      then (if is_active r.active_tx e.key
          then record {
            memory = apply_all compiles now r.memory r.tx_buffer;
            active_tx = none;
            tx_buffer = [];
          }
          else r)
      else if is_some r.active_tx
      then record r { tx_buffer = r.tx_buffer ++ e ∷ [] }
      else record r { memory = apply_entry compiles now r.memory e }

  unfoldable pub replay_from : Replay → List LogEntry → Replay
  replay_from r [] = r
  replay_from r (e ∷ log) = replay_from (replay_step r e) log

  -- What a transaction left open at the end of the log has buffered is dropped.
  unfoldable pub stream_into_state : Memory → List LogEntry → Memory
  unfolding replay_from
  stream_into_state m log =
      (replay_from (record { memory = m; active_tx = none; tx_buffer = [] }) log).memory
