-- ===== src/Engine/State.antt =====
-- The maps of `Db` (moltendb-core/src/engine/mod.rs), and the steps that the operations share.
use molten_db.Prelude.{
  ℕ, ◌+◌, ◌%◌, ◌^◌, Bool, Option, none, some, List, [], ◌∷◌, ◌++◌, Bytes, Str, str_eq, get_or,
  if◌then◌else◌,
}
use molten_db.Prelude.Map
use molten_db.Prelude.Map.{Map}
use molten_db.Json.{Value, null}
use molten_db.Wal.Command
use molten_db.Wal.Entry.{LogEntry}
use molten_db.Wal.Replay.{Memory}
use molten_db.Engine.Types.{write_error, ok, err, Event}
use molten_db.Engine.Op.{Op, modify}
use molten_db.Engine.SeqIndex
use molten_db.Engine.SeqIndex.{SeqIndex}

-- What the engine uses of the world. `accepts` tells whether the storage backend appends an entry
-- to a log or reports an error; `skip` is that of `rmp_serde`; the others are those of `jsonschema`.
pub record World : Type 0 where
  pub accepts : List LogEntry → LogEntry → Bool
  pub skip : Bytes → Option Bytes
  pub compiles : Value → Bool
  pub conforms : Value → Value → Bool

-- The documents, the schemas and the expiries are in `memory`. `wal` is the entries that the storage backend has
-- accepted, as they were given to it, and `events` what was sent to the subscribers, both the oldest first.
pub record Db : Type 0 where
  pub memory : Memory
  pub wal : List LogEntry
  pub events : List Event
  pub ttl_defaults : Map Str ℕ
  pub seq_counters : Map Str ℕ
  pub seq_index : Map Str SeqIndex
  pub max_sizes : Map Str ℕ
  pub io_fault : Bool

-- `LogEntry::new`; the clock is an argument.
unfoldable pub new_entry : ℕ → Str → Str → Str → Value → LogEntry
new_entry now cmd collection key value = record {
  cmd = cmd;
  collection = collection;
  key = key;
  value = value;
  time = now;
}

-- `StorageBackend::write_entry`
unfoldable pub write_entry : World → LogEntry → Op Db (Unit {0})
write_entry w e db =
    if w.accepts db.wal e
    then (ok tt, record db { wal = db.wal ++ e ∷ [] })
    else (err write_error, db)

-- A send that nobody receives is no error.
unfoldable pub send : Event → Op Db (Unit {0})
send ev = modify λ db. record db { events = db.events ++ ev ∷ [] }

-- `TX_BEGIN` and `TX_COMMIT`, with the transaction's id in the place of the key.
unfoldable pub begin : World → ℕ → Str → Str → Op Db (Unit {0})
unfolding write_entry new_entry
begin w now c tx = write_entry w (new_entry now Command.ikey_tx_begin c tx null)

unfoldable pub commit : World → ℕ → Str → Str → Op Db (Unit {0})
unfolding write_entry new_entry
commit w now c tx = write_entry w (new_entry now Command.ikey_tx_commit c tx null)

abbrev pub set_memory : Memory → Db → Db
set_memory m db = record db { memory = m }

-- `Db::next_seq`, and the same steps in `insert`: a counter starts at 0, and wraps.
unfoldable pub next_seq : Str → Op Db ℕ
next_seq c db =
    let seq : ℕ = get_or (Map.get db.seq_counters c) 0 in
    (ok seq, record db { seq_counters = Map.insert c ((seq + 1) % 2 ^ 64) db.seq_counters })

-- An index that is not there yet is made.
unfoldable pub index_insert : Str → ℕ → Str → Db → Db
index_insert c seq key db = record db {
  seq_index =
      Map.insert c (SeqIndex.insert seq key (get_or (Map.get db.seq_index c) [])) db.seq_index;
}

unfoldable pub index_remove : Str → ℕ → Db → Db
index_remove c seq db = elim (Map.get db.seq_index c) [
  | none ↦ db
  | some idx ↦ record db { seq_index = Map.insert c (SeqIndex.remove seq idx) db.seq_index }
]

-- The document's bytes, if there are the collection and the document.
unfoldable pub document : Map Str (Map Str Bytes) → Str → Str → Option Bytes
document state c k = elim (Map.get state c) [ none ↦ none | some col ↦ Map.get col k ]
