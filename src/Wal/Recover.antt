-- ===== src/Wal/Recover.antt =====
-- `recover_to` of moltendb-core/src/engine/operations/recover.rs. Its loop treats an entry as a
-- replay does; only where the replay warns it is silent.
pub mod Prefix
use molten_db.Prelude.{
  ℕ, ◌+◌, Bool, false, ◌||◌, Option, none, some, List, [], ◌∷◌, ◌++◌, Bytes, Str, ltb, leb,
  if◌then◌else◌,
}
use molten_db.Prelude.Map.{Map}
use molten_db.Json.{Value}
use molten_db.Codec.Read.{msgpack_to_value}
use molten_db.Wal.Command
use molten_db.Wal.Entry.{LogEntry}
use molten_db.Wal.Replay.{Memory, empty, Replay, replay_step}

-- Later than the time, if there is one.
unfoldable pub is_after : Option ℕ → LogEntry → Bool
is_after none e = false
is_after (some t) e = ltb t e.time

-- As many entries as were asked for, if a number was.
unfoldable pub is_full : Option ℕ → ℕ → Bool
is_full none count = false
is_full (some s) count = leb s count

module _ (compiles : Value → Bool) (now : ℕ) (to_time to_seq : Option ℕ) where
  unfoldable pub recover_loop : ℕ → Replay → List LogEntry → Replay
  unfolding is_after is_full
  recover_loop count r [] = r
  recover_loop count r (e ∷ log) =
      let rest = recover_loop (count + 1) (replay_step compiles now r e) log in
      if is_after to_time e || is_full to_seq count then r else rest

-- `LogEntry::new` reads the clock.
abbrev entry_at : ℕ → Str → Str → Str → Value → LogEntry
entry_at now cmd collection key value = record {
  cmd = cmd;
  collection = collection;
  key = key;
  value = value;
  time = now;
}

-- What cannot be decoded is left out.
unfoldable pub document_entries : ℕ → Str → Map Str Bytes → List LogEntry
document_entries now c [] = []
document_entries now c ((k, bytes) ∷ col) =
    let rest = document_entries now c col in
    elim (msgpack_to_value bytes) [
      | none ↦ rest
      | some v ↦ entry_at now Command.ikey_insert c k v ∷ rest
    ]

unfoldable pub state_entries : ℕ → Map Str (Map Str Bytes) → List LogEntry
unfolding document_entries
state_entries now [] = []
state_entries now ((c, col) ∷ state) = document_entries now c col ++ state_entries now state

unfoldable pub schema_entries : ℕ → Map Str Value → List LogEntry
schema_entries now [] = []
schema_entries now ((c, schema) ∷ schemas) =
    entry_at now Command.schema c [] schema ∷ schema_entries now schemas

-- The expiries of the recovered state are dropped.
unfoldable pub recover_to : (Value → Bool) → ℕ → Option ℕ → Option ℕ → List LogEntry → List LogEntry
unfolding recover_loop state_entries schema_entries
recover_to compiles now to_time to_seq log =
    let m : Memory =
      (recover_loop compiles now to_time to_seq 0
        (record { memory = empty; active_tx = none; tx_buffer = [] }) log).memory in
    state_entries now m.state ++ schema_entries now m.schemas
