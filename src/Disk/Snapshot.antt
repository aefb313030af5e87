-- ===== src/Disk/Snapshot.antt =====
-- Snapshots: moltendb-core/src/engine/storage/disk/snapshot.rs, in the build with schemas. A file is its bytes;
-- errors of the file system and the backup of the snapshot before are left out. gzip is a library.
pub mod Load
pub mod Restart
use molten_db.Prelude.{
  ℕ, zero, suc, ◌+◌, Bool, true, false, ◌&&◌, Option, none, some, List, [], ◌∷◌, ◌++◌, Bytes, Str,
  codes, length, nat_beq, str_beq, ltb, if◌then◌else◌, ◌>>=◌,
}
use molten_db.Prelude.Map.{Map}
use molten_db.Json.{Value}
use molten_db.Codec.BigEndian.{split_bytes}
use molten_db.Codec.Read.{msgpack_to_value}
use molten_db.Wal.Command
use molten_db.Wal.Entry.{LogEntry}
use molten_db.Wal.Encoding.{log_entry_from_msgpack}
use molten_db.Disk.{
  stream_log_entries, write_le, from_le, write_compacted_log_no_tx, next_frame, ControlFlow,
  proceed, halt,
}

-- `finish`, and what a `GzDecoder` gives before it fails.
pub record Gzip : Type 0 where
  pub compress : Bytes → Bytes
  pub expand : Bytes → Bytes

abbrev pub magic : Bytes
magic = codes "MOLTSNG4"

abbrev pub snapshot_entry : Str → Str → Str → Value → LogEntry
snapshot_entry cmd collection key value = record {
  cmd = cmd;
  collection = collection;
  key = key;
  value = value;
  time = 0;
}

-- The documents of a collection that can be decoded.
unfoldable pub document_entries : Str → Map Str Bytes → List LogEntry
unfolding msgpack_to_value
document_entries c [] = []
document_entries c ((k, bytes) ∷ col) =
    let rest = document_entries c col in
    elim (msgpack_to_value bytes) [
      | none ↦ rest
      | some v ↦ snapshot_entry Command.ikey_insert c k v ∷ rest
    ]

unfoldable pub collection_entries : Map Str (Map Str Bytes) → List LogEntry
unfolding document_entries
collection_entries [] = []
collection_entries ((c, col) ∷ state) = document_entries c col ++ collection_entries state

unfoldable pub schema_entries : Map Str Value → List LogEntry
schema_entries [] = []
schema_entries ((c, json) ∷ schemas) =
    snapshot_entry Command.schema c [] json ∷ schema_entries schemas

-- Of all documents, whether they can be decoded or not.
unfoldable pub document_count : Map Str (Map Str Bytes) → ℕ
document_count [] = 0
document_count ((c, col) ∷ state) = length col + document_count state

unfoldable pub snapshot_file : Gzip → ℕ → ℕ → List LogEntry → Bytes
unfolding write_le write_compacted_log_no_tx
snapshot_file g seq count entries =
    magic
    ++ (write_le 8 seq ++ (write_le 8 count ++ g.compress (write_compacted_log_no_tx entries)))

unfoldable pub write_snapshot_from_maps : Gzip → Map Str (Map Str Bytes) → Map Str Value → ℕ → Bytes
unfolding snapshot_file document_count collection_entries schema_entries
write_snapshot_from_maps g state schemas seq =
    snapshot_file g seq (document_count state + length schemas)
      (collection_entries state ++ schema_entries schemas)

unfoldable pub all_zero : Bytes → Bool
all_zero [] = true
all_zero (b ∷ bs) = nat_beq b 0 && all_zero bs

-- The number of lines to skip, and the count.
unfoldable pub read_header : Bytes → Option (ℕ × ℕ × Bytes)
unfolding split_bytes from_le
read_header file = do
  (found, rest) ← split_bytes 8 file
  if str_beq found magic
      then (do
        (seq_bytes, rest2) ← split_bytes 8 rest
        (count_bytes, body) ← split_bytes 8 rest2
        some (from_le seq_bytes, from_le count_bytes, body))
      else none

module _ (skip : Bytes → Option Bytes) where
  -- The entry of a payload; one of zeros only is an error.
  unfoldable pub read_payload : Bytes → Option LogEntry
  unfolding all_zero log_entry_from_msgpack
  read_payload buf =
      if ltb 0 (length buf) && all_zero buf then none else log_entry_from_msgpack skip buf

module _ (skip : Bytes → Option Bytes) {S : Type 0} (f : S → LogEntry → S × ControlFlow) where
  -- Whether all went well, and what the callback has made of the entries until then.
  unfoldable pub load_entries : ℕ → S → Bytes → S × Bool
  unfolding next_frame read_payload
  load_entries zero s body = (s, true)
  load_entries (suc n) s body = elim (next_frame body) [
    | none ↦ (s, false)
    | some (buf, rest) ↦ elim (read_payload skip buf) [
      | none ↦ (s, false)
      | some e ↦
          let (s', flow) = f s e in
          elim flow [ halt ↦ (s', false) | proceed ↦ load_entries n s' rest ]
    ]
  ]

  unfoldable pub load_snapshot : Gzip → Option Bytes → S → S × Option ℕ
  unfolding read_header load_entries
  load_snapshot g none s = (s, none)
  load_snapshot g (some file) s = elim (read_header file) [
    | none ↦ (s, none)
    | some (seq, count, body) ↦
        let (s', complete) = load_entries count s (g.expand body) in
        if complete then (s', some seq) else (s', none)
  ]

-- The callback, with the count of the entries after which it goes on.
abbrev pub counted :
    {S : Type 0}
    → (S → LogEntry → ℕ → S × ControlFlow)
    → S × ℕ
    → LogEntry
    → ℕ
    → (S × ℕ) × ControlFlow
counted f (s, n) e size =
    let (s', flow) = f s e size in
    elim flow [ halt ↦ ((s', n), halt) | proceed ↦ ((s', suc n), proceed) ]

module _ (skip : Bytes → Option Bytes) {S : Type 0} (f : S → LogEntry → ℕ → S × ControlFlow) where
  -- The snapshot, and the log after it; the whole log if the snapshot cannot be loaded.
  unfoldable pub stream_log_into : Gzip → Option Bytes → Bytes → S → S × ℕ
  unfolding load_snapshot stream_log_entries
  stream_log_into g snapshot log s =
      let (p, loaded) = load_snapshot skip (λ t e. counted f t e 0) g snapshot (s, 0) in
      elim loaded [
        | some seq ↦ (stream_log_entries skip (counted f) seq p log).0
        | none ↦ (stream_log_entries skip (counted f) 0 p log).0
      ]
