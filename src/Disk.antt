-- ===== src/Disk.antt =====
-- The log file: moltendb-core/src/engine/storage/disk/log.rs. A file is its bytes; errors of the
-- file system are left out.
pub mod Frames
pub mod Laws
pub mod Writer
pub mod Snapshot
use molten_db.Prelude.{
  ℕ, zero, suc, ◌+◌, ◌*◌, ◌/◌, ◌%◌, ◌^◌, Option, none, some, List, [], ◌∷◌, ◌++◌, Bytes, length,
  ltb, ◌>>=◌, if◌then◌else◌,
}
use molten_db.Codec.BigEndian.{split_bytes}
use molten_db.Wal.Entry.{LogEntry}
use molten_db.Wal.Encoding.{log_entry_to_msgpack, log_entry_from_msgpack}

-- `uN::to_le_bytes` of the `n` low bytes.
unfoldable pub write_le : ℕ → ℕ → Bytes
write_le zero v = []
write_le (suc n) v = v % 256 ∷ write_le n (v / 256)

-- `uN::from_le_bytes`
unfoldable pub from_le : Bytes → ℕ
from_le [] = 0
from_le (b ∷ bs) = b + 256 * from_le bs

unfoldable pub write_msgpack_entry : LogEntry → Bytes
unfolding write_le log_entry_to_msgpack
write_msgpack_entry e = write_le 4 (length (log_entry_to_msgpack e)) ++ log_entry_to_msgpack e

unfoldable pub write_compacted_log_no_tx : List LogEntry → Bytes
unfolding write_msgpack_entry
write_compacted_log_no_tx [] = []
write_compacted_log_no_tx (e ∷ es) = write_msgpack_entry e ++ write_compacted_log_no_tx es

pub data ControlFlow : Type 0 where
  proceed halt : ControlFlow

-- The payload at the front of the buffer, and what follows it.
unfoldable pub next_frame : Bytes → Option (Bytes × Bytes)
unfolding from_le split_bytes
next_frame buf = do (prefix, rest) ← split_bytes 4 buf; split_bytes (from_le prefix) rest

module _ (skip : Bytes → Option Bytes) {S : Type 0} (f : S → LogEntry → ℕ → S × ControlFlow) where
  unfoldable pub stream_frames : ℕ → ℕ → S → Bytes → S × ControlFlow
  unfolding next_frame log_entry_from_msgpack
  stream_frames zero skip_lines s buf = (s, proceed)
  stream_frames (suc fuel) skip_lines s buf = elim (next_frame buf) [
    | none ↦ (s, proceed)
    | some (payload, rest) ↦ elim skip_lines [
      | suc n ↦ stream_frames fuel n s rest
      | zero ↦ elim (log_entry_from_msgpack skip payload) [
        | none ↦ stream_frames fuel 0 s rest
        | some e ↦
            let (s', flow) = f s e ((length payload + 4) % 2 ^ 32) in
            elim flow [ halt ↦ (s', halt) | proceed ↦ stream_frames fuel 0 s' rest ]
      ]
    ]
  ]

  -- A frame has four bytes at least, so that the length of the buffer is fuel enough.
  unfoldable pub stream_log_entries : ℕ → S → Bytes → S × ControlFlow
  unfolding stream_frames
  stream_log_entries skip_lines s buf = stream_frames (length buf) skip_lines s buf

abbrev push : List LogEntry → LogEntry → ℕ → List LogEntry × ControlFlow
push entries e size = (entries ++ e ∷ [], proceed)

unfoldable pub read_log_from_disk : (Bytes → Option Bytes) → Bytes → List LogEntry
unfolding stream_log_entries
read_log_from_disk skip buf = (stream_log_entries skip push 0 [] buf).0
