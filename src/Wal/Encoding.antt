-- ===== src/Wal/Encoding.antt =====
-- `log_entry_to_msgpack` and `log_entry_from_msgpack` of
-- moltendb-core/src/common/system_field_tokens.rs. A field that no version writes is skipped by
-- `rmp_serde` (a library), which is the parameter `skip`.
pub mod Laws
use molten_db.Prelude.{
  ℕ, zero, suc, Option, none, some, [], ◌∷◌, ◌++◌, Bytes, Str, codes, str_beq, length, leb, get_or,
  ◌>>=◌, if◌then◌else◌,
}
use molten_db.Json.{pos_int, null}
use molten_db.Codec.BigEndian.{read_be}
use molten_db.Codec.Marker.{Marker, marker, fix_str, str}
use molten_db.Codec.Read.{Reader, read_text, read_value, negative_name}
use molten_db.Codec.Token.{read_map_header, read_uint_at}
use molten_db.Codec.Write.{write_map_header, write_str, write_value, write_number}
use molten_db.Wal.Command
use molten_db.Wal.Entry.{LogEntry}

-- The command is one byte if it is known, and a string if not.
unfoldable pub write_cmd : Str → Bytes
write_cmd cmd = elim (Command.token cmd) [ none ↦ write_str cmd | some b ↦ b ∷ [] ]

unfoldable pub entry_fields : LogEntry → Bytes
entry_fields e =
    write_str (codes "cmd")
    ++ (write_cmd e.cmd
        ++ (write_str (codes "collection")
            ++ (write_str e.collection
                ++ (write_str (codes "key")
                    ++ (write_str e.key
                        ++ (write_str (codes "value")
                            ++ (write_value e.value
                                ++ (write_str (codes "_t") ++ write_number (pos_int e.time)))))))))

unfoldable pub log_entry_to_msgpack : LogEntry → Bytes
unfolding entry_fields
log_entry_to_msgpack e = write_map_header 5 ++ entry_fields e

abbrev pub blank_entry : LogEntry
blank_entry = record { cmd = []; collection = []; key = []; value = null; time = 0 }

unfoldable pub string_marked : Marker → Reader Str
string_marked (fix_str n) bs = read_text n bs
string_marked (str w) bs = do (n, rest) ← read_be w bs; read_text n rest
string_marked _ bs = none

unfoldable pub read_string : Reader Str
unfolding string_marked
read_string [] = none
read_string (b ∷ bs) = string_marked (marker b) bs

-- A command that was written as a string takes the form that it has in memory.
unfoldable pub normal_cmd : Str → Str
normal_cmd cmd = elim (Command.from_ikey cmd) [
  | some name ↦ name
  | none ↦ if str_beq (Command.to_ikey cmd) [] then cmd else Command.to_ikey cmd
]

unfoldable pub read_cmd : Reader Str
read_cmd [] = none
read_cmd (b ∷ bs) =
    let text = (do (cmd, rest) ← read_string (b ∷ bs); some (normal_cmd cmd, rest)) in
    if leb 0xe0 b then some (get_or (Command.of_token b) (negative_name b), bs) else text

module _ (skip : Bytes → Option Bytes) where
  -- One round of the loop: the value of the field that was named.
  unfoldable pub read_field : Str → LogEntry → Reader LogEntry
  read_field name e bs =
      if str_beq name (codes "cmd")
      then (do (s, rest) ← read_cmd bs; some (record e { cmd = s }, rest))
      else if str_beq name (codes "collection")
      then (do (s, rest) ← read_string bs; some (record e { collection = s }, rest))
      else if str_beq name (codes "key")
      then (do (s, rest) ← read_string bs; some (record e { key = s }, rest))
      else if str_beq name (codes "value")
      then (do (v, rest) ← read_value (length bs) bs; some (record e { value = v }, rest))
      else if str_beq name (codes "_t")
      then (do (n, rest) ← read_uint_at bs; some (record e { time = n }, rest))
      else (do rest ← skip bs; some (e, rest))

  unfoldable pub read_fields : ℕ → LogEntry → Reader LogEntry
  unfolding read_field
  read_fields zero e bs = some (e, bs)
  read_fields (suc n) e bs = do
    (name, rest) ← read_string bs
    (e', rest') ← read_field name e rest
    read_fields n e' rest'

  unfoldable pub log_entry_from_msgpack : Bytes → Option LogEntry
  log_entry_from_msgpack bs = do
    (n, rest) ← read_map_header bs
    (e, _) ← read_fields n blank_entry rest
    some e
