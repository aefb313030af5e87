-- ===== src/Wal/Encoding/Laws.antt =====
-- An entry that was written reads back.
use mathlib.Core.List.{append_assoc, append-nil}
use molten_db.Prelude.{
  ℕ, suc, ◌^◌, ◌<◌, ◌≤◌, ◌≡◌, refl, ◌∙◌, Option, none, some, [], ◌++◌, arith, Bytes, Str, codes,
  length, length-append, str_beq, ◌>>=◌, inl, inr, Option-cases, get_or,
}
use molten_db.Json.{Value, pos_int}
use molten_db.Codec.BigEndian.{write_be, read_be-write_be}
use molten_db.Codec.Canon.{IsText, IsEncodable, canon}
use molten_db.Codec.Marker.Bytes.{marker-fix_str, marker_str_1, marker_str_2, marker_str_4}
use molten_db.Codec.RoundTrip.{read_value-write_value}
use molten_db.Codec.RoundTrip.Scalars.{read_text-append}
use molten_db.Codec.Token.Headers.{read_map_header-write_map_header, read_uint_at-pos_int}
use molten_db.Codec.Utf8.{is_utf8}
use molten_db.Codec.Write.{write_str, write_value, write_number}
use molten_db.Wal.Command
use molten_db.Wal.Entry.{LogEntry}
use molten_db.Wal.Encoding.{
  write_cmd, entry_fields, log_entry_to_msgpack, blank_entry, read_string, read_cmd, normal_cmd,
  read_field, read_fields, log_entry_from_msgpack,
}

pub read_string-write_str :
    (s : Str) (rest : Bytes) → IsText s → read_string (write_str s ++ rest) ≡ some (s, rest)
unfolding read_string write_str
read_string-write_str s rest t = ground (
  arith,
  marker-fix_str (length s),
  marker_str_1,
  marker_str_2,
  marker_str_4,
  read_be-write_be 1 (length s) (s ++ rest),
  read_be-write_be 2 (length s) (s ++ rest),
  read_be-write_be 4 (length s) (s ++ rest),
  append_assoc (write_be 1 (length s)) s rest,
  append_assoc (write_be 2 (length s)) s rest,
  append_assoc (write_be 4 (length s)) s rest,
  read_text-append s rest t,
)

-- The command as it is in memory: its token, if it has one.
unfoldable pub canon_cmd : Str → Str
canon_cmd cmd = get_or (Command.token cmd >>= Command.of_token) cmd

module _ (cmd : Str) (unknown : Command.token cmd ≡ none) where
  from_ikey-unknown : Command.from_ikey cmd ≡ none
  unfolding Command.token Command.from_ikey
  from_ikey-unknown = ground arith

  to_ikey-unknown : Command.to_ikey cmd ≡ []
  unfolding Command.token Command.to_ikey
  to_ikey-unknown = ground arith

  normal_cmd-unknown : normal_cmd cmd ≡ canon_cmd cmd
  unfolding normal_cmd canon_cmd str_beq
  normal_cmd-unknown = ground (arith, from_ikey-unknown, to_ikey-unknown)

  write_cmd-unknown : write_cmd cmd ≡ write_str cmd
  unfolding write_cmd
  write_cmd-unknown = rw (unknown, write_cmd)

of_token-token :
    (cmd : Str) (b : ℕ)
    → Command.token cmd ≡ some b
    → (0xe0 ≤ b) × (Command.of_token b ≡ some (canon_cmd cmd))
unfolding Command.token Command.of_token canon_cmd
of_token-token cmd b h = ground arith

-- The first byte of a string is no token.
unknown_cmd :
    (cmd : Str) (rest : Bytes)
    → IsText cmd
    → Command.token cmd ≡ none
    → read_cmd (write_str cmd ++ rest) ≡ some (canon_cmd cmd, rest)
unfolding read_cmd write_str
unknown_cmd cmd rest t h =
    ground (arith, read_string-write_str cmd rest t, normal_cmd-unknown cmd h)

read_cmd-write_cmd :
    (cmd : Str) (rest : Bytes)
    → IsText cmd
    → read_cmd (write_cmd cmd ++ rest) ≡ some (canon_cmd cmd, rest)
unfolding read_cmd write_cmd
read_cmd-write_cmd cmd rest t = elim (Option-cases (Command.token cmd)) [
  | inl unknown ↦ rw (write_cmd-unknown cmd unknown) (unknown_cmd cmd rest t unknown)
  | inr (b, known) ↦ ground (arith, of_token-token cmd b known)
]

-- What the loop makes of each field.
module _ (skip : Bytes → Option Bytes) (e : LogEntry) (rest : Bytes) where
  read_field-cmd :
      (s : Str)
      → IsText s
      → read_field skip (codes "cmd") e (write_cmd s ++ rest)
        ≡ some (record e { cmd = canon_cmd s }, rest)
  unfolding read_field str_beq
  read_field-cmd s t = rw (read_cmd-write_cmd s rest t)

  read_field-collection :
      (s : Str)
      → IsText s
      → read_field skip (codes "collection") e (write_str s ++ rest)
        ≡ some (record e { collection = s }, rest)
  unfolding read_field str_beq
  read_field-collection s t = rw (read_string-write_str s rest t)

  read_field-key :
      (s : Str)
      → IsText s
      → read_field skip (codes "key") e (write_str s ++ rest) ≡ some (record e { key = s }, rest)
  unfolding read_field str_beq
  read_field-key s t = rw (read_string-write_str s rest t)

  read_field-value :
      (v : Value)
      → IsEncodable v
      → read_field skip (codes "value") e (write_value v ++ rest)
        ≡ some (record e { value = canon v }, rest)
  unfolding read_field str_beq
  read_field-value v t = rw (
      read_value-write_value v (length (write_value v ++ rest)) rest t
        (omega (arith, length-append (write_value v) rest)))

  read_field-time :
      (n : ℕ)
      → n < 2 ^ 64
      → read_field skip (codes "_t") e (write_number (pos_int n) ++ rest)
        ≡ some (record e { time = n }, rest)
  unfolding read_field str_beq
  read_field-time n h = rw (read_uint_at-pos_int n rest h)

cmd_IsText : IsText (codes "cmd")
unfolding is_utf8
cmd_IsText = record { short = omega arith; utf8 = refl }

collection_IsText : IsText (codes "collection")
unfolding is_utf8
collection_IsText = record { short = omega arith; utf8 = refl }

key_IsText : IsText (codes "key")
unfolding is_utf8
key_IsText = record { short = omega arith; utf8 = refl }

value_IsText : IsText (codes "value")
unfolding is_utf8
value_IsText = record { short = omega arith; utf8 = refl }

time_IsText : IsText (codes "_t")
unfolding is_utf8
time_IsText = record { short = omega arith; utf8 = refl }

module _ (skip : Bytes → Option Bytes) where
  -- One field of the map: its name, and then what `read_field` makes of its value.
  next_field :
      (name : Str) (e e' : LogEntry) (n : ℕ) (body tail : Bytes)
      → IsText name
      → read_field skip name e (body ++ tail) ≡ some (e', tail)
      → read_fields skip (suc n) e ((write_str name ++ (body ++ tail))) ≡ read_fields skip n e' tail
  unfolding read_fields
  next_field name e e' n body tail t h = rw (read_string-write_str name (body ++ tail) t) (rw h)

  last_field :
      (name : Str) (e e' : LogEntry) (body : Bytes)
      → IsText name
      → read_field skip name e (body ++ []) ≡ some (e', [])
      → read_fields skip 1 e (write_str name ++ body) ≡ some (e', [])
  unfolding read_fields
  last_field name e e' body t h = rw append-nil at (next_field name e e' 0 body [] t h)

abbrev read_back : LogEntry → LogEntry
read_back e = record e { cmd = canon_cmd e.cmd; value = canon e.value }

module _ (skip : Bytes → Option Bytes) (e : LogEntry) where
  module _ (c : IsText e.cmd) (l : IsText e.collection) (k : IsText e.key) (v : IsEncodable e.value)
      (t : e.time < 2 ^ 64) where
    read_fields-entry_fields :
        read_fields skip 5 blank_entry (entry_fields e) ≡ some (read_back e, [])
    unfolding entry_fields
    read_fields-entry_fields =
        next_field skip (codes "cmd") _ _ 4 _ _ cmd_IsText (read_field-cmd skip _ _ e.cmd c)
        ∙ next_field skip (codes "collection") _ _ 3 _ _ collection_IsText
            (read_field-collection skip _ _ e.collection l)
        ∙ next_field skip (codes "key") _ _ 2 _ _ key_IsText (read_field-key skip _ _ e.key k)
        ∙ next_field skip (codes "value") _ _ 1 _ _ value_IsText
            (read_field-value skip _ _ e.value v)
        ∙ last_field skip (codes "_t") _ _ _ time_IsText (read_field-time skip _ _ e.time t)

-- An entry whose texts are UTF-8 and shorter than 2^32, whose value MsgPack can hold and whose time
-- fits 64 bits is read back with the fields that were written, its command in the form that it has in
-- memory, and its value in canonical form.
pub log_entry_from_msgpack-log_entry_to_msgpack :
    (skip : Bytes → Option Bytes) (e : LogEntry)
    → IsText e.cmd
    → IsText e.collection
    → IsText e.key
    → IsEncodable e.value
    → e.time < 2 ^ 64
    → log_entry_from_msgpack skip (log_entry_to_msgpack e)
      ≡ some (record e { cmd = canon_cmd e.cmd; value = canon e.value })
unfolding log_entry_from_msgpack log_entry_to_msgpack
log_entry_from_msgpack-log_entry_to_msgpack skip e c l k v t =
    rw (read_map_header-write_map_header 5 (entry_fields e) (omega arith))
      (rw (read_fields-entry_fields skip e c l k v t))
