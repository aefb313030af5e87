-- ===== src/Tests/Storage.antt =====
-- A log file of two entries.
use molten_db.Prelude.{
  ◌≡◌, refl, ℕ, ◌+◌, ◌<◌, ◌-◌, ◌^◌, some, [], ◌∷◌, ◌++◌, List, Bytes, Str, codes, arith, length,
  take, drop, All, map, str_beq,
}
use molten_db.Prelude.Map.{Map}
use molten_db.Json.{Value, null, pos_int, number}
use molten_db.Codec.Canon.{IsText}
use molten_db.Codec.Utf8.{is_utf8}
use molten_db.Codec.Write.{write_value, write_str, write_number, write_map_header, value_to_msgpack}
use molten_db.Codec.BigEndian.{write_be, read_be, split_bytes}
use molten_db.Codec.Token.{
  read_msgpack_seq_token, read_token_u64, find_token, read_map_header, read_uint_at,
}
use molten_db.Codec.Marker.{marker}
use molten_db.Json.Object
use molten_db.Wal.Command
use molten_db.Wal.Entry.{LogEntry}
use molten_db.Wal.Encoding.{log_entry_to_msgpack, write_cmd}
use molten_db.Disk.{
  write_le, write_msgpack_entry, write_compacted_log_no_tx, ControlFlow, proceed,
  stream_log_entries, read_log_from_disk,
}
use molten_db.Disk.Laws.{
  IsWritable, canon_entry, feed, stream_log_entries-feed, read_log_from_disk-lost,
}
use molten_db.Engine.SeqIndex
use molten_db.Engine.SeqIndex.Order.{IsSorted}
use molten_db.Engine.Opening.{open_collection}
use molten_db.Engine.Opening.Counter.{seq_of, AreDistinct, open_collection-All}
use molten_db.Codec.Write.{write_map_key}
use molten_db.Json.{object, field, end}
use molten_db.Tests.Codec.{skip_one}

abbrev pub put : LogEntry
put = record { cmd = codes "-6"; collection = codes "c"; key = codes "k"; value = null; time = 5 }

cmd_IsText : IsText (codes "-6")
unfolding is_utf8
cmd_IsText = record { short = omega arith; utf8 = refl }

c_IsText : IsText (codes "c")
unfolding is_utf8
c_IsText = record { short = omega arith; utf8 = refl }

k_IsText : IsText (codes "k")
unfolding is_utf8
k_IsText = record { short = omega arith; utf8 = refl }

pub put-IsWritable : IsWritable put
unfolding log_entry_to_msgpack write_str write_cmd Command.token str_beq write_value write_number
    write_be write_map_header
put-IsWritable = record {
  cmd = cmd_IsText;
  collection = c_IsText;
  key = k_IsText;
  value = tt;
  time = omega arith;
  small = omega arith;
}

abbrev collect : List Str → LogEntry → ℕ → List Str × ControlFlow
collect keys e size = (e.key ∷ keys, proceed)

pub put_cut : 7 < length (write_msgpack_entry put)
unfolding write_msgpack_entry write_le log_entry_to_msgpack write_str write_cmd Command.token
    str_beq write_value write_number write_be write_map_header
put_cut = omega arith

stream_log_entries-feed_example :
    stream_log_entries skip_one collect 1 []
      (write_compacted_log_no_tx (put ∷ put ∷ []) ++ take 7 (write_msgpack_entry put))
    ≡ feed collect [] (drop 1 (put ∷ put ∷ []))
stream_log_entries-feed_example =
    stream_log_entries-feed collect skip_one (put ∷ put ∷ []) put 7 1 []
      (put-IsWritable, (put-IsWritable, tt)) put-IsWritable put_cut

-- An entry that is longer than the next one with its length.
abbrev long : LogEntry
long = record put { key = codes "a key of some forty characters in length." }

long-IsWritable : IsWritable long
unfolding is_utf8 log_entry_to_msgpack write_str write_cmd Command.token str_beq write_value
    write_number write_be write_map_header
long-IsWritable = record {
  cmd = cmd_IsText;
  collection = c_IsText;
  key = record { short = omega arith; utf8 = refl };
  value = tt;
  time = omega arith;
  small = omega arith;
}

lacks : 0 + length (write_compacted_log_no_tx (put ∷ [])) < length (log_entry_to_msgpack long)
unfolding write_compacted_log_no_tx write_msgpack_entry write_le log_entry_to_msgpack write_str
    write_cmd Command.token str_beq write_value write_number write_be write_map_header
lacks = omega arith

read_log_from_disk-lost_example :
    read_log_from_disk skip_one (
      write_compacted_log_no_tx (put ∷ [])
      ++ (take (4 + 0) (write_msgpack_entry long) ++ write_compacted_log_no_tx (put ∷ [])))
    ≡ map canon_entry (put ∷ [])
read_log_from_disk-lost_example =
    read_log_from_disk-lost skip_one (put ∷ []) long 0 (put ∷ []) (put-IsWritable, tt)
      long-IsWritable lacks

-- Two documents with the numbers 7 and 9.
abbrev numbered : ℕ → Value
numbered n = object (field (codes "-3") (number (pos_int n)) end)

abbrev col : Map Str Bytes
col = (codes "k", value_to_msgpack (numbered 7)) ∷ (codes "j", value_to_msgpack (numbered 9)) ∷ []

numbers :
    (read_msgpack_seq_token skip_one (value_to_msgpack (numbered 7)) ≡ 7)
    × (read_msgpack_seq_token skip_one (value_to_msgpack (numbered 9)) ≡ 9)
unfolding read_msgpack_seq_token read_token_u64 find_token read_map_header read_uint_at marker
    read_be split_bytes value_to_msgpack write_value write_map_header write_map_key write_number
    Object.len str_beq
numbers = (refl, refl)

col-AreDistinct : AreDistinct skip_one col
col-AreDistinct = ((λ e. absurd (omega (arith, e, numbers.0, numbers.1)), tt), (tt, tt))

col_numbers : All (λ e. seq_of skip_one e < 2 ^ 64 - 1) col
col_numbers = (omega (arith, numbers.0), (omega (arith, numbers.1), tt))

open_collection-All_example :
    IsSorted (open_collection skip_one col).0
    × All (λ e. SeqIndex.get (open_collection skip_one col).0 (seq_of skip_one e) ≡ some e.0) col
    × All (λ e. seq_of skip_one e < (open_collection skip_one col).1) col
open_collection-All_example = open_collection-All skip_one col col-AreDistinct col_numbers
