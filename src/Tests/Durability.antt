-- ===== src/Tests/Durability.antt =====
-- A restart after one insertion.
use molten_db.Prelude.{◌≡◌, refl, arith, [], ◌∷◌, ◌++◌, codes, take, All, str_beq, str_ltb}
use molten_db.Prelude.Map
use molten_db.Wal.Entry.{LogEntry}
use molten_db.Json.{object, field, end, null, number, pos_int}
use molten_db.Codec.Utf8.{is_utf8}
use molten_db.Codec.Write.{write_str, write_value, write_number, write_map_header, write_map_key}
use molten_db.Codec.BigEndian.{write_be}
use molten_db.Json.Object
use molten_db.Wal.Command
use molten_db.Wal.Encoding.{log_entry_to_msgpack, write_cmd}
use molten_db.Wal.Replay.{stream_into_state, replay_from}
use molten_db.Disk.{
  write_msgpack_entry, write_compacted_log_no_tx, read_log_from_disk, stream_log_entries,
  stream_frames,
}
use molten_db.Disk.Laws.{IsWritable}
use molten_db.Engine.State.{
  document, write_entry, begin, commit, send, next_seq, new_entry, index_insert,
}
use molten_db.Engine.Op.{for_each}
use molten_db.Engine.Schema.{validate_document}
use molten_db.Engine.Set.{
  insert, insert_item, store_item, stamp_value, must_validate, ensure_collection, is_object,
}
use molten_db.Engine.Durability.Reread.{Reread}
use molten_db.Engine.Durability.Runs.{
  fresh, Write, start, next, restart, history-Reread, write-Reread,
}
use molten_db.Tests.Engine.{world, all_compile, people, items, one, one_runs}
use molten_db.Tests.Storage.{put, put-IsWritable, put_cut}

abbrev begun : LogEntry
begun = record {
  cmd = Command.ikey_tx_begin;
  collection = people;
  key = codes "t";
  value = null;
  time = 5;
}

abbrev inserted : LogEntry
inserted = record {
  cmd = Command.ikey_insert;
  collection = people;
  key = codes "a";
  value = object (
      field (codes "-1") (number (pos_int 1)) (
        field (codes "-3") (number (pos_int 0))
          (field (codes "-4") (number (pos_int 5)) (field (codes "-5") (number (pos_int 5)) end))));
  time = 5;
}

abbrev committed : LogEntry
committed = record begun { cmd = Command.ikey_tx_commit }

begun-IsWritable : IsWritable begun
unfolding is_utf8 log_entry_to_msgpack write_str write_cmd Command.token str_beq write_value
    write_number write_be write_map_header
begun-IsWritable = record {
  cmd = record { short = omega arith; utf8 = refl };
  collection = record { short = omega arith; utf8 = refl };
  key = record { short = omega arith; utf8 = refl };
  value = tt;
  time = omega arith;
  small = omega arith;
}

inserted-IsWritable : IsWritable inserted
unfolding is_utf8 log_entry_to_msgpack write_str write_cmd Command.token str_beq write_value
    write_number write_be write_map_header write_map_key Object.len
inserted-IsWritable = record {
  cmd = record { short = omega arith; utf8 = refl };
  collection = record { short = omega arith; utf8 = refl };
  key = record { short = omega arith; utf8 = refl };
  value = (
    omega arith,
    (
      record { short = omega arith; utf8 = refl },
      omega arith,
      (
        record { short = omega arith; utf8 = refl },
        omega arith,
        (
          record { short = omega arith; utf8 = refl },
          omega arith,
          (record { short = omega arith; utf8 = refl }, omega arith, tt),
        ),
      ),
    ),
  );
  time = omega arith;
  small = omega arith;
}

committed-IsWritable : IsWritable committed
unfolding is_utf8 log_entry_to_msgpack write_str write_cmd Command.token str_beq write_value
    write_number write_be write_map_header
committed-IsWritable = record {
  cmd = record { short = omega arith; utf8 = refl };
  collection = record { short = omega arith; utf8 = refl };
  key = record { short = omega arith; utf8 = refl };
  value = tt;
  time = omega arith;
  small = omega arith;
}

one_wal : one.wal ≡ begun ∷ inserted ∷ committed ∷ []
unfolding insert insert_item store_item write_entry for_each begin commit send validate_document
    next_seq must_validate is_object stamp_value ensure_collection Map.get Map.insert str_beq
    new_entry index_insert Object.insert str_ltb
one_wal = refl

one-IsWritable : All IsWritable one.wal
one-IsWritable = rw one_wal (begun-IsWritable, (inserted-IsWritable, (committed-IsWritable, tt)))

history-Reread_example : Reread one.memory (
    restart all_compile 9 world
      (write_compacted_log_no_tx one.wal ++ take 7 (write_msgpack_entry put)))
history-Reread_example =
    history-Reread all_compile 9 world one put 7
      (next fresh start (Write.insert 5 (codes "t") people items one_runs)) one-IsWritable
      put-IsWritable put_cut

fresh-Reread :
    Reread fresh.memory (restart all_compile 9 world (write_compacted_log_no_tx fresh.wal))
unfolding stream_into_state replay_from read_log_from_disk stream_log_entries stream_frames
    write_compacted_log_no_tx document Map.get
fresh-Reread = λ c k. refl

write-Reread_example :
    Reread one.memory (restart all_compile 9 world (write_compacted_log_no_tx one.wal))
write-Reread_example =
    write-Reread all_compile 9 world fresh one (Write.insert 5 (codes "t") people items one_runs)
      one-IsWritable fresh-Reread
