-- ===== src/Tests/Snapshot.antt =====
-- A snapshot of one document, and a log of one entry after it.
use mathlib.Core.Path.{subst}
use molten_db.Prelude.{
  ◌≡◌, refl, sym, arith, ◌+◌, some, List, [], ◌∷◌, ◌++◌, Bytes, Str, codes, length, take, All, map,
  str_beq,
}
use molten_db.Prelude.Map.{Map}
use molten_db.Json.{null}
use molten_db.Codec.Canon.{IsText, canon}
use molten_db.Codec.Utf8.{is_utf8}
use molten_db.Codec.Read.{msgpack_to_value}
use molten_db.Codec.Write.{value_to_msgpack, write_value, write_str, write_number, write_map_header}
use molten_db.Codec.BigEndian.{write_be}
use molten_db.Codec.RoundTrip.{msgpack_to_value-value_to_msgpack}
use molten_db.Wal.Command
use molten_db.Wal.Entry.{LogEntry}
use molten_db.Wal.Encoding.{log_entry_to_msgpack, write_cmd}
use molten_db.Disk.{write_msgpack_entry, write_compacted_log_no_tx}
use molten_db.Disk.Laws.{IsWritable, canon_entry}
use molten_db.Disk.Snapshot.{
  Gzip, snapshot_entry, document_entries, collection_entries, schema_entries,
  write_snapshot_from_maps, stream_log_into,
}
use molten_db.Disk.Snapshot.Load.{IsSound, AllDecode}
use molten_db.Disk.Snapshot.Restart.{steps, on, stream_log_into-steps}
use molten_db.Tests.Codec.{skip_one}
use molten_db.Tests.Storage.{put, put-IsWritable, put_cut}

abbrev stored : Gzip
stored = record { compress = λ bs. bs; expand = λ bs. bs }

stored-IsSound : IsSound stored
stored-IsSound = record { expands = λ bs. refl }

abbrev state : Map Str (Map Str Bytes)
state = (codes "c", (codes "k", value_to_msgpack null) ∷ []) ∷ []

decoded : msgpack_to_value (value_to_msgpack null) ≡ some (canon null)
decoded = msgpack_to_value-value_to_msgpack null tt

state-AllDecode : AllDecode state
state-AllDecode = ((λ e. absurd (cc (decoded, e)), tt), tt)

abbrev kept : LogEntry
kept = snapshot_entry Command.ikey_insert (codes "c") (codes "k") null

entries : collection_entries state ++ schema_entries [] ≡ kept ∷ []
unfolding collection_entries document_entries schema_entries canon
entries = rw (collection_entries, document_entries, decoded) refl

insert_IsText : IsText Command.ikey_insert
unfolding is_utf8
insert_IsText = record { short = omega arith; utf8 = refl }

kept-IsWritable : IsWritable kept
unfolding log_entry_to_msgpack write_str write_cmd Command.token str_beq write_value write_number
    write_be write_map_header
kept-IsWritable = record {
  cmd = insert_IsText;
  collection = put-IsWritable.collection;
  key = put-IsWritable.key;
  value = tt;
  time = omega arith;
  small = omega arith;
}

stream_log_into-steps_example :
    stream_log_into skip_one
      (on (λ (es : List LogEntry) e. es ++ e ∷ []))
      stored
      (some (write_snapshot_from_maps stored state [] 0))
      (write_compacted_log_no_tx (put ∷ []) ++ take 7 (write_msgpack_entry put))
      []
    ≡ (
      steps
          (λ (es : List LogEntry) e. es ++ e ∷ [])
          []
          (map canon_entry (collection_entries state ++ schema_entries [])
            ++ map canon_entry (put ∷ [])),
      length (put ∷ []) + length (map canon_entry (collection_entries state ++ schema_entries [])),
    )
stream_log_into-steps_example =
    stream_log_into-steps (λ (es : List LogEntry) e. es ++ e ∷ []) skip_one stored stored-IsSound
      state [] (put ∷ []) put 7 [] state-AllDecode
      (subst (All IsWritable) (sym entries) (kept-IsWritable, tt)) (rw entries (omega arith))
      (put-IsWritable, tt) put-IsWritable put_cut
