-- ===== src/Tests/Wal.antt =====
-- The log on small entries.
use molten_db.Prelude.{
  ◌≡◌, refl, Bool, true, false, some, [], ◌∷◌, ◌++◌, codes, arith, str_beq, Str,
}
use molten_db.Json.{Value, null}
use molten_db.Codec.Canon.{IsText, canon}
use molten_db.Codec.Utf8.{is_utf8}
use molten_db.Wal.Command
use molten_db.Wal.Entry.{LogEntry}
use molten_db.Wal.Encoding.{log_entry_to_msgpack, log_entry_from_msgpack}
use molten_db.Wal.Encoding.Laws.{canon_cmd, log_entry_from_msgpack-log_entry_to_msgpack}
use molten_db.Wal.Replay.{Memory, empty, stream_into_state, apply_all}
use molten_db.Wal.Recover.{recover_to, state_entries, schema_entries}
use molten_db.Wal.Recover.Prefix.{first_of, not_after, recover_to-stream_into_state}
use molten_db.Wal.Replay.Transactions.{
  stream_into_state-unfinished, stream_into_state-transaction, stream_into_state-interleaved,
}
use molten_db.Tests.Codec.{doc, doc-IsEncodable, skip_one}

abbrev entry : Str → Str → Str → Value → LogEntry
entry cmd collection key value = record {
  cmd = cmd;
  collection = collection;
  key = key;
  value = value;
  time = 5;
}

abbrev put : LogEntry
put = entry Command.ikey_insert (codes "c") (codes "k") doc

cmd_IsText : IsText Command.ikey_insert
unfolding is_utf8
cmd_IsText = record { short = omega arith; utf8 = refl }

c_IsText : IsText (codes "c")
unfolding is_utf8
c_IsText = record { short = omega arith; utf8 = refl }

k_IsText : IsText (codes "k")
unfolding is_utf8
k_IsText = record { short = omega arith; utf8 = refl }

log_entry_from_msgpack-log_entry_to_msgpack_example :
    log_entry_from_msgpack skip_one (log_entry_to_msgpack put)
    ≡ some (record put { cmd = canon_cmd put.cmd; value = canon put.value })
log_entry_from_msgpack-log_entry_to_msgpack_example =
    log_entry_from_msgpack-log_entry_to_msgpack skip_one put cmd_IsText c_IsText k_IsText
      doc-IsEncodable (omega arith)

abbrev begun : LogEntry
begun = entry Command.ikey_tx_begin (codes "c") (codes "t") null

abbrev committed : LogEntry
committed = entry Command.ikey_tx_commit (codes "c") (codes "t") null

abbrev begun_too : LogEntry
begun_too = entry Command.ikey_tx_begin (codes "d") (codes "u") null

abbrev committed_too : LogEntry
committed_too = entry Command.ikey_tx_commit (codes "d") (codes "u") null

abbrev all_compile : Value → Bool
all_compile _ = true

put-IsPlain :
    (str_beq put.cmd Command.ikey_tx_begin ≡ false)
    × (str_beq put.cmd Command.ikey_tx_commit ≡ false)
unfolding str_beq
put-IsPlain = (refl, refl)

stream_into_state-unfinished_example :
    stream_into_state all_compile 9 empty ((put ∷ []) ++ begun ∷ put ∷ [])
    ≡ stream_into_state all_compile 9 empty (put ∷ [])
stream_into_state-unfinished_example =
    stream_into_state-unfinished all_compile 9 empty (put ∷ []) (codes "t") begun (put ∷ [])
      (refl, refl) (put-IsPlain, tt)

stream_into_state-transaction_example :
    stream_into_state all_compile 9 empty ([] ++ begun ∷ ((put ∷ []) ++ committed ∷ put ∷ []))
    ≡ stream_into_state all_compile 9
        (apply_all all_compile 9 (stream_into_state all_compile 9 empty []) (put ∷ []))
        (put ∷ [])
stream_into_state-transaction_example =
    stream_into_state-transaction all_compile 9 empty [] (codes "t") begun committed (put ∷ [])
      (put ∷ []) (refl, refl) (put-IsPlain, tt) (refl, refl)

stream_into_state-interleaved_example :
    stream_into_state all_compile 9 empty
      ([] ++ begun ∷ ((put ∷ []) ++ begun_too ∷ ([] ++ committed_too ∷ ([] ++ committed ∷ []))))
    ≡ stream_into_state all_compile 9
        (apply_all all_compile 9
          (apply_all all_compile 9 (stream_into_state all_compile 9 empty []) [])
          [])
        []
stream_into_state-interleaved_example =
    stream_into_state-interleaved all_compile 9 empty [] (codes "t") (codes "u") begun begun_too
      committed committed_too (put ∷ []) [] [] [] (refl, refl) (refl, refl) (refl, refl)
      (refl, refl) (put-IsPlain, tt) tt tt

recover_to-stream_into_state_example :
    recover_to all_compile 9 (some 5) (some 2) (begun ∷ put ∷ committed ∷ []) ≡ (
      let m : Memory =
        stream_into_state all_compile 9 empty
          (first_of (some 2) (not_after (some 5) (begun ∷ put ∷ committed ∷ []))) in
      state_entries 9 m.state ++ schema_entries 9 m.schemas)
recover_to-stream_into_state_example =
    recover_to-stream_into_state all_compile 9 (some 5) (some 2) (begun ∷ put ∷ committed ∷ [])
