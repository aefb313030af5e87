-- ===== src/Engine/Durability/Runs.antt =====
-- Runs of operations that succeed, from an empty database on.
use mathlib.Core.Path.{subst}
use molten_db.Prelude.{
  ◌≡◌, refl, sym, ap, ◌∙◌, ◌⊎◌, inl, inr, Bool, false, ℕ, ◌<◌, Option, List, [], ◌∷◌, ◌++◌, Bytes,
  Str, All, length, take,
}
use molten_db.Prelude.Map
use molten_db.Json.{Value}
use molten_db.Wal.Entry.{LogEntry}
use molten_db.Wal.Replay.{Memory, empty, stream_into_state, replay_from}
use molten_db.Disk.{write_msgpack_entry, write_compacted_log_no_tx, read_log_from_disk}
use molten_db.Disk.Laws.{IsWritable, read_log_from_disk-map, read_log_from_disk-whole}
use molten_db.Engine.Types.{ok}
use molten_db.Engine.State.{World, Db, document}
use molten_db.Engine.Set as Set
use molten_db.Engine.Update as Update
use molten_db.Engine.Delete as Delete
use molten_db.Engine.Durability.Transaction.{Succeeds-ok, Committed}
use molten_db.Engine.Durability.Operations.{
  insert-Committed, update-Committed, delete-Committed, delete_collection-Committed,
}
use molten_db.Engine.Durability.Reread.{Reread, replayed, All-prefix, Committed-Reread}
use molten_db.Engine.Durability.Restart.{delete_filtered-Moves, delete_n-Moves}

-- Writes that succeed, one after the other, each at its time and with its transaction's id.
pub data Write (w : World) (db db' : Db) : Type 0 where
  insert :
      (at : ℕ) (tx c : Str) (items : List (Str × Value))
      → Set.insert w at tx c items db ≡ (ok tt, db')
      → Write w db db'
  update :
      (at : ℕ) (tx c key : Str) (updates : Value) (found : Bool)
      → Update.update w at tx c key updates db ≡ (ok found, db')
      → Write w db db'
  delete :
      (at : ℕ) (tx c : Str) (keys : List Str)
      → Delete.delete w at tx c keys db ≡ (ok tt, db')
      → Write w db db'
  delete_filtered :
      (at : ℕ) (tx c : Str) (predicate : Str → Bytes → Bool) (limit : Option ℕ) (asc : Bool)
      (count : ℕ)
      → Delete.delete_filtered w at tx c predicate limit asc db ≡ (ok count, db')
      → Write w db db'
  delete_n :
      (at : ℕ) (tx c : Str) (n : ℕ) (asc : Bool) (count : ℕ)
      → Delete.delete_n w at tx c n asc db ≡ (ok count, db')
      → Write w db db'
  delete_collection :
      (at : ℕ) (tx c : Str) → Delete.delete_collection w at tx c db ≡ (ok tt, db') → Write w db db'

pub data Writes (w : World) : Db → Db → Type 0 where
  start : {db : Db} → Writes w db db
  next : {db db'' : Db} (db' : Db) → Writes w db db' → Write w db' db'' → Writes w db db''

abbrev pub fresh : Db
fresh = record {
  memory = empty;
  wal = [];
  events = [];
  ttl_defaults = [];
  seq_counters = [];
  seq_index = [];
  max_sizes = [];
  io_fault = false;
}

module _ (compiles : Value → Bool) (now : ℕ) (w : World) where
  write-Moves : (db db' : Db) → Write w db db' → Committed compiles now db db' ⊎ (db ≡ db')
  write-Moves db db' (insert at tx c items h) = inl (
      Succeeds-ok (Committed compiles now db) _ tt db' h
        (insert-Committed compiles now w at tx c items db))
  write-Moves db db' (update at tx c key updates found h) = inl (
      Succeeds-ok (Committed compiles now db) _ found db' h
        (update-Committed compiles now w at tx c key updates db))
  write-Moves db db' (delete at tx c keys h) = inl (
      Succeeds-ok (Committed compiles now db) _ tt db' h
        (delete-Committed compiles now w at tx c keys db))
  write-Moves db db' (delete_filtered at tx c predicate limit asc count h) =
      delete_filtered-Moves compiles now w at tx c db predicate limit asc count db' h
  write-Moves db db' (delete_n at tx c n asc count h) =
      delete_n-Moves compiles now w at tx c db n asc count db' h
  write-Moves db db' (delete_collection at tx c h) = inl (
      Succeeds-ok (Committed compiles now db) _ tt db' h
        (delete_collection-Committed compiles now w at tx c db))

  Committed-earlier :
      (db db' : Db) → Committed compiles now db db' → All IsWritable db'.wal → All IsWritable db.wal
  Committed-earlier db db' (t, b, c, xs, hb, hc, hx, wx, sx) ws =
      (All-prefix IsWritable db.wal (b ∷ (xs ++ c ∷ [])) (rw wx at ws)).0

  -- Each write leads on from a log whose replay has the documents to one whose replay has them.
  step-Reread :
      (db db' : Db)
      → Committed compiles now db db' ⊎ (db ≡ db')
      → All IsWritable db'.wal
      → (All IsWritable db.wal → Reread db.memory (replayed compiles now db.wal))
      → Reread db'.memory (replayed compiles now db'.wal)
  step-Reread db db' (inl moved) ws before =
      Committed-Reread compiles now db db' moved ws (before (Committed-earlier db db' moved ws))
  step-Reread db db' (inr same) ws before =
      subst (λ d. Reread d.memory (replayed compiles now d.wal)) same
        (before (subst (λ d. All IsWritable d.wal) (sym same) ws))

  run-Reread :
      (db : Db)
      → Writes w fresh db
      → All IsWritable db.wal
      → Reread db.memory (replayed compiles now db.wal)
  unfolding stream_into_state replay_from document Map.get
  run-Reread db start ws = λ c k. refl
  run-Reread db (next db' run write) ws =
      step-Reread db' db (write-Moves db' db write) ws (run-Reread db' run)

  -- What a restart makes of the log file, whose bytes are the frames of the entries that were written.
  abbrev pub restart : Bytes → Memory
  restart file = stream_into_state compiles now empty (read_log_from_disk w.skip file)

  -- If an insert, an update, a delete of keys, a filtered delete, a delete of the oldest or newest
  -- documents or a drop of a collection succeeds, the encoding can hold the entries of the log after it, and a
  -- restart from the log file would have found the documents in memory before, each as decoded and
  -- encoded again, then a restart finds so those that are in memory after it.
  pub write-Reread :
      (db db' : Db)
      → Write w db db'
      → All IsWritable db'.wal
      → Reread db.memory (restart (write_compacted_log_no_tx db.wal))
      → Reread db'.memory (restart (write_compacted_log_no_tx db'.wal))
  write-Reread db db' write ws before c k =
      ap (λ l. document (stream_into_state compiles now empty l).state c k)
        (read_log_from_disk-whole w.skip db'.wal ws)
      ∙ step-Reread db db' (write-Moves db db' write) ws
          (λ vs d j.
            ap (λ l. document (stream_into_state compiles now empty l).state d j)
              (sym (read_log_from_disk-whole w.skip db.wal vs))
            ∙ before d j)
          c k

  -- After any run of writes that all succeed, from an empty database on, whose entries the encoding
  -- can hold, a restart from the log file, at the end of which a write of one more entry may have been cut
  -- off, finds exactly the documents that are in memory, under the same names, each as decoded and
  -- encoded again.
  pub history-Reread :
      (db : Db) (e : LogEntry) (n : ℕ)
      → Writes w fresh db
      → All IsWritable db.wal
      → IsWritable e
      → n < length (write_msgpack_entry e)
      → Reread db.memory
          (restart (write_compacted_log_no_tx db.wal ++ take n (write_msgpack_entry e)))
  history-Reread db e n run ws v short c k =
      ap (λ l. document (stream_into_state compiles now empty l).state c k)
        (read_log_from_disk-map w.skip db.wal e n ws v short)
      ∙ run-Reread db run ws c k
