-- ===== src/Engine/Delete.antt =====
-- moltendb-core/src/engine/operations/delete.rs. The sorts there are unstable: where two documents
-- have the same `_seq`, the model takes one of the orders that they may leave.
use molten_db.Prelude.{
  ℕ, zero, suc, Bool, true, Option, none, some, List, [], ◌∷◌, ◌++◌, map, Bytes, Str, str_eq, codes,
  leb, length, take, get_or, ◌^◌, ◌-◌, if◌then◌else◌,
}
use molten_db.Prelude.Map
use molten_db.Prelude.Map.{Map}
use molten_db.Json.{null}
use molten_db.Codec.Read.{msgpack_to_value}
use molten_db.Codec.SystemFields
use molten_db.Codec.Token.{read_msgpack_seq_token}
use molten_db.Wal.Command
use molten_db.Wal.Replay.{remove_document}
use molten_db.Engine.Types.{change}
use molten_db.Engine.Op.{Op, pure, modify, for_each, ◌>>◌}
use molten_db.Engine.State.{
  World, Db, new_entry, write_entry, send, begin, commit, set_memory, index_remove, document,
}
use molten_db.Engine.Documents.{get_u64}

-- The document's entry in the index goes before the document.
unfoldable pub unindex : World → Str → Str → Db → Db
unfolding document index_remove
unindex w c key db = elim (document db.memory.state c key) [
  | none ↦ db
  | some bytes ↦ index_remove c (read_msgpack_seq_token w.skip bytes) db
]

unfoldable pub delete_key : World → ℕ → Str → Str → Op Db (Unit {0})
unfolding unindex remove_document new_entry write_entry send
delete_key w now c key = do
  modify (unindex w c key)
  modify λ db. set_memory (remove_document c key db.memory) db
  write_entry w (new_entry now Command.ikey_delete c key null)
  send (change c key none none)

unfoldable pub delete_keys : World → ℕ → Str → List Str → Op Db (Unit {0})
unfolding for_each delete_key
delete_keys w now c keys db = elim (Map.get db.memory.state c) [
  | none ↦ pure tt db
  | some col ↦ for_each keys (delete_key w now c) db
]

unfoldable pub delete : World → ℕ → Str → Str → List Str → Op Db (Unit {0})
unfolding begin commit delete_keys
delete w now tx c keys = do begin w now c tx; delete_keys w now c keys; commit w now c tx

-- `sort_unstable_by_key`, in the order of the numbers or in the reverse order
unfoldable pub insert_by_seq : Bool → ℕ × Str → List (ℕ × Str) → List (ℕ × Str)
insert_by_seq asc p [] = p ∷ []
insert_by_seq asc p (q ∷ ps) =
    let rest = insert_by_seq asc p ps in
    if (if asc then leb p.0 q.0 else leb q.0 p.0) then p ∷ q ∷ ps else q ∷ rest

unfoldable pub sort_by_seq : Bool → List (ℕ × Str) → List (ℕ × Str)
unfolding insert_by_seq
sort_by_seq asc [] = []
sort_by_seq asc (p ∷ ps) = insert_by_seq asc p (sort_by_seq asc ps)

-- The matches of a predicate with their sequence numbers.
unfoldable pub matches :
    (Bytes → Option Bytes) → (Str → Bytes → Bool) → Map Str Bytes → List (ℕ × Str)
matches skip predicate [] = []
matches skip predicate ((k, bytes) ∷ col) =
    let rest = matches skip predicate col in
    if predicate k bytes then (read_msgpack_seq_token skip bytes, k) ∷ rest else rest

-- `keys.truncate(limit)`, if there is a limit
unfoldable pub limited {ℓ} : {A : Type ℓ} → Option ℕ → List A → List A
limited none xs = xs
limited (some n) xs = take n xs

-- Nothing is logged when there is nothing to delete.
unfoldable pub delete_some : World → ℕ → Str → Str → List Str → Op Db ℕ
unfolding delete
delete_some w now tx c [] = pure 0
delete_some w now tx c (k ∷ ks) = do delete w now tx c (k ∷ ks); pure (length (k ∷ ks))

unfoldable pub delete_filtered :
    World → ℕ → Str → Str → (Str → Bytes → Bool) → Option ℕ → Bool → Op Db ℕ
unfolding sort_by_seq matches limited delete_some
delete_filtered w now tx c predicate count_limit asc db = elim (Map.get db.memory.state c) [
  | none ↦ pure 0 db
  | some col ↦
      delete_some w now tx c
        (limited count_limit (map (λ p. p.1) (sort_by_seq asc (matches w.skip predicate col)))) db
]

unfoldable pub reverse {ℓ} : {A : Type ℓ} → List A → List A
reverse [] = []
reverse (x ∷ xs) = reverse xs ++ x ∷ []

-- The keys that go: from the index, if there is one, or else by a scan.
unfoldable pub oldest_or_newest : World → Str → ℕ → Bool → Map Str Bytes → Db → List Str
unfolding sort_by_seq matches reverse
oldest_or_newest w c n asc col db = elim (Map.get db.seq_index c) [
  | none ↦ map (λ p. p.1) (take n (sort_by_seq asc (matches w.skip (λ _ _. true) col)))
  | some idx ↦ map (λ p. p.1) (take n (if asc then idx else reverse idx))
]

unfoldable pub delete_n : World → ℕ → Str → Str → ℕ → Bool → Op Db ℕ
unfolding oldest_or_newest delete_some
delete_n w now tx c zero asc db = pure 0 db
delete_n w now tx c (suc n) asc db = elim (Map.get db.memory.state c) [
  | none ↦ pure 0 db
  | some col ↦ delete_some w now tx c (oldest_or_newest w c (suc n) asc col db) db
]

-- The documents that can be decoded, with their sequence numbers or `u64::MAX`.
unfoldable pub decoded_pairs : Map Str Bytes → List (ℕ × Str)
decoded_pairs [] = []
decoded_pairs ((k, bytes) ∷ col) =
    let rest = decoded_pairs col in
    elim (msgpack_to_value bytes) [
      | none ↦ rest
      | some v ↦ (get_or (get_u64 v SystemFields.ikey_seq) (2 ^ 64 - 1), k) ∷ rest
    ]

-- The result is not looked at.
unfoldable pub evict_oldest : World → ℕ → Str → Str → ℕ → Db → Db
unfolding delete_some decoded_pairs sort_by_seq
evict_oldest w now tx c n db = elim (Map.get db.memory.state c) [
  | none ↦ db
  | some col ↦
      (delete_some w now tx c (map (λ p. p.1) (take n (sort_by_seq true (decoded_pairs col)))) db).1
]

-- The expiry stays: only the caller knows it.
unfoldable pub drop_state : Str → Db → Db
drop_state c db = record db {
  memory = record db.memory { state = Map.remove c db.memory.state };
  seq_index = Map.remove c db.seq_index;
}

unfoldable pub delete_collection : World → ℕ → Str → Str → Op Db (Unit {0})
unfolding drop_state new_entry write_entry begin commit send
delete_collection w now tx c = do
  begin w now c tx
  modify (drop_state c)
  write_entry w (new_entry now Command.ikey_drop c (codes "*") null)
  commit w now c tx
  send (change c (codes "*") none none)
