-- ===== src/Engine/Behaviour/Deletion.antt =====
-- What `delete` leaves.
use molten_db.Prelude.{
  ◌≡◌, refl, ap, ◌∙◌, ℕ, Bool, false, ◌&&◌, ◌||◌, none, some, List, [], ◌∷◌, Str, str_eq, str_beq,
  str_beq_iff, arith, if◌then◌else◌,
}
use molten_db.Prelude.Map
use molten_db.Json.{null}
use molten_db.Wal.Command
use molten_db.Wal.Replay.{remove_document}
use molten_db.Engine.Types.{Result, ok}
use molten_db.Engine.Op.{pure, for_each}
use molten_db.Engine.State.{
  World, Db, document, begin, commit, set_memory, write_entry, new_entry, send,
}
use molten_db.Engine.Delete.{delete, delete_key, delete_keys, unindex}
use molten_db.Engine.Durability.Documents.{document-remove_document}
use molten_db.Engine.Durability.Transaction.{
  Succeeds, Succeeds-bind, Succeeds-map, write_entry-Succeeds, Succeeds-ok,
}
use molten_db.Engine.Durability.Steps.{unindex-memory}

-- One of the keys.
unfoldable pub mentions : List Str → Str → Bool
mentions [] k = false
mentions (j ∷ keys) k = str_beq j k || mentions keys k

-- The documents of the collection under the keys are gone, and every other one is there.
abbrev pub Deleted : Str → List Str → Db → Db → Type 0
Deleted c keys db db' =
    (c' k : Str)
    → document db'.memory.state c' k
      ≡ (if str_beq c c' && mentions keys k then none else document db.memory.state c' k)

Deleted-none :
    (c : Str) (keys : List Str) (db : Db) → Map.get db.memory.state c ≡ none → Deleted c keys db db
unfolding document
Deleted-none c keys db h c' k = ground (arith, h, str_beq_iff c c')

removed-Deleted :
    (w : World) (c key : Str) (db : Db) (c' k : Str)
    → document (remove_document c key (unindex w c key db).memory).state c' k
      ≡ (if str_beq c c' && mentions (key ∷ []) k then none else document db.memory.state c' k)
unfolding mentions
removed-Deleted w c key db c' k =
    ap (λ m. document (remove_document c key m).state c' k) (unindex-memory w c key db)
    ∙ document-remove_document c key db.memory c' k
    ∙ ground arith

delete_key-Deleted :
    (w : World) (at : ℕ) (c key : Str) (db : Db)
    → Succeeds (Deleted c (key ∷ []) db) (delete_key w at c key db)
unfolding delete_key new_entry send
delete_key-Deleted w at c key db =
    let unindexed : Db = unindex w c key db in
    let before : Db = set_memory (remove_document c key unindexed.memory) unindexed in
    Succeeds-bind (Deleted c (key ∷ []) db) (Deleted c (key ∷ []) db)
      (write_entry w (new_entry at Command.ikey_delete c key null) before) _
      (write_entry-Succeeds (Deleted c (key ∷ []) db) w
        (new_entry at Command.ikey_delete c key null) before (removed-Deleted w c key db))
      (λ _ db' h. h)

delete_keys-Deleted :
    (w : World) (at : ℕ) (c : Str) (keys : List Str) (db : Db)
    → Succeeds (Deleted c keys db) (for_each keys (delete_key w at c) db)
unfolding for_each mentions
delete_keys-Deleted w at c [] db = λ c' k. ground arith
delete_keys-Deleted w at c (key ∷ keys) db =
    Succeeds-bind (Deleted c (key ∷ keys) db) (Deleted c (key ∷ []) db) (delete_key w at c key db) _
      (delete_key-Deleted w at c key db)
      (λ _ db' h.
        Succeeds-map (Deleted c keys db') (Deleted c (key ∷ keys) db)
          (for_each keys (delete_key w at c) db') (delete_keys-Deleted w at c keys db')
          (λ db'' h' c' k. ground (arith, h' c' k, h c' k)))

begin-memory :
    (w : World) (at : ℕ) (c tx : Str) (db : Db)
    → Succeeds (λ s. s.memory ≡ db.memory) (begin w at c tx db)
unfolding begin
begin-memory w at c tx db = write_entry-Succeeds (λ s. s.memory ≡ db.memory) w _ db refl

commit-memory :
    (w : World) (at : ℕ) (c tx : Str) (db : Db)
    → Succeeds (λ s. s.memory ≡ db.memory) (commit w at c tx db)
unfolding commit
commit-memory w at c tx db = write_entry-Succeeds (λ s. s.memory ≡ db.memory) w _ db refl

delete_keys-Succeeds :
    (w : World) (at : ℕ) (c : Str) (keys : List Str) (db : Db)
    → Succeeds (Deleted c keys db) (delete_keys w at c keys db)
unfolding delete_keys
delete_keys-Succeeds w at c keys db =
    elim (Map.get db.memory.state c)
        as (λ o.
          Map.get db.memory.state c ≡ o
          → Succeeds (Deleted c keys db) (elim o as (λ _. Result (Unit {0}) × Db) [
            | none ↦ pure tt db
            | some col ↦ for_each keys (delete_key w at c) db
          ])) [
            | none ↦ λ h. Deleted-none c keys db h
            | some col ↦ λ h. delete_keys-Deleted w at c keys db
          ]
      refl

-- If `delete` succeeds, the documents of the collection under the given keys are gone from memory, and
-- every other document of every collection is as it was.
pub delete-document :
    (w : World) (at : ℕ) (tx c : Str) (keys : List Str) (db db' : Db)
    → delete w at tx c keys db ≡ (ok tt, db')
    → (c' k : Str)
    → document db'.memory.state c' k
      ≡ (if str_beq c c' && mentions keys k then none else document db.memory.state c' k)
unfolding delete
delete-document w at tx c keys db db' h = Succeeds-ok (Deleted c keys db) _ tt db' h (
    Succeeds-bind (Deleted c keys db) (λ s. s.memory ≡ db.memory) (begin w at c tx db) _
      (begin-memory w at c tx db)
      (λ _ s hs.
        Succeeds-bind (Deleted c keys db) (Deleted c keys db) (delete_keys w at c keys s) _
          (Succeeds-map (Deleted c keys s) (Deleted c keys db) (delete_keys w at c keys s)
            (delete_keys-Succeeds w at c keys s)
            (λ s' h' c' k.
              h' c' k
              ∙ ap (λ m. if str_beq c c' && mentions keys k then none else document m.state c' k)
                  hs))
          (λ _ s' h'.
            Succeeds-map (λ s''. s''.memory ≡ s'.memory) (Deleted c keys db) (commit w at c tx s')
              (commit-memory w at c tx s')
              (λ s'' e c' k. ap (λ m. document m.state c' k) e ∙ h' c' k))))
