-- ===== src/Sweep/Live.antt =====
-- What a turn of the sweep leaves alone: collections that have not expired.
use molten_db.Prelude.{
  ◌≡◌, refl, ap, ◌∙◌, ℕ, zero, suc, ◌<◌, false, Option, none, some, [], ◌∷◌, Str, codes, str_eq,
  leb, lt→ltb, str_beq, str_beq→eq, Bool-cases, Option-cases, inl, inr, length, Bytes,
}
use molten_db.Prelude.Map
use molten_db.Prelude.Map.{Map}
use molten_db.Wal.Entry.{LogEntry}
use molten_db.Json.{null}
use molten_db.Wal.Command
use molten_db.Engine.Types.{ok, err, Event, change, Result}
use molten_db.Engine.Op.{Op, ◌>>=◌, ◌>>◌, modify, continue}
use molten_db.Engine.State.{World, Db, new_entry, write_entry, begin, commit, send}
use molten_db.Engine.Delete
use molten_db.Engine.Delete.{drop_state}
use molten_db.Engine.Api.{delete_collection, get_ttl_expiry, forget_expiry}
use molten_db.Sweep.{Heap, renewed, evict_entry, evict_on, evict, drop_collection}

-- The documents and the expiry of a collection.
abbrev pub View : Type 0
View = Option (Map Str Bytes) × Option ℕ

unfoldable pub view : Str → Db → View
unfolding Map.get get_ttl_expiry
view d db = (Map.get db.memory.state d, get_ttl_expiry db d)

abbrev Keeps : {A : Type 0} → Str → Op Db A → Type 0
Keeps d m = (db : Db) → view d (m db).1 ≡ view d db

continue-Keeps :
    {A B : Type 0} (d : Str) (r : Result A) (f : A → Op Db B) (s : Db)
    → ((a : A) → Keeps d (f a))
    → view d (continue r f s).1 ≡ view d s
continue-Keeps d (ok a) f s g = g a s
continue-Keeps d (err e) f s g = refl

bind-Keeps :
    {A B : Type 0} (d : Str) (m : Op Db A) (f : A → Op Db B)
    → Keeps d m
    → ((a : A) → Keeps d (f a))
    → Keeps d (m >>= f)
bind-Keeps d m f h g db = continue-Keeps d (m db).0 f (m db).1 g ∙ h db

then-Keeps :
    {A : Type 0} (d : Str) (m : Op Db (Unit {0})) (n : Op Db A)
    → Keeps d m
    → Keeps d n
    → Keeps d (m >> n)
then-Keeps d m n h g = bind-Keeps d m (λ u. n) h λ u. g

module _ (w : World) (now : ℕ) where
  write_entry-Keeps : (d : Str) (e : LogEntry) → Keeps d (write_entry w e)
  unfolding write_entry view
  write_entry-Keeps d e db = elim (Bool-cases (w.accepts db.wal e)) [
    | inl yes_it ↦ rw yes_it refl
    | inr no_it ↦ rw no_it refl
  ]

  begin-Keeps : (d c tx : Str) → Keeps d (begin w now c tx)
  unfolding begin
  begin-Keeps d c tx = write_entry-Keeps d _

  commit-Keeps : (d c tx : Str) → Keeps d (commit w now c tx)
  unfolding commit
  commit-Keeps d c tx = write_entry-Keeps d _

  send-Keeps : (d : Str) (ev : Event) → Keeps d (send ev)
  unfolding send view
  send-Keeps d ev db = refl

  module _ (d c : Str) (differ : str_beq c d ≡ false) where
    drop_state-Keeps : (db : Db) → view d (drop_state c db) ≡ view d db
    unfolding drop_state view get_ttl_expiry
    drop_state-Keeps db =
        let other : Map.get (Map.remove c db.memory.state) d ≡ Map.get db.memory.state d =
          rw (Map.get-remove c d db.memory.state, differ) refl in
        ap (λ o. (o, Map.get db.memory.ttl_expiry d)) other

    forget_expiry-Keeps : (db : Db) → view d (forget_expiry c db) ≡ view d db
    unfolding view get_ttl_expiry
    forget_expiry-Keeps db =
        let other : Map.get (Map.remove c db.memory.ttl_expiry) d ≡ Map.get db.memory.ttl_expiry d =
          rw (Map.get-remove c d db.memory.ttl_expiry, differ) refl in
        ap (λ o. (Map.get db.memory.state d, o)) other

    delete-Keeps : (tx : Str) → Keeps d (Delete.delete_collection w now tx c)
    unfolding Delete.delete_collection
    delete-Keeps tx =
        let logged = write_entry w (new_entry now Command.ikey_drop c (codes "*") null) in
        let told = send (change c (codes "*") none none) in
        let last = then-Keeps d (commit w now c tx) told (commit-Keeps d c tx) (send-Keeps d _) in
        let more = then-Keeps d logged (commit w now c tx >> told) (write_entry-Keeps d _) last in
        then-Keeps d (begin w now c tx)
          (modify (drop_state c) >> (logged >> (commit w now c tx >> told))) (begin-Keeps d c tx)
          (then-Keeps d (modify (drop_state c)) (logged >> (commit w now c tx >> told))
            drop_state-Keeps more)

    delete_collection-Keeps : (tx : Str) → Keeps d (delete_collection w now tx c)
    unfolding delete_collection view get_ttl_expiry
    delete_collection-Keeps tx =
        let counters = modify λ (db : Db). record db {
          ttl_defaults = Map.remove c db.ttl_defaults;
          seq_counters = Map.remove c db.seq_counters;
        } in
        then-Keeps d (Delete.delete_collection w now tx c) (modify (forget_expiry c) >> counters)
          (delete-Keeps tx)
          (then-Keeps d (modify (forget_expiry c)) counters forget_expiry-Keeps λ db. refl)

module _ (w : World) (tx : Str) (now : ℕ) (d : Str) (at : ℕ) (later : now < at) where
  -- An entry of the collection itself comes back, and that of another one does not touch it.
  evict_entry-view :
      (c : Str) (heap : Heap) (db : Db)
      → get_ttl_expiry db d ≡ some at
      → view d (evict_entry w tx now c heap db).1 ≡ view d db
  unfolding evict_entry drop_collection renewed
  evict_entry-view c heap db h = elim (Bool-cases (str_beq c d)) [
    | inl own ↦
        let current : get_ttl_expiry db c ≡ some at =
          ap (get_ttl_expiry db) (str_beq→eq c d own) ∙ h in
        rw (evict_entry, renewed, current, lt→ltb now at later) refl
    | inr other ↦ elim (Option-cases (renewed w tx now db c)) [
      | inl gone ↦ rw (evict_entry, gone) (delete_collection-Keeps w now d c other tx db)
      | inr (current, e) ↦ rw (evict_entry, e) refl
    ]
  ]

  evict_on-view :
      (fuel : ℕ) (heap : Heap) (db : Db)
      → get_ttl_expiry db d ≡ some at
      → view d (evict_on w tx now fuel heap db).1 ≡ view d db
  unfolding evict_on view
  evict_on-view zero heap db h = refl
  evict_on-view (suc fuel) [] db h = refl
  evict_on-view (suc fuel) (e ∷ heap) db h = elim (Bool-cases (leb e.expires_at_ms now)) [
    | inl gone ↦
        let next : Heap × Db = evict_entry w tx now e.collection heap db in
        let same : view d (evict_entry w tx now e.collection heap db).1 ≡ view d db =
          evict_entry-view e.collection heap db h in
        rw gone (evict_on-view fuel next.0 next.1 (ap (λ v. v.1) same ∙ h) ∙ same)
    | inr live ↦ rw live refl
  ]

-- A turn of the sweep leaves the documents and the expiry of a collection as they were whose expiry is
-- still to come, whatever entries for it are on the heap.
pub evict-view :
    (w : World) (tx : Str) (now : ℕ) (heap : Heap) (db : Db) (d : Str) (at : ℕ)
    → now < at
    → get_ttl_expiry db d ≡ some at
    → view d (evict w tx now heap db).1 ≡ view d db
unfolding evict
evict-view w tx now heap db d at later h = evict_on-view w tx now d at later (length heap) heap db h
