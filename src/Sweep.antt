-- ===== src/Sweep.antt =====
-- The sweep of expired collections: moltendb-server/src/ttl_sweep.rs. The clock stands still during a turn of
-- its loop. A `BinaryHeap` of reversed entries is the list of the entries in the order of their times.
pub mod Turn
pub mod Live
use molten_db.Prelude.{
  ℕ, zero, suc, Bool, true, false, Option, none, some, List, [], ◌∷◌, Str, codes, str_beq, leb, ltb,
  length, if◌then◌else◌, ◌>>=◌,
}
use molten_db.Json.{Value}
use molten_db.Json.Object
use molten_db.Engine.State.{World, Db}
use molten_db.Engine.Api.{delete_collection, get_ttl_expiry}

pub record ExpiryEntry : Type 0 where
  pub expires_at_ms : ℕ
  pub collection : Str

abbrev pub Heap : Type 0
Heap = List ExpiryEntry

unfoldable pub push : ExpiryEntry → Heap → Heap
push e [] = e ∷ []
push e (f ∷ heap) =
    let rest = push e heap in if leb e.expires_at_ms f.expires_at_ms then e ∷ f ∷ heap else f ∷ rest

-- The event of a message, if it can be read.
unfoldable pub read_event : Value → Option ExpiryEntry
unfolding Object.lookup Object.as_str Object.as_u64
read_event event = do
  name ← (do v ← Object.lookup event (codes "event"); Object.as_str v)
  if str_beq name (codes "ttl_expiry")
      then (do
        col ← (do v ← Object.lookup event (codes "collection"); Object.as_str v)
        expires_at ← (do v ← Object.lookup event (codes "expires_at_ms"); Object.as_u64 v)
        some record { expires_at_ms = expires_at; collection = col })
      else none

unfoldable pub try_update_heap : Heap → Option Value → Heap
unfolding read_event push
try_update_heap heap msg = elim (do event ← msg; read_event event) [
  | none ↦ heap
  | some e ↦ push e heap
]

module _ (w : World) (tx : Str) (now : ℕ) where
  -- Whatever comes of it: an error is only logged.
  unfoldable pub drop_collection : Str → Db → Db
  unfolding delete_collection
  drop_collection c db = (delete_collection w now tx c db).1

  -- At the start, of all expiries.
  unfoldable pub start : List ExpiryEntry → Heap → Db → Heap × Db
  unfolding drop_collection push
  start [] heap db = (heap, db)
  start (e ∷ es) heap db =
      if leb e.expires_at_ms now
      then start es heap (drop_collection e.collection db)
      else start es (push e heap) db

  -- What to do about an entry that has expired: it comes back with the time that its collection has now,
  -- or its collection goes.
  unfoldable pub renewed : Db → Str → Option ℕ
  unfolding get_ttl_expiry
  renewed db c = do current ← get_ttl_expiry db c; if ltb now current then some current else none

  unfoldable pub evict_entry : Str → Heap → Db → Heap × Db
  unfolding renewed push drop_collection
  evict_entry c heap db = elim (renewed db c) [
    | some current ↦ (push record { expires_at_ms = current; collection = c } heap, db)
    | none ↦ (heap, drop_collection c db)
  ]

  unfoldable pub evict_on : ℕ → Heap → Db → Heap × Db
  unfolding evict_entry
  evict_on zero heap db = (heap, db)
  evict_on (suc fuel) [] db = ([], db)
  evict_on (suc fuel) (e ∷ heap) db =
      let next : Heap × Db = evict_entry e.collection heap db in
      let rest = evict_on fuel next.0 next.1 in
      if leb e.expires_at_ms now then rest else (e ∷ heap, db)

  -- An entry that comes back has not expired, so that a turn for each entry is enough.
  unfoldable pub evict : Heap → Db → Heap × Db
  unfolding evict_on
  evict heap db = evict_on (length heap) heap db
