-- ===== src/Tests/Sweep.antt =====
-- A heap with an entry that has expired, of a collection whose expiry was put off.
use molten_db.Prelude.{◌≡◌, refl, some, [], ◌∷◌, codes, str_beq, str_eq, All, arith}
use molten_db.Prelude.Map
use molten_db.Engine.State.{Db}
use molten_db.Engine.Api.{get_ttl_expiry}
use molten_db.Sweep.{Heap, evict}
use molten_db.Sweep.Turn.{IsLive, IsOrdered, evict-IsLive}
use molten_db.Sweep.Live.{view, evict-view}
use molten_db.Tests.Engine.{world, people, one}

abbrev put_off : Db
put_off = record one { memory = record one.memory { ttl_expiry = (people, 9) ∷ [] } }

abbrev heap : Heap
heap =
    record { expires_at_ms = 5; collection = people }
    ∷ record { expires_at_ms = 6; collection = codes "gone" }
    ∷ []

heap-IsOrdered : IsOrdered heap
heap-IsOrdered = ((omega arith, tt), (tt, tt))

evict-IsLive_example : All (IsLive 7) (evict world (codes "t") 7 heap put_off).0
evict-IsLive_example = evict-IsLive world (codes "t") 7 heap put_off heap-IsOrdered

nine : get_ttl_expiry put_off people ≡ some 9
unfolding get_ttl_expiry Map.get str_beq
nine = refl

evict-view_example : view people (evict world (codes "t") 7 heap put_off).1 ≡ view people put_off
evict-view_example = evict-view world (codes "t") 7 heap put_off people 9 (omega arith) nine
