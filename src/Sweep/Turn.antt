-- ===== src/Sweep/Turn.antt =====
-- A turn of the sweep ends with nothing on the heap that has expired.
use molten_db.Prelude.{
  ◌≡◌, refl, arith, ℕ, zero, suc, ◌≤◌, ◌<◌, Option, none, some, [], ◌∷◌, Str, leb, ltb, leb→le,
  Bool-cases, Option-cases, inl, inr, All, length, if◌then◌else◌, ◌>>=◌,
}
use molten_db.Engine.State.{World, Db}
use molten_db.Engine.Api.{get_ttl_expiry}
use molten_db.Sweep.{ExpiryEntry, Heap, push, renewed, evict_entry, evict_on, evict}

abbrev pub IsOrdered : Heap → Type 0
IsOrdered [] = Unit
IsOrdered (e ∷ heap) = All (λ f. e.expires_at_ms ≤ f.expires_at_ms) heap × IsOrdered heap

-- How many entries have expired.
pub due : ℕ → Heap → ℕ
due now [] = 0
due now (e ∷ heap) = let rest = due now heap in if leb e.expires_at_ms now then suc rest else rest

abbrev pub IsLive : ℕ → ExpiryEntry → Type 0
IsLive now e = now < e.expires_at_ms

pub due-le-length : (now : ℕ) (heap : Heap) → due now heap ≤ length heap
unfolding due
due-le-length now [] = omega arith
due-le-length now (e ∷ heap) = ground (arith, due-le-length now heap)

due-push :
    (now : ℕ) (e : ExpiryEntry) (heap : Heap) → IsLive now e → due now (push e heap) ≡ due now heap
unfolding due push
due-push now e [] h = ground arith
due-push now e (f ∷ heap) h = ground (arith, due-push now e heap h)

push-All :
    (P : ExpiryEntry → Type 0) (e : ExpiryEntry) (heap : Heap)
    → P e
    → All P heap
    → All P (push e heap)
unfolding push
push-All P e [] p h = (p, tt)
push-All P e (f ∷ heap) p h = elim (Bool-cases (leb e.expires_at_ms f.expires_at_ms)) [
  | inl first ↦ rw first (p, h)
  | inr later ↦ rw later (h.0, push-All P e heap p h.1)
]

All-later :
    (a b : ℕ) (heap : Heap)
    → a ≤ b
    → All (λ f. b ≤ f.expires_at_ms) heap
    → All (λ f. a ≤ f.expires_at_ms) heap
All-later a b [] h l = tt
All-later a b (f ∷ heap) h l = (omega (arith, h, l.0), All-later a b heap h l.1)

push-IsOrdered : (e : ExpiryEntry) (heap : Heap) → IsOrdered heap → IsOrdered (push e heap)
unfolding push
push-IsOrdered e [] h = (tt, tt)
push-IsOrdered e (f ∷ heap) h = elim (Bool-cases (leb e.expires_at_ms f.expires_at_ms)) [
  | inl first ↦
      let le = leb→le e.expires_at_ms f.expires_at_ms first in
      rw first ((le, All-later e.expires_at_ms f.expires_at_ms heap le h.0), h)
  | inr later ↦ rw later (
    push-All (λ g. f.expires_at_ms ≤ g.expires_at_ms) e heap (ground (arith, later)) h.0,
    push-IsOrdered e heap h.1,
  )
]

none_due : (now : ℕ) (heap : Heap) → due now heap ≤ 0 → All (IsLive now) heap
unfolding due
none_due now [] h = tt
none_due now (e ∷ heap) h = elim (Bool-cases (leb e.expires_at_ms now)) [
  | inl gone ↦ absurd (let q : suc (due now heap) ≤ 0 = rw (due, gone) at h in omega (arith, q))
  | inr live ↦ (
    ground (arith, live),
    none_due now heap (let q : due now heap ≤ 0 = rw (due, live) at h in q),
  )
]

All-IsLive :
    (now bound : ℕ) (heap : Heap)
    → now < bound
    → All (λ f. bound ≤ f.expires_at_ms) heap
    → All (IsLive now) heap
All-IsLive now bound [] h l = tt
All-IsLive now bound (f ∷ heap) h l = (omega (arith, h, l.0), All-IsLive now bound heap h l.1)

module _ (w : World) (tx : Str) (now : ℕ) where
  pub renewed-later :
      (db : Db) (c : Str) (current : ℕ) → renewed w tx now db c ≡ some current → now < current
  unfolding renewed
  renewed-later db c current h = go (get_ttl_expiry db c) h
    where
      go :
          (o : Option ℕ)
          → (do at ← o; if ltb now at then some at else none) ≡ some current
          → now < current
      go none g = absurd (cc g)
      go (some at) g = elim (Bool-cases (ltb now at)) [
        | inl later ↦
            let same : some at ≡ some current = rw later at g in ground (arith, same, later)
        | inr gone ↦ absurd (let q : none ≡ some current = rw gone at g in cc q)
      ]

  entry-kept :
      (c : Str) (heap : Heap) (db : Db)
      → IsOrdered heap
      → IsOrdered (evict_entry w tx now c heap db).0
        × ((due now (evict_entry w tx now c heap db).0) ≡ due now heap)
  unfolding evict_entry
  entry-kept c heap db h = elim (Option-cases (renewed w tx now db c)) [
    | inl gone ↦ rw (evict_entry, gone) (h, refl)
    | inr (current, e) ↦
        let again : ExpiryEntry = record { expires_at_ms = current; collection = c } in
        rw (evict_entry, e)
          (push-IsOrdered again heap h, due-push now again heap (renewed-later db c current e))
  ]

  pub evict_on-IsLive :
      (fuel : ℕ) (heap : Heap) (db : Db)
      → IsOrdered heap
      → due now heap ≤ fuel
      → All (IsLive now) (evict_on w tx now fuel heap db).0
  unfolding evict_on due
  evict_on-IsLive zero heap db o h = none_due now heap h
  evict_on-IsLive (suc fuel) [] db o h = tt
  evict_on-IsLive (suc fuel) (e ∷ heap) db o h = elim (Bool-cases (leb e.expires_at_ms now)) [
    | inl gone ↦
        let (ordered, same) = entry-kept e.collection heap db o.1 in
        let count : suc (due now heap) ≤ suc fuel = rw (due, gone) at h in
        rw gone (
          evict_on-IsLive fuel (evict_entry w tx now e.collection heap db).0
            (evict_entry w tx now e.collection heap db).1 ordered (omega (arith, same, count)))
    | inr live ↦
        let later : now < e.expires_at_ms = ground (arith, live) in
        rw live ((later, All-IsLive now e.expires_at_ms heap later o.0))
  ]

-- A turn of the sweep over a heap in order, with as many rounds as there are entries, ends with no entry
-- on the heap that has expired.
pub evict-IsLive :
    (w : World) (tx : Str) (now : ℕ) (heap : Heap) (db : Db)
    → IsOrdered heap
    → All (IsLive now) (evict w tx now heap db).0
unfolding evict
evict-IsLive w tx now heap db o =
    evict_on-IsLive w tx now (length heap) heap db o (due-le-length now heap)
