-- ===== src/Reads/Keys.antt =====
-- The keys of the documents that reads give: those that were asked for, or that pass.
use molten_db.Prelude.{
  ◌≡◌, refl, ℕ, Bool, true, false, none, some, List, [], ◌∷◌, Bytes, Str, str_eq, All, leb, ◌>>=◌,
  if◌then◌else◌, ◌==◌,
}
use molten_db.Prelude.Map
use molten_db.Prelude.Map.{Map}
use molten_db.Json.{Value}
use molten_db.Codec.Read.{msgpack_to_value}
use molten_db.Reads.{get, get_from, insert_by, sort_by_seq}

-- On a test.
pub if-All :
    {A : Type 0} (P : A → Type 0) (b : Bool) (xs ys : List A)
    → (b ≡ true → All P xs)
    → (b ≡ false → All P ys)
    → All P (if b then xs else ys)
if-All P true xs ys h g = h refl
if-All P false xs ys h g = g refl

module _ {A : Type 0} (P : ℕ × A → Type 0) where
  All-insert_by :
      (asc : Bool) (x : ℕ × A) (xs : List (ℕ × A)) → P x → All P xs → All P (insert_by asc x xs)
  unfolding insert_by
  All-insert_by asc x [] h g = (h, tt)
  All-insert_by asc x (y ∷ ys) h g =
      if-All P (if asc then leb x.0 y.0 else leb y.0 x.0) _ _ (λ e. (h, g))
        λ e. (g.0, All-insert_by asc x ys h g.1)

  pub All-sort_by_seq : (asc : Bool) (xs : List (ℕ × A)) → All P xs → All P (sort_by_seq asc xs)
  unfolding sort_by_seq
  All-sort_by_seq asc [] h = tt
  All-sort_by_seq asc (x ∷ xs) h =
      All-insert_by asc x (sort_by_seq asc xs) h.0 (All-sort_by_seq asc xs h.1)

module _ (Q : Str → Type 0) where
  abbrev pub KeysAll : {V : Type 0} → List (Str × V) → Type 0
  KeysAll xs = All (λ p. Q p.0) xs

  insert-KeysAll :
      {V : Type 0} (k : Str) (v : V) (m : Map Str V) → Q k → KeysAll m → KeysAll (Map.insert k v m)
  unfolding Map.insert
  insert-KeysAll k v [] h g = (h, tt)
  insert-KeysAll k v ((j, w) ∷ m) h g =
      if-All (λ p. Q p.0) (j == k) _ _ (λ e. g) λ e. (g.0, insert-KeysAll k v m h g.1)

  get_from-KeysAll :
      (col : Map Str Bytes) (ks : List Str) (results : Map Str Value)
      → All Q ks
      → KeysAll results
      → KeysAll (get_from col ks results)
  unfolding get_from
  get_from-KeysAll col [] results h g = g
  get_from-KeysAll col (k ∷ ks) results h g =
      elim (do bytes ← Map.get col k; msgpack_to_value bytes)
        as (λ o. KeysAll (elim o [
          | none ↦ get_from col ks results
          | some v ↦ get_from col ks (Map.insert k v results)
        ])) [
          | none ↦ get_from-KeysAll col ks results h.1 g
          | some v ↦
              get_from-KeysAll col ks (Map.insert k v results) h.1
                (insert-KeysAll k v results h.0 g)
        ]

  -- The documents under keys have those keys.
  pub get-KeysAll :
      (state : Map Str (Map Str Bytes)) (collection : Str) (ks : List Str)
      → All Q ks
      → KeysAll (get state collection ks)
  unfolding get
  get-KeysAll state collection ks h =
      elim (Map.get state collection)
        as (λ o. KeysAll (elim o [ none ↦ [] | some col ↦ get_from col ks [] ])) [
          | none ↦ tt
          | some col ↦ get_from-KeysAll col ks [] h tt
        ]
