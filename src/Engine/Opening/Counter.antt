-- ===== src/Engine/Opening/Counter.antt =====
-- After opening, the index finds each document, and the counter is above all of them.
use molten_db.Prelude.{
  ◌≡◌, ◌≢◌, refl, ◌∙◌, arith, ℕ, ◌+◌, ◌-◌, ◌%◌, ◌^◌, ◌<◌, ◌≤◌, [], ◌∷◌, Bytes, Option, some, Str,
  All, ltb, if◌then◌else◌,
}
use molten_db.Prelude.Map.{Map}
use molten_db.Codec.Token.{read_msgpack_seq_token}
use molten_db.Engine.SeqIndex
use molten_db.Engine.SeqIndex.{SeqIndex}
use molten_db.Engine.SeqIndex.Order.{IsSorted, index-IsSorted}
use molten_db.Engine.Opening.{scan_documents, open_collection}

module _ (skip : Bytes → Option Bytes) where
  abbrev pub seq_of : Str × Bytes → ℕ
  seq_of d = read_msgpack_seq_token skip d.1

  -- No two documents have one sequence number.
  abbrev pub AreDistinct : Map Str Bytes → Type 0
  AreDistinct [] = Unit
  AreDistinct (d ∷ col) = All (λ e. seq_of e ≢ seq_of d) col × AreDistinct col

  scan_documents-IsSorted :
      (btree : SeqIndex) (m : ℕ) (col : Map Str Bytes)
      → IsSorted btree
      → IsSorted (scan_documents skip btree m col).0
  unfolding scan_documents
  scan_documents-IsSorted btree m [] s = s
  scan_documents-IsSorted btree m ((k, bytes) ∷ col) s =
      let seq = read_msgpack_seq_token skip bytes in
      scan_documents-IsSorted (SeqIndex.insert seq k btree) (if ltb m seq then seq else m) col
        (index-IsSorted seq k btree s).0

  scan_documents-other :
      (seq : ℕ) (btree : SeqIndex) (m : ℕ) (col : Map Str Bytes)
      → IsSorted btree
      → All (λ e. seq_of e ≢ seq) col
      → SeqIndex.get (scan_documents skip btree m col).0 seq ≡ SeqIndex.get btree seq
  unfolding scan_documents
  scan_documents-other seq btree m [] s h = refl
  scan_documents-other seq btree m ((k, bytes) ∷ col) s h =
      let own = read_msgpack_seq_token skip bytes in
      let (sorted, _, get, _) = index-IsSorted own k btree s in
      scan_documents-other seq (SeqIndex.insert own k btree) (if ltb m own then own else m) col
        sorted h.1
      ∙ get seq
      ∙ ground (arith, h.0)

  scan_documents-max :
      (btree : SeqIndex) (m : ℕ) (col : Map Str Bytes)
      → (m ≤ (scan_documents skip btree m col).1)
        × All (λ e. seq_of e ≤ (scan_documents skip btree m col).1) col
  unfolding scan_documents
  scan_documents-max btree m [] = (omega arith, tt)
  scan_documents-max btree m ((k, bytes) ∷ col) =
      let own = read_msgpack_seq_token skip bytes in
      let (low, all) =
        scan_documents-max (SeqIndex.insert own k btree) (if ltb m own then own else m) col in
      (ground (arith, low), (ground (arith, low), all))

  scan_documents-get :
      (btree : SeqIndex) (m : ℕ) (col : Map Str Bytes)
      → IsSorted btree
      → AreDistinct col
      → All (λ e. SeqIndex.get (scan_documents skip btree m col).0 (seq_of e) ≡ some e.0) col
  unfolding scan_documents
  scan_documents-get btree m [] s h = tt
  scan_documents-get btree m ((k, bytes) ∷ col) s h =
      let own = read_msgpack_seq_token skip bytes in
      let (sorted, _, get, _) = index-IsSorted own k btree s in
      let next : ℕ = if ltb m own then own else m in
      (
        scan_documents-other own (SeqIndex.insert own k btree) next col sorted h.0
            ∙ get own
            ∙ ground arith,
        scan_documents-get (SeqIndex.insert own k btree) next col sorted h.1,
      )

  scan_documents-below :
      (bound : ℕ) (btree : SeqIndex) (m : ℕ) (col : Map Str Bytes)
      → m < bound
      → All (λ e. seq_of e < bound) col
      → (scan_documents skip btree m col).1 < bound
  unfolding scan_documents
  scan_documents-below bound btree m [] l h = l
  scan_documents-below bound btree m ((k, bytes) ∷ col) l h =
      let own = read_msgpack_seq_token skip bytes in
      scan_documents-below bound (SeqIndex.insert own k btree) (if ltb m own then own else m) col
        (ground (arith, l, h.0)) h.1

  below_next :
      (m : ℕ) (col : Map Str Bytes)
      → m < 2 ^ 64 - 1
      → All (λ e. seq_of e ≤ m) col
      → All (λ e. seq_of e < (m + 1) % 2 ^ 64) col
  below_next m [] l h = tt
  below_next m (e ∷ col) l h = (omega (arith, l, h.0), below_next m col l h.1)

  -- After opening, the index of a collection whose documents have numbers of their own, all below the
  -- greatest of 64 bits, is in order and finds each document under its number, and the counter is above
  -- the number of each document.
  pub open_collection-All :
      (col : Map Str Bytes)
      → AreDistinct col
      → All (λ e. seq_of e < 2 ^ 64 - 1) col
      → IsSorted (open_collection skip col).0
        × All (λ e. SeqIndex.get (open_collection skip col).0 (seq_of e) ≡ some e.0) col
        × All (λ e. seq_of e < (open_collection skip col).1) col
  unfolding open_collection
  open_collection-All col d h = (
    scan_documents-IsSorted [] 0 col tt,
    scan_documents-get [] 0 col tt d,
    below_next (scan_documents skip [] 0 col).1 col
        (scan_documents-below (2 ^ 64 - 1) [] 0 col (omega arith) h)
        (scan_documents-max [] 0 col).1,
  )
