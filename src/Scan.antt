-- ===== src/Scan.antt =====
-- Coalesced scans: moltendb-core/src/engine/coalesce.rs.
pub mod Order
pub mod Sorting
pub mod Heap
pub mod Merge
pub mod Alone
pub mod Pass
use molten_db.Prelude.{
  ℕ, zero, suc, ◌+◌, ◌-◌, ◌^◌, Bool, true, false, ◌&&◌, ◌||◌, Option, none, some, List, [], ◌∷◌,
  ◌++◌, Bytes, Str, str_ltb, str_beq, length, ltb, leb, nat_beq, if◌then◌else◌, ◌>>=◌,
}
use molten_db.Prelude.Map.{Map}
use molten_db.Codec.Token.{read_msgpack_seq_token}
use molten_db.Query.Host.{Host}
use molten_db.Query.Bytes.{find_msgpack_value, read_msgpack_number}

-- The place of a double in the order of `f64::total_cmp`. From 2 ^ 64 on there are none.
unfoldable pub place : ℕ → ℕ
place bits =
    if ltb bits (2 ^ 63)
    then 2 ^ 63 + bits
    else if ltb bits (2 ^ 64)
    then 2 ^ 64 - 1 - bits
    else bits

-- `-num`: the sign bit is turned.
unfoldable pub negate : ℕ → ℕ
negate bits = if ltb bits (2 ^ 63) then bits + 2 ^ 63 else bits - 2 ^ 63

pub record SortItem : Type 0 where
  pub key : Str
  pub sort_value : ℕ

-- `item < other`
unfoldable pub item_lt : SortItem → SortItem → Bool
unfolding place
item_lt a b =
    ltb (place a.sort_value) (place b.sort_value)
    || (nat_beq (place a.sort_value) (place b.sort_value) && str_ltb a.key b.key)

-- A `BinaryHeap` as the list of its items, the smallest first.
abbrev pub Heap : Type 0
Heap = List SortItem

-- `BinaryHeap::push`
unfoldable pub push : SortItem → Heap → Heap
unfolding item_lt
push x [] = x ∷ []
push x (y ∷ heap) = if item_lt x y then x ∷ y ∷ heap else y ∷ push x heap

-- `BinaryHeap::peek`
unfoldable pub peek : Heap → Option SortItem
peek [] = none
peek (x ∷ []) = some x
peek (x ∷ y ∷ heap) = peek (y ∷ heap)

-- `BinaryHeap::pop`
unfoldable pub pop : Heap → Heap
pop [] = []
pop (x ∷ []) = []
pop (x ∷ y ∷ heap) = x ∷ pop (y ∷ heap)

unfoldable pub push_bounded : ℕ → Heap → SortItem → Heap
unfolding push peek pop item_lt
push_bounded cap heap item =
    if nat_beq cap 0
    then heap
    else if leb cap (length heap)
    then (elim (peek heap) [
      | none ↦ heap
      | some worst ↦ if item_lt item worst then push item (pop heap) else heap
    ])
    else push item heap

unfoldable pub push_all : ℕ → Heap → List SortItem → Heap
unfolding push_bounded
push_all cap heap [] = heap
push_all cap heap (x ∷ xs) = push_all cap (push_bounded cap heap x) xs

pub data TaskKind : Type 0 where
  filtered : TaskKind
  -- path, `is_descending`, `cap`
  sorted : List Str → Bool → ℕ → TaskKind

pub record Task : Type 0 where
  pub predicate : Str → Bytes → Bool
  pub kind : TaskKind

pub data Accum : Type 0 where
  pairs : List (ℕ × Str) → Accum
  heap : Heap → Accum

-- The capacity that is reserved for a heap is left out.
unfoldable pub new_accumulator : TaskKind → Accum
new_accumulator filtered = pairs []
new_accumulator (sorted path desc cap) = heap []

unfoldable pub new_accumulators : List Task → List Accum
unfolding new_accumulator
new_accumulators [] = []
new_accumulators (t ∷ tasks) = new_accumulator t.kind ∷ new_accumulators tasks

unfoldable pub push_found : ℕ → Heap → Option SortItem → Heap
unfolding push_bounded
push_found cap items none = items
push_found cap items (some item) = push_bounded cap items item

module _ (skip : Bytes → Option Bytes) (h : Host) where
  -- The item of a document that has a number at the path.
  unfoldable pub sort_item : List Str → Bool → Str → Bytes → Option SortItem
  unfolding find_msgpack_value read_msgpack_number negate
  sort_item path desc key bytes = do
    slice ← find_msgpack_value skip path bytes
    num ← read_msgpack_number h slice
    some record { key = key; sort_value = if desc then negate num else num }

  unfoldable pub visit_kind : TaskKind → Accum → Str → Bytes → Accum
  unfolding sort_item push_found read_msgpack_seq_token
  visit_kind filtered (pairs found) key bytes =
      pairs (found ++ (read_msgpack_seq_token skip bytes, key) ∷ [])
  visit_kind (sorted path desc cap) (heap items) key bytes =
      heap (push_found cap items (sort_item path desc key bytes))
  visit_kind _ acc key bytes = acc

  unfoldable pub visit_task : Task → Accum → Str × Bytes → Accum
  unfolding visit_kind
  visit_task t acc (key, bytes) =
      if t.predicate key bytes then visit_kind t.kind acc key bytes else acc

  unfoldable pub visit : List Task → List Accum → Str × Bytes → List Accum
  unfolding visit_task
  visit (t ∷ tasks) (acc ∷ accs) entry = visit_task t acc entry ∷ visit tasks accs entry
  visit _ accs entry = accs

  unfoldable pub scan_entries : List Task → List Accum → Map Str Bytes → List Accum
  unfolding visit
  scan_entries tasks accs [] = accs
  scan_entries tasks accs (entry ∷ col) = scan_entries tasks (visit tasks accs entry) col

-- How the entries of a collection are divided among threads, and the parts joined.
pub data Division : Type 0 where
  part : Map Str Bytes → Division
  join : Division → Division → Division

module _ (drain : Heap → Heap) where
  -- `drain` is the order in which a heap gives its items.
  unfoldable pub merge_kind : TaskKind → Accum → Accum → Accum
  unfolding push_all
  merge_kind filtered (pairs a) (pairs b) = pairs (a ++ b)
  merge_kind (sorted path desc cap) (heap a) (heap b) = heap (push_all cap a (drain b))
  merge_kind _ a b = a

  unfoldable pub merge_task : Task → Accum → Accum → Accum
  unfolding merge_kind
  merge_task t a b = merge_kind t.kind a b

  unfoldable pub merge_all : List Task → List Accum → List Accum → List Accum
  unfolding merge_task
  merge_all (t ∷ tasks) (a ∷ accs) (b ∷ bs) = merge_task t a b ∷ merge_all tasks accs bs
  merge_all _ accs bs = accs

  -- `fold` and `reduce`
  unfoldable pub shared_pass : (Bytes → Option Bytes) → Host → List Task → Division → List Accum
  unfolding scan_entries merge_all new_accumulators
  shared_pass skip h tasks (part col) = scan_entries skip h tasks (new_accumulators tasks) col
  shared_pass skip h tasks (join a b) =
      merge_all tasks (shared_pass skip h tasks a) (shared_pass skip h tasks b)
