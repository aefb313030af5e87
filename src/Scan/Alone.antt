-- ===== src/Scan/Alone.antt =====
-- What one task finds alone in a collection.
use mathlib.Core.List.{append_assoc}
use molten_db.Prelude.{
  ◌≡◌, refl, ℕ, Bool, Option, none, some, List, [], ◌∷◌, ◌++◌, take, if◌then◌else◌, ap, sym, ◌∙◌,
  Bytes, Str,
}
use molten_db.Prelude.Map.{Map}
use molten_db.Codec.Token.{read_msgpack_seq_token}
use molten_db.Query.Host.{Host}
use molten_db.Scan.{SortItem, TaskKind, filtered, sorted, Task, Accum, pairs, heap, sort_item}
use molten_db.Scan.Sorting.{sort_into}

module _ (skip : Bytes → Option Bytes) (h : Host) where
  abbrev pub one_item : Option SortItem → List SortItem
  one_item none = []
  one_item (some item) = item ∷ []

  -- The items of the documents that pass the filter and have a number at the path.
  unfoldable pub candidates : List Str → Bool → (Str → Bytes → Bool) → Map Str Bytes → List SortItem
  unfolding sort_item
  candidates path desc passes [] = []
  candidates path desc passes ((key, bytes) ∷ col) =
      (if passes key bytes then one_item (sort_item skip h path desc key bytes) else [])
      ++ candidates path desc passes col

  -- The documents that pass the filter, by their sequence numbers and keys.
  unfoldable pub matching : (Str → Bytes → Bool) → Map Str Bytes → List (ℕ × Str)
  unfolding read_msgpack_seq_token
  matching passes [] = []
  matching passes ((key, bytes) ∷ col) =
      (if passes key bytes then (read_msgpack_seq_token skip bytes, key) ∷ [] else [])
      ++ matching passes col

  -- What one task finds alone: all matches, or the first of the sorted candidates.
  unfoldable pub found_by : TaskKind → (Str → Bytes → Bool) → Map Str Bytes → Accum
  unfolding candidates matching sort_into
  found_by filtered passes col = pairs (matching passes col)
  found_by (sorted path desc most) passes col =
      heap (take most (sort_into [] (candidates path desc passes col)))

  abbrev pub found : Map Str Bytes → Task → Accum
  found col t = found_by t.kind t.predicate col

  pub candidates-append :
      (path : List Str) (desc : Bool) (passes : Str → Bytes → Bool) (xs ys : Map Str Bytes)
      → candidates path desc passes (xs ++ ys)
        ≡ candidates path desc passes xs ++ candidates path desc passes ys
  unfolding candidates
  candidates-append path desc passes [] ys = refl
  candidates-append path desc passes ((key, bytes) ∷ xs) ys =
      ap
        (λ l.
          (if passes key bytes then one_item (sort_item skip h path desc key bytes) else []) ++ l)
        (candidates-append path desc passes xs ys)
      ∙ sym (append_assoc _ (candidates path desc passes xs) (candidates path desc passes ys))

  pub matching-append :
      (passes : Str → Bytes → Bool) (xs ys : Map Str Bytes)
      → matching passes (xs ++ ys) ≡ matching passes xs ++ matching passes ys
  unfolding matching
  matching-append passes [] ys = refl
  matching-append passes ((key, bytes) ∷ xs) ys =
      ap
        (λ l. (if passes key bytes then (read_msgpack_seq_token skip bytes, key) ∷ [] else []) ++ l)
        (matching-append passes xs ys)
      ∙ sym (append_assoc _ (matching passes xs) (matching passes ys))
