-- ===== src/Scan/Pass.antt =====
-- A shared pass gives each task what it would find alone, however the collection is divided.
use mathlib.Core.List.{append_assoc, append-nil, Permᴰ}
use molten_db.Prelude.{
  ◌≡◌, refl, ℕ, zero, suc, true, false, Bool, Option, none, some, List, [], ◌∷◌, ◌++◌, take,
  if◌then◌else◌, Bool-cases, inl, inr, ap, ap₂, sym, ◌∙◌, Bytes, Str, map,
}
use molten_db.Prelude.Map.{Map}
use molten_db.Query.Host.{Host}
use molten_db.Scan.{
  SortItem, Heap, push_all, push_found, TaskKind, filtered, sorted, Task, pairs, heap,
  new_accumulator, new_accumulators, sort_item, visit_kind, visit_task, visit, scan_entries,
  Division, part, join, merge_kind, merge_task, merge_all, shared_pass,
}
use molten_db.Scan.Sorting.{sort_into, sort_into-IsSorted, sort_into-append}
use molten_db.Scan.Heap.{push_all-take}
use molten_db.Scan.Merge.{push_all-merge}
use molten_db.Scan.Alone.{
  one_item, candidates, matching, found_by, found, candidates-append, matching-append,
}

-- The entries of a collection, in the order of the parts.
unfoldable pub entries : Division → Map Str Bytes
entries (part col) = col
entries (join a b) = entries a ++ entries b

module _ (skip : Bytes → Option Bytes) (h : Host) where
  push_found-take :
      (most : ℕ) (xs : List SortItem) (o : Option SortItem)
      → push_found most (take most (sort_into [] xs)) o
        ≡ take most (sort_into [] (xs ++ one_item skip h o))
  unfolding push_found push_all
  push_found-take most xs none = ap (λ l. take most (sort_into [] l)) (sym (append-nil xs))
  push_found-take most xs (some item) =
      push_all-take most (sort_into [] xs) (item ∷ []) (sort_into-IsSorted [] xs tt)
      ∙ ap (take most) (sym (sort_into-append [] xs (item ∷ [])))

  module _ (path : List Str) (desc : Bool) (passes : Str → Bytes → Bool) (seen : Map Str Bytes)
      (key : Str) (bytes : Bytes) where
    candidates_more :
        passes key bytes ≡ true
        → candidates skip h path desc passes (seen ++ (key, bytes) ∷ [])
          ≡ candidates skip h path desc passes seen
            ++ one_item skip h (sort_item skip h path desc key bytes)
    unfolding candidates
    candidates_more yields =
        candidates-append skip h path desc passes seen ((key, bytes) ∷ [])
        ∙ rw yields (
            ap (λ l. candidates skip h path desc passes seen ++ l)
              (append-nil (one_item skip h (sort_item skip h path desc key bytes))))

    candidates_same :
        passes key bytes ≡ false
        → candidates skip h path desc passes (seen ++ (key, bytes) ∷ [])
          ≡ candidates skip h path desc passes seen
    unfolding candidates
    candidates_same fails =
        candidates-append skip h path desc passes seen ((key, bytes) ∷ [])
        ∙ rw fails (append-nil (candidates skip h path desc passes seen))

  visit_kind-found_by :
      (kind : TaskKind) (passes : Str → Bytes → Bool) (seen : Map Str Bytes) (key : Str)
      (bytes : Bytes)
      → (if passes key bytes
          then visit_kind skip h kind (found_by skip h kind passes seen) key bytes
          else found_by skip h kind passes seen)
        ≡ found_by skip h kind passes (seen ++ (key, bytes) ∷ [])
  unfolding found_by visit_kind matching candidates
  visit_kind-found_by filtered passes seen key bytes = elim (Bool-cases (passes key bytes)) [
    | inl yields ↦
        rw yields
          (ap pairs (sym (matching-append skip h passes seen ((key, bytes) ∷ []) ∙ rw yields refl)))
    | inr fails ↦ rw fails (
        ap pairs (
          sym (
            matching-append skip h passes seen ((key, bytes) ∷ [])
            ∙ rw fails (append-nil (matching skip h passes seen)))))
  ]
  visit_kind-found_by (sorted path desc most) passes seen key bytes =
      elim (Bool-cases (passes key bytes)) [
        | inl yields ↦ rw yields (
            ap heap (
              push_found-take most (candidates skip h path desc passes seen)
                (sort_item skip h path desc key bytes)
              ∙ ap (λ l. take most (sort_into [] l))
                  (sym (candidates_more path desc passes seen key bytes yields))))
        | inr fails ↦ rw fails (
            ap (λ l. heap (take most (sort_into [] l)))
              (sym (candidates_same path desc passes seen key bytes fails)))
      ]

  visit-found :
      (tasks : List Task) (seen : Map Str Bytes) (entry : Str × Bytes)
      → visit skip h tasks (map (found skip h seen) tasks) entry
        ≡ map (found skip h (seen ++ entry ∷ [])) tasks
  unfolding visit visit_task
  visit-found [] seen entry = refl
  visit-found (t ∷ tasks) seen (key, bytes) =
      ap₂ (λ x xs. x ∷ xs) (visit_kind-found_by t.kind t.predicate seen key bytes)
        (visit-found tasks seen (key, bytes))

  scan_entries-found :
      (tasks : List Task) (seen col : Map Str Bytes)
      → scan_entries skip h tasks (map (found skip h seen) tasks) col
        ≡ map (found skip h (seen ++ col)) tasks
  unfolding scan_entries
  scan_entries-found tasks seen [] = ap (λ l. map (found skip h l) tasks) (sym (append-nil seen))
  scan_entries-found tasks seen (entry ∷ col) =
      ap (λ accs. scan_entries skip h tasks accs col) (visit-found tasks seen entry)
      ∙ scan_entries-found tasks (seen ++ entry ∷ []) col
      ∙ ap (λ l. map (found skip h l) tasks) (append_assoc seen (entry ∷ []) col)

take-nil : (n : ℕ) → take {A = SortItem} n [] ≡ []
take-nil zero = refl
take-nil (suc n) = refl

module _ (skip : Bytes → Option Bytes) (h : Host) (drain : Heap → Heap)
    (drains : (items : Heap) → Permᴰ (drain items) items) where
  new_found_by :
      (kind : TaskKind) (passes : Str → Bytes → Bool)
      → new_accumulator kind ≡ found_by skip h kind passes []
  unfolding new_accumulator found_by candidates matching sort_into
  new_found_by filtered passes = refl
  new_found_by (sorted path desc most) passes = ap heap (sym (take-nil most))

  new-found : (tasks : List Task) → new_accumulators tasks ≡ map (found skip h []) tasks
  unfolding new_accumulators new_accumulator
  new-found [] = refl
  new-found (t ∷ tasks) = ap₂ (λ x xs. x ∷ xs) (new_found_by t.kind t.predicate) (new-found tasks)

  merge_kind-found_by :
      (kind : TaskKind) (passes : Str → Bytes → Bool) (xs ys : Map Str Bytes)
      → merge_kind drain kind (found_by skip h kind passes xs) (found_by skip h kind passes ys)
        ≡ found_by skip h kind passes (xs ++ ys)
  unfolding merge_kind found_by
  merge_kind-found_by filtered passes xs ys = ap pairs (sym (matching-append skip h passes xs ys))
  merge_kind-found_by (sorted path desc most) passes xs ys =
      let left = candidates skip h path desc passes xs in
      let right = candidates skip h path desc passes ys in
      ap heap (
        push_all-merge most left right (drain (take most (sort_into [] right)))
          (drains (take most (sort_into [] right)))
        ∙ ap (λ l. take most (sort_into [] l))
            (sym (candidates-append skip h path desc passes xs ys)))

  merge_all-found :
      (tasks : List Task) (xs ys : Map Str Bytes)
      → merge_all drain tasks (map (found skip h xs) tasks) (map (found skip h ys) tasks)
        ≡ map (found skip h (xs ++ ys)) tasks
  unfolding merge_all merge_task
  merge_all-found [] xs ys = refl
  merge_all-found (t ∷ tasks) xs ys =
      ap₂ (λ x l. x ∷ l) (merge_kind-found_by t.kind t.predicate xs ys)
        (merge_all-found tasks xs ys)

  -- However the entries of a collection are divided among threads, and in whatever order a heap gives
  -- its items, a shared pass finds for each of its tasks what the task finds alone in all entries: the
  -- matches in the order of the entries, or the first of the sorted items, as many as the task asks for.
  pub shared_pass-found :
      (tasks : List Task) (d : Division)
      → shared_pass drain skip h tasks d ≡ map (found skip h (entries d)) tasks
  unfolding shared_pass entries
  shared_pass-found tasks (part col) =
      ap (λ accs. scan_entries skip h tasks accs col) (new-found tasks)
      ∙ scan_entries-found skip h tasks [] col
  shared_pass-found tasks (join a b) =
      ap₂ (merge_all drain tasks) (shared_pass-found tasks a) (shared_pass-found tasks b)
      ∙ merge_all-found tasks (entries a) (entries b)
