-- ===== src/Reads/Page.antt =====
-- A page of the index is a page of all documents that pass.
use mathlib.Core.List.{append_assoc, append-nil}
use native.Mathlib.Decide.{dec_lt}
use molten_db.Prelude.{
  str_eq, ◌≡◌, refl, arith, ℕ, zero, suc, ◌+◌, ◌%◌, ◌^◌, ◌<◌, ◌≤◌, Bool, false, Option, none, some,
  List, [], ◌∷◌, ◌++◌, Bytes, Str, length, take, drop, leb, if◌then◌else◌, ap, sym, ◌∙◌, Bool-cases,
  Option-cases, inl, inr, length-append,
}
use molten_db.Prelude.Map
use molten_db.Prelude.Map.{Map}
use molten_db.Json.{Value}
use molten_db.Engine.SeqIndex.{SeqIndex}
use molten_db.Reads.{hit, iterate, Params, get_indexed, get_filtered, reverse}

module _ {A : Type 0} where
  take-all : (n : ℕ) (xs : List A) → length xs ≤ n → take n xs ≡ xs
  take-all zero [] h = refl
  take-all zero (x ∷ xs) h = absurd (omega (arith, h))
  take-all (suc n) [] h = refl
  take-all (suc n) (x ∷ xs) h = ap (λ t. x ∷ t) (take-all n xs (omega (arith, h)))

  take-length : (xs ys : List A) → take (length xs) (xs ++ ys) ≡ xs
  take-length [] ys = refl
  take-length (x ∷ xs) ys = ap (λ t. x ∷ t) (take-length xs ys)

  take-take : (n : ℕ) (xs : List A) → take n (take n xs) ≡ take n xs
  take-take zero xs = refl
  take-take (suc n) [] = refl
  take-take (suc n) (x ∷ xs) = ap (λ t. x ∷ t) (take-take n xs)

module _ (predicate : Str → Bytes → Bool) (col : Map Str Bytes) where
  -- All documents of the index that pass, in its order.
  unfoldable pub hits : SeqIndex → List (Str × Value)
  unfolding hit
  hits [] = []
  hits ((seq, key) ∷ idx) =
      let rest = hits idx in elim (hit predicate col key) [ none ↦ rest | some p ↦ p ∷ rest ]

  hits_miss :
      (seq : ℕ) (key : Str) (idx : SeqIndex)
      → hit predicate col key ≡ none
      → hits ((seq, key) ∷ idx) ≡ hits idx
  unfolding hits
  hits_miss seq key idx h = rw (h, hits) refl

  hits_more :
      (seq : ℕ) (key : Str) (idx : SeqIndex) (p : Str × Value)
      → hit predicate col key ≡ some p
      → hits ((seq, key) ∷ idx) ≡ p ∷ hits idx
  unfolding hits
  hits_more seq key idx p h = rw (h, hits) refl

  module _ (need : ℕ) (found : List (Str × Value)) (seq : ℕ) (key : Str) (idx : SeqIndex) where
    iterate_miss :
        hit predicate col key ≡ none
        → iterate predicate col need found ((seq, key) ∷ idx) ≡ iterate predicate col need found idx
    unfolding iterate
    iterate_miss h = rw (h, iterate) refl

    iterate_more :
        (p : Str × Value)
        → hit predicate col key ≡ some p
        → iterate predicate col need found ((seq, key) ∷ idx) ≡ (
            if leb need (suc (length found))
            then found ++ p ∷ []
            else iterate predicate col need (found ++ p ∷ []) idx)
    unfolding iterate
    iterate_more p h = rw (h, iterate) refl

  iterate-take :
      (need : ℕ) (found : List (Str × Value)) (idx : SeqIndex)
      → length found < need
      → iterate predicate col need found idx ≡ take need (found ++ hits idx)
  iterate-take need found [] h =
      unfold iterate hits in
      sym (ap (take need) (append-nil found) ∙ take-all need found (omega (arith, h)))
  iterate-take need found ((seq, key) ∷ idx) h = elim (Option-cases (hit predicate col key)) [
    | inl miss ↦
        iterate_miss need found seq key idx miss
        ∙ iterate-take need found idx h
        ∙ sym (ap (λ l. take need (found ++ l)) (hits_miss seq key idx miss))
    | inr (p, here) ↦
        let next = found ++ p ∷ [] in
        let list : found ++ hits ((seq, key) ∷ idx) ≡ next ++ hits idx =
          ap (λ l. found ++ l) (hits_more seq key idx p here)
          ∙ sym (append_assoc found (p ∷ []) (hits idx)) in
        let size : length next ≡ suc (length found) = omega (arith, length-append found (p ∷ [])) in
        elim (Bool-cases (leb need (suc (length found)))) [
          | inl full ↦
              let exact : need ≡ length next = ground (arith, full, h, size) in
              iterate_more need found seq key idx p here
              ∙ rw full (sym (ap (take need) list ∙ rw exact (take-length next (hits idx))))
          | inr room ↦
              let less : length next < need = ground (arith, room, size) in
              iterate_more need found seq key idx p here
              ∙ rw room (iterate-take need next idx less)
              ∙ sym (ap (take need) list)
        ]
  ]

module _ {A : Type 0} where
  take-drop-take :
      (offset count : ℕ) (xs : List A)
      → take count (drop offset (take (offset + count) xs)) ≡ take count (drop offset xs)
  take-drop-take zero count xs =
      let plain : 0 + count ≡ count = omega arith in rw plain (take-take count xs)
  take-drop-take (suc offset) count [] =
      let next : suc offset + count ≡ suc (offset + count) = omega arith in rw next refl
  take-drop-take (suc offset) count (x ∷ xs) =
      let next : suc offset + count ≡ suc (offset + count) = omega arith in
      rw next (take-drop-take offset count xs)

module _ (skip : Bytes → Option Bytes) (p : Params) (col : Map Str Bytes) (idx : SeqIndex)
    (small : p.offset + p.count < 2 ^ 56) where
  no_wrap : (p.offset + p.count) % 2 ^ 64 ≡ p.offset + p.count
  no_wrap = omega (arith, small)

  abbrev in_order : SeqIndex
  in_order = if p.default_order_asc then idx else reverse idx

  page_some :
      0 < p.offset + p.count
      → get_indexed skip p col idx ≡ take p.count (drop p.offset (hits p.predicate col in_order))
  unfolding get_indexed
  page_some h =
      ap (λ l. take p.count (drop p.offset l))
        (ap (λ n. iterate p.predicate col n [] in_order) no_wrap
          ∙ iterate-take p.predicate col (p.offset + p.count) [] in_order h)
      ∙ take-drop-take p.offset p.count (hits p.predicate col in_order)

  page_none :
      p.count ≡ 0
      → get_indexed skip p col idx ≡ take p.count (drop p.offset (hits p.predicate col in_order))
  unfolding get_indexed
  page_none h = rw h refl

  get_indexed-hits :
      get_indexed skip p col idx ≡ take p.count (drop p.offset (hits p.predicate col in_order))
  get_indexed-hits = elim (dec_lt 0 (p.offset + p.count)) [
    | yes more ↦ page_some more
    | no nothing ↦ page_none (omega (arith, nothing))
  ]

  -- Without a filter that was asked for, and where there is an index, the documents of a page are those
  -- of the index that pass, in its order or against it, without as many as the offset and as many as were
  -- asked for after them, although the loop ends as soon as it has found enough, where the offset and
  -- what was asked for are together below 2^56, so that neither their sum nor the size of as many
  -- documents overflows.
  pub get_filtered-hits :
      (state : Map Str (Map Str Bytes)) (seq_index : Map Str SeqIndex) (collection : Str)
      → Map.get state collection ≡ some col
      → Map.get seq_index collection ≡ some idx
      → p.has_where ≡ false
      → get_filtered skip p state seq_index collection
        ≡ take p.count (
            drop p.offset (hits p.predicate col (if p.default_order_asc then idx else reverse idx)))
  unfolding get_filtered
  get_filtered-hits state seq_index collection c i w =
      rw (c, get_filtered) (rw w (rw i get_indexed-hits))
