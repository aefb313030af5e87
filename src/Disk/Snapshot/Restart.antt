-- ===== src/Disk/Snapshot/Restart.antt =====
-- A restart after the log was swapped for a snapshot.
use molten_db.Prelude.{
  ◌≡◌, refl, ap, ap₂, sym, ◌∙◌, arith, ℕ, suc, ◌+◌, ◌^◌, ◌<◌, Bool, true, Option, none, some, List,
  [], ◌∷◌, ◌++◌, Bytes, Str, length, take, All, map, if◌then◌else◌,
}
use molten_db.Prelude.Map.{Map}
use molten_db.Json.{Value}
use molten_db.Wal.Entry.{LogEntry}
use molten_db.Disk.{
  write_msgpack_entry, write_compacted_log_no_tx, ControlFlow, proceed, stream_log_entries,
}
use molten_db.Disk.Laws.{IsWritable, canon_entry, feed, stream_log_entries-feed}
use molten_db.Disk.Snapshot.{
  Gzip, collection_entries, schema_entries, snapshot_file, write_snapshot_from_maps, load_snapshot,
  counted, stream_log_into,
}
use molten_db.Disk.Snapshot.Load.{
  IsSound, AllDecode, deliver, load_snapshot-snapshot_file, write_snapshot_from_maps-snapshot_file,
}

-- The steps of a callback that never stops.
pub steps : {S : Type 0} → (S → LogEntry → S) → S → List LogEntry → S
steps step s [] = s
steps step s (e ∷ es) = steps step (step s e) es

steps-append :
    {S : Type 0} (step : S → LogEntry → S) (s : S) (xs ys : List LogEntry)
    → steps step s (xs ++ ys) ≡ steps step (steps step s xs) ys
unfolding steps
steps-append step s [] ys = refl
steps-append step s (x ∷ xs) ys = steps-append step (step s x) xs ys

module _ {S : Type 0} (step : S → LogEntry → S) where
  -- The callback for a step.
  abbrev pub on : S → LogEntry → ℕ → S × ControlFlow
  on s e size = (step s e, proceed)

  deliver-counted :
      (skip : Bytes → Option Bytes) (s : S) (n : ℕ) (es : List LogEntry)
      → deliver skip (λ t e. counted on t e 0) (s, n) es ≡ ((steps step s es, length es + n), true)
  unfolding deliver steps
  deliver-counted skip s n [] = ap (λ k. ((s, k), true)) (omega arith)
  deliver-counted skip s n (e ∷ es) =
      deliver-counted skip (step s e) (suc n) es
      ∙ ap (λ k. ((steps step (step s e) es, k), true)) (omega arith)

  feed-counted :
      (s : S) (n : ℕ) (es : List LogEntry)
      → feed (counted on) (s, n) es ≡ ((steps step s (map canon_entry es), length es + n), proceed)
  unfolding feed steps
  feed-counted s n [] = ap (λ k. ((s, k), proceed)) (omega arith)
  feed-counted s n (e ∷ es) =
      feed-counted (step s (canon_entry e)) (suc n) es
      ∙ ap (λ k. ((steps step (step s (canon_entry e)) (map canon_entry es), k), proceed))
          (omega arith)

  module _ (skip : Bytes → Option Bytes) (g : Gzip) (sound : IsSound g) where
    loaded :
        (es : List LogEntry) (s : S)
        → All IsWritable es
        → length es < 2 ^ 64
        → load_snapshot skip
            (λ t e. counted on t e 0)
            g
            (some (snapshot_file g 0 (length es) es))
            (s, 0)
          ≡ ((steps step s (map canon_entry es), length (map canon_entry es) + 0), some 0)
    loaded es s ws h =
        load_snapshot-snapshot_file skip (λ t e. counted on t e 0) g sound 0 es (s, 0) ws
          (omega arith) h
        ∙ ap verdict (deliver-counted skip s 0 (map canon_entry es))
      where
        verdict : (S × ℕ) × Bool → (S × ℕ) × Option ℕ
        verdict r = if r.1 then (r.0, some 0) else (r.0, none)

    -- After a swap of the log, with a snapshot whose documents can all be decoded and whose entries the
    -- encoding can hold, and with entries that were written since and one more that was cut off, a
    -- restart applies the entries of the snapshot and then those of the log, each as it comes back, and
    -- counts them, where gzip expands what it compressed.
    pub stream_log_into-steps :
        (state : Map Str (Map Str Bytes)) (schemas : Map Str Value) (later : List LogEntry)
        (cut : LogEntry) (k : ℕ) (s : S)
        → AllDecode state
        → All IsWritable (collection_entries state ++ schema_entries schemas)
        → length (collection_entries state ++ schema_entries schemas) < 2 ^ 64
        → All IsWritable later
        → IsWritable cut
        → k < length (write_msgpack_entry cut)
        → stream_log_into skip on g
            (some (write_snapshot_from_maps g state schemas 0))
            (write_compacted_log_no_tx later ++ take k (write_msgpack_entry cut))
            s
          ≡ (
            steps step s (
                map canon_entry (collection_entries state ++ schema_entries schemas)
                ++ map canon_entry later),
            length later
                + length (map canon_entry (collection_entries state ++ schema_entries schemas)),
          )
    unfolding stream_log_into
    stream_log_into-steps state schemas later cut k s decodes ws short vs w h =
        let es = collection_entries state ++ schema_entries schemas in
        let file = write_snapshot_from_maps-snapshot_file g state schemas 0 decodes in
        let log = write_compacted_log_no_tx later ++ take k (write_msgpack_entry cut) in
        let first = steps step s (map canon_entry es) in
        let count = length (map canon_entry es) in
        let fin : length later + (count + 0) ≡ length later + count = omega arith in
        ap resume (
          ap (λ b. load_snapshot skip (λ t e. counted on t e 0) g (some b) (s, 0)) file
          ∙ loaded es s ws short)
        ∙ ap (λ r. r.0)
            (stream_log_entries-feed (counted on) skip later cut k 0 (first, count + 0) vs w h
              ∙ feed-counted first (count + 0) later)
        ∙ ap₂ (λ t n. (t, n))
            (sym (steps-append step s (map canon_entry es) (map canon_entry later))) fin
      where
        resume : (S × ℕ) × Option ℕ → S × ℕ
        resume r =
            let bytes = write_compacted_log_no_tx later ++ take k (write_msgpack_entry cut) in
            elim r.1 [
              | some seq ↦ (stream_log_entries skip (counted on) seq r.0 bytes).0
              | none ↦ (stream_log_entries skip (counted on) 0 r.0 bytes).0
            ]
