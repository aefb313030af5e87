-- ===== src/Disk/Snapshot/Load.antt =====
-- What is loaded from a snapshot that was written.
use molten_db.Prelude.{
  ◌≡◌, refl, ap, ap₂, ◌∙◌, arith, ℕ, suc, ◌^◌, ◌<◌, Bool, true, false, ◌&&◌, Option, none, some,
  List, [], ◌∷◌, ◌++◌, Bytes, Str, length, length-append, ltb, str_beq, All, map, if◌then◌else◌,
  ◌≢◌, Option-cases, inl, inr,
}
use molten_db.Prelude.Map.{Map}
use molten_db.Json.{Value}
use molten_db.Codec.BigEndian.{split_bytes}
use molten_db.Codec.Read.{msgpack_to_value}
use molten_db.Codec.Write.{write_map_header}
use molten_db.Wal.Entry.{LogEntry}
use molten_db.Wal.Encoding.{log_entry_to_msgpack, log_entry_from_msgpack}
use molten_db.Wal.Encoding.Laws.{log_entry_from_msgpack-log_entry_to_msgpack}
use molten_db.Disk.{
  write_le, from_le, write_msgpack_entry, write_compacted_log_no_tx, ControlFlow, proceed, halt,
}
use molten_db.Disk.Frames.{from_le-write_le, next_frame-write_msgpack_entry}
use molten_db.Disk.Laws.{IsWritable, canon_entry}
use molten_db.Disk.Snapshot.{
  Gzip, magic, document_entries, collection_entries, schema_entries, document_count, snapshot_file,
  write_snapshot_from_maps, all_zero, read_payload, load_entries, read_header, load_snapshot,
}

-- What gzip promises.
pub record IsSound (g : Gzip) : Type 0 where
  pub expands : (bs : Bytes) → g.expand (g.compress bs) ≡ bs

all_zero-log_entry_to_msgpack : (e : LogEntry) → all_zero (log_entry_to_msgpack e) ≡ false
unfolding all_zero log_entry_to_msgpack write_map_header
all_zero-log_entry_to_msgpack e = refl

read_header-write_le :
    (seq count : ℕ) (body : Bytes)
    → seq < 2 ^ 64
    → count < 2 ^ 64
    → read_header (magic ++ (write_le 8 seq ++ (write_le 8 count ++ body)))
      ≡ some (seq, count, body)
unfolding read_header split_bytes write_le str_beq
read_header-write_le seq count body h g =
    let first : from_le (write_le 8 seq) ≡ seq = from_le-write_le 8 seq (omega (arith, h)) in
    let second : from_le (write_le 8 count) ≡ count = from_le-write_le 8 count (omega (arith, g)) in
    ap₂ (λ a b. some (a, b, body)) first second

module _ (skip : Bytes → Option Bytes) where
  read_payload-log_entry_to_msgpack :
      (e : LogEntry)
      → IsWritable e
      → read_payload skip (log_entry_to_msgpack e) ≡ some (canon_entry e)
  unfolding read_payload
  read_payload-log_entry_to_msgpack e w =
      rw (read_payload, all_zero-log_entry_to_msgpack e)
        (no_and (ltb 0 (length (log_entry_to_msgpack e)))
          ∙ log_entry_from_msgpack-log_entry_to_msgpack skip e w.cmd w.collection w.key w.value
              w.time)
    where
      no_and :
          (b : Bool)
          → (if b && false then none else log_entry_from_msgpack skip (log_entry_to_msgpack e))
            ≡ log_entry_from_msgpack skip (log_entry_to_msgpack e)
      no_and true = refl
      no_and false = refl

module _ (skip : Bytes → Option Bytes) {S : Type 0} (f : S → LogEntry → S × ControlFlow) where
  -- The callback on one entry after the other, until it stops.
  unfoldable pub deliver : S → List LogEntry → S × Bool
  deliver s [] = (s, true)
  deliver s (e ∷ es) =
      let (s', flow) = f s e in elim flow [ halt ↦ (s', false) | proceed ↦ deliver s' es ]

  load_step :
      (n : ℕ) (e : LogEntry) (s : S) (rest : Bytes)
      → IsWritable e
      → load_entries skip f (suc n) s (write_msgpack_entry e ++ rest) ≡ (
          let (s', flow) = f s (canon_entry e) in
          elim flow [ halt ↦ (s', false) | proceed ↦ load_entries skip f n s' rest ])
  unfolding load_entries
  load_step n e s rest w =
      rw (next_frame-write_msgpack_entry e w.small rest, load_entries)
        (rw (read_payload-log_entry_to_msgpack skip e w) refl)

  load_entries-deliver :
      (es : List LogEntry) (s : S)
      → All IsWritable es
      → load_entries skip f (length es) s (write_compacted_log_no_tx es)
        ≡ deliver s (map canon_entry es)
  unfolding load_entries write_compacted_log_no_tx deliver
  load_entries-deliver [] s ws = refl
  load_entries-deliver (e ∷ es) s (w, ws) =
      load_step (length es) e s (write_compacted_log_no_tx es) w
      ∙ after (f s (canon_entry e)).1 (load_entries-deliver es (f s (canon_entry e)).0 ws)
    where
      after :
          (flow : ControlFlow) {x y : S × Bool}
          → x ≡ y
          → (elim flow as (λ _. S × Bool) [ halt ↦ ((f s (canon_entry e)).0, false) | proceed ↦ x ])
            ≡ (elim flow as (λ _. S × Bool) [
              | halt ↦ ((f s (canon_entry e)).0, false)
              | proceed ↦ y
            ])
      after halt h = refl
      after proceed h = h

  pub load_snapshot-snapshot_file :
      (g : Gzip) (sound : IsSound g) (seq : ℕ) (es : List LogEntry) (s : S)
      → All IsWritable es
      → seq < 2 ^ 64
      → length es < 2 ^ 64
      → load_snapshot skip f g (some (snapshot_file g seq (length es) es)) s ≡ (
          let (s', complete) = deliver s (map canon_entry es) in
          if complete then (s', some seq) else (s', none))
  unfolding load_snapshot snapshot_file
  load_snapshot-snapshot_file g sound seq es s ws h c =
      rw
        (
          read_header-write_le seq (length es) (g.compress (write_compacted_log_no_tx es)) h c,
          load_snapshot,
        )
        (rw (sound.expands (write_compacted_log_no_tx es), load_entries-deliver es s ws) refl)

-- Every document can be decoded.
abbrev pub AllDecode : Map Str (Map Str Bytes) → Type 0
AllDecode state = All (λ c. All (λ d. msgpack_to_value d.1 ≢ none) c.1) state

length-document_entries :
    (c : Str) (col : Map Str Bytes)
    → All (λ d. msgpack_to_value d.1 ≢ none) col
    → length (document_entries c col) ≡ length col
unfolding document_entries
length-document_entries c [] h = refl
length-document_entries c ((k, bytes) ∷ col) (h, hs) =
    elim (Option-cases (msgpack_to_value bytes)) [
      | inl e ↦ absurd (h e)
      | inr (v, e) ↦ rw (e, document_entries) (ap suc (length-document_entries c col hs))
    ]

length-collection_entries :
    (state : Map Str (Map Str Bytes))
    → AllDecode state
    → length (collection_entries state) ≡ document_count state
unfolding collection_entries document_count
length-collection_entries [] h = refl
length-collection_entries ((c, col) ∷ state) (h, hs) = omega (
  arith,
  length-append (document_entries c col) (collection_entries state),
  length-document_entries c col h,
  length-collection_entries state hs,
)

length-schema_entries : (schemas : Map Str Value) → length (schema_entries schemas) ≡ length schemas
unfolding schema_entries
length-schema_entries [] = refl
length-schema_entries ((c, json) ∷ schemas) = ap suc (length-schema_entries schemas)

-- The count in the header is that of the entries, where every document can be decoded.
pub write_snapshot_from_maps-snapshot_file :
    (g : Gzip) (state : Map Str (Map Str Bytes)) (schemas : Map Str Value) (seq : ℕ)
    → AllDecode state
    → let es : List LogEntry = collection_entries state ++ schema_entries schemas in
      write_snapshot_from_maps g state schemas seq ≡ snapshot_file g seq (length es) es
unfolding write_snapshot_from_maps
write_snapshot_from_maps-snapshot_file g state schemas seq h =
    ap (λ n. snapshot_file g seq n (collection_entries state ++ schema_entries schemas))
      (omega (
        arith,
        length-append (collection_entries state) (schema_entries schemas),
        length-collection_entries state h,
        length-schema_entries schemas,
      ))
