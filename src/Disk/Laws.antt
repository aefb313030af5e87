-- ===== src/Disk/Laws.antt =====
-- What is read from a log file that was written, also where the last write was cut off.
use mathlib.Core.List.{append_assoc, append-nil}
use mathlib.Core.Path.{fun_ext}
use molten_db.Prelude.{
  ◌≡◌, refl, ap, sym, ◌∙◌, arith, ℕ, zero, suc, ◌+◌, ◌%◌, ◌^◌, ◌<◌, ◌≤◌, Option, none, List, [],
  ◌∷◌, ◌++◌, Bytes, length, length-append, take, drop, All, map,
}
use molten_db.Codec.Canon.{IsText, IsEncodable, canon}
use molten_db.Wal.Entry.{LogEntry}
use molten_db.Wal.Encoding.{log_entry_to_msgpack}
use molten_db.Wal.Encoding.Laws.{canon_cmd, log_entry_from_msgpack-log_entry_to_msgpack}
use molten_db.Disk.{
  write_le, write_msgpack_entry, write_compacted_log_no_tx, ControlFlow, proceed, halt, next_frame,
  stream_frames, stream_log_entries, push, read_log_from_disk,
}
use molten_db.Disk.Frames.{next_frame-write_msgpack_entry, next_frame-cut, next_frame-take}

pub record IsWritable (e : LogEntry) : Type 0 where
  pub cmd : IsText e.cmd
  pub collection : IsText e.collection
  pub key : IsText e.key
  pub value : IsEncodable e.value
  pub time : e.time < 2 ^ 64
  pub small : length (log_entry_to_msgpack e) < 2 ^ 32

-- An entry as it comes back.
abbrev pub canon_entry : LogEntry → LogEntry
canon_entry e = record e { cmd = canon_cmd e.cmd; value = canon e.value }

frame_length :
    (e : LogEntry) (log tail : Bytes)
    → length (log ++ tail) < length ((write_msgpack_entry e ++ log) ++ tail)
unfolding write_msgpack_entry write_le
frame_length e log tail = omega (
  arith,
  length-append (write_msgpack_entry e) log,
  length-append (log_entry_to_msgpack e) log,
  length-append (write_msgpack_entry e ++ log) tail,
  length-append (log_entry_to_msgpack e ++ log) tail,
  length-append log tail,
)

module _ {S : Type 0} (f : S → LogEntry → ℕ → S × ControlFlow) where
  -- The callback on each entry with the size of its frame, until it stops.
  unfoldable pub feed : S → List LogEntry → S × ControlFlow
  feed s [] = (s, proceed)
  feed s (e ∷ es) =
      let (s', flow) = f s (canon_entry e) ((length (log_entry_to_msgpack e) + 4) % 2 ^ 32) in
      elim flow [ halt ↦ (s', halt) | proceed ↦ feed s' es ]

  module _ (skip : Bytes → Option Bytes) where
    stream_frames-end :
        (fuel n : ℕ) (s : S) (tail : Bytes)
        → next_frame tail ≡ none
        → stream_frames skip f fuel n s tail ≡ (s, proceed)
    unfolding stream_frames
    stream_frames-end zero n s tail h = refl
    stream_frames-end (suc fuel) n s tail h = rw (h, stream_frames) refl

    module _ (e : LogEntry) (w : IsWritable e) (fuel : ℕ) (s : S) (rest : Bytes) where
      stream_frames-skip :
          (n : ℕ)
          → stream_frames skip f (suc fuel) (suc n) s (write_msgpack_entry e ++ rest)
            ≡ stream_frames skip f fuel n s rest
      unfolding stream_frames
      stream_frames-skip n = rw (next_frame-write_msgpack_entry e w.small rest, stream_frames) refl

      stream_frames-feed : stream_frames skip f (suc fuel) 0 s (write_msgpack_entry e ++ rest) ≡ (
          let (s', flow) = f s (canon_entry e) ((length (log_entry_to_msgpack e) + 4) % 2 ^ 32) in
          elim flow [ halt ↦ (s', halt) | proceed ↦ stream_frames skip f fuel 0 s' rest ])
      unfolding stream_frames
      stream_frames-feed =
          rw (next_frame-write_msgpack_entry e w.small rest, stream_frames)
            (rw
              (log_entry_from_msgpack-log_entry_to_msgpack skip e w.cmd w.collection w.key w.value
                w.time)
              refl)

    -- With enough fuel, all entries are read, and the loop ends at the tail.
    stream_frames-feed_log :
        (tail : Bytes)
        → next_frame tail ≡ none
        → (es : List LogEntry) → All IsWritable es
        → (fuel n : ℕ) (s : S) → length (write_compacted_log_no_tx es ++ tail) ≤ fuel
        → stream_frames skip f fuel n s (write_compacted_log_no_tx es ++ tail) ≡ feed s (drop n es)
    unfolding write_compacted_log_no_tx feed
    stream_frames-feed_log tail t [] w fuel zero s h = stream_frames-end fuel 0 s tail t
    stream_frames-feed_log tail t [] w fuel (suc n) s h = stream_frames-end fuel (suc n) s tail t
    stream_frames-feed_log tail t (e ∷ es) w zero n s h =
        absurd (omega (arith, h, frame_length e (write_compacted_log_no_tx es) tail))
    stream_frames-feed_log tail t (e ∷ es) w (suc fuel) (suc n) s h =
        let left = write_compacted_log_no_tx es ++ tail in
        rw (append_assoc (write_msgpack_entry e) (write_compacted_log_no_tx es) tail) (
          stream_frames-skip e w.0 fuel s left n
          ∙ stream_frames-feed_log tail t es w.1 fuel n s
              (omega (arith, h, frame_length e (write_compacted_log_no_tx es) tail)))
    stream_frames-feed_log tail t (e ∷ es) w (suc fuel) zero s h =
        let left = write_compacted_log_no_tx es ++ tail in
        rw (append_assoc (write_msgpack_entry e) (write_compacted_log_no_tx es) tail) (
          stream_frames-feed e w.0 fuel s left
          ∙ ap
              (λ (k : S → S × ControlFlow).
                (let (s', flow) =
                    f s (canon_entry e) ((length (log_entry_to_msgpack e) + 4) % 2 ^ 32) in
                  elim flow [ halt ↦ (s', halt) | proceed ↦ k s' ]))
              (fun_ext (λ s'.
                stream_frames-feed_log tail t es w.1 fuel 0 s'
                  (omega (arith, h, frame_length e (write_compacted_log_no_tx es) tail)))))

    -- From a log file of entries that the encoding can hold, followed by any proper prefix of one more
    -- frame, as a write that was cut off leaves it, the callback gets the entries in order, each as it
    -- comes back and with the size of its frame, but for as many as are to be skipped, until it stops.
    pub stream_log_entries-feed :
        (es : List LogEntry) (e : LogEntry) (k skip_lines : ℕ) (s : S)
        → All IsWritable es
        → IsWritable e
        → k < length (write_msgpack_entry e)
        → stream_log_entries skip f skip_lines s
            (write_compacted_log_no_tx es ++ take k (write_msgpack_entry e))
          ≡ feed s (drop skip_lines es)
    unfolding stream_log_entries
    stream_log_entries-feed es e k skip_lines s ws w h =
        stream_frames-feed_log (take k (write_msgpack_entry e)) (next_frame-take e w.small k h) es
          ws _ skip_lines s (omega arith)

take-write_msgpack_entry :
    (e : LogEntry) (k : ℕ)
    → take (4 + k) (write_msgpack_entry e)
      ≡ write_le 4 (length (log_entry_to_msgpack e)) ++ take k (log_entry_to_msgpack e)
unfolding write_msgpack_entry write_le
take-write_msgpack_entry e k =
    let four : 4 + k ≡ suc (suc (suc (suc k))) = omega arith in rw four refl

feed-push : (entries es : List LogEntry) → (feed push entries es).0 ≡ entries ++ map canon_entry es
unfolding feed
feed-push entries [] = sym (append-nil entries)
feed-push entries (e ∷ es) =
    feed-push (entries ++ canon_entry e ∷ []) es
    ∙ append_assoc entries (canon_entry e ∷ []) (map canon_entry es)

module _ (skip : Bytes → Option Bytes) (es : List LogEntry) where
  -- A log file with a tail that is no frame.
  pub read_log_from_disk-tail :
      (tail : Bytes)
      → next_frame tail ≡ none
      → All IsWritable es
      → read_log_from_disk skip (write_compacted_log_no_tx es ++ tail) ≡ map canon_entry es
  unfolding read_log_from_disk stream_log_entries
  read_log_from_disk-tail tail cut ws =
      ap (λ r. r.0) (stream_frames-feed_log push skip tail cut es ws _ 0 [] (omega arith))
      ∙ feed-push [] es

  pub read_log_from_disk-whole :
      All IsWritable es
      → read_log_from_disk skip (write_compacted_log_no_tx es) ≡ map canon_entry es
  unfolding next_frame
  read_log_from_disk-whole ws =
      ap (read_log_from_disk skip) (sym (append-nil (write_compacted_log_no_tx es)))
      ∙ read_log_from_disk-tail [] refl ws

  pub read_log_from_disk-map :
      (e : LogEntry) (k : ℕ)
      → All IsWritable es
      → IsWritable e
      → k < length (write_msgpack_entry e)
      → read_log_from_disk skip (write_compacted_log_no_tx es ++ take k (write_msgpack_entry e))
        ≡ map canon_entry es
  unfolding read_log_from_disk
  read_log_from_disk-map e k ws w h =
      ap (λ r. r.0) (stream_log_entries-feed push skip es e k 0 [] ws w h) ∙ feed-push [] es

  -- If a write is cut off after the length of its entry, and more is written behind it, but not as much
  -- as the entry lacks, then a read gives the entries before it and none of those that follow.
  pub read_log_from_disk-lost :
      (e : LogEntry) (k : ℕ) (later : List LogEntry)
      → All IsWritable es
      → IsWritable e
      → k + length (write_compacted_log_no_tx later) < length (log_entry_to_msgpack e)
      → read_log_from_disk skip (
          write_compacted_log_no_tx es
          ++ (take (4 + k) (write_msgpack_entry e) ++ write_compacted_log_no_tx later))
        ≡ map canon_entry es
  unfolding read_log_from_disk stream_log_entries write_le write_compacted_log_no_tx
  read_log_from_disk-lost e k later ws w h =
      let log = write_compacted_log_no_tx later in
      let cut : next_frame (take (4 + k) (write_msgpack_entry e) ++ log) ≡ none =
        rw (take-write_msgpack_entry e k) (next_frame-cut e w.small k log h) in
      ap (λ r. r.0) (stream_frames-feed_log push skip _ cut es ws _ 0 [] (omega arith))
      ∙ feed-push [] es
