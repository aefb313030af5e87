-- ===== src/Disk/Writer/Prefix.antt =====
-- What is read from the first bytes of a log file.
use mathlib.Core.List.{append_assoc, append-nil}
use molten_db.Prelude.{
  ◌≡◌, refl, ap, sym, ◌∙◌, arith, ℕ, zero, suc, ◌+◌, ◌-◌, ◌≤◌, List, [], ◌∷◌, ◌++◌, Bytes,
  Bool-cases, inl, inr, length, take, All, All-append, map, ltb, if◌then◌else◌, Option, ltb→lt,
}
use molten_db.Wal.Entry.{LogEntry}
use molten_db.Disk.{write_msgpack_entry, write_compacted_log_no_tx, read_log_from_disk, next_frame}
use molten_db.Disk.Frames.{next_frame-take}
use molten_db.Disk.Laws.{IsWritable, canon_entry, read_log_from_disk-tail}

-- How many of the entries have their frames among so many bytes.
pub whole : ℕ → List LogEntry → ℕ
whole n [] = 0
whole n (e ∷ es) =
    let more = whole (n - length (write_msgpack_entry e)) es in
    if ltb n (length (write_msgpack_entry e)) then 0 else suc more

pub take-append : (k : ℕ) (a b : Bytes) → take (length a + k) (a ++ b) ≡ a ++ take k b
take-append k [] b = let e : 0 + k ≡ k = omega arith in rw e refl
take-append k (x ∷ a) b =
    let e : suc (length a) + k ≡ suc (length a + k) = omega arith in
    rw e (ap (λ l. x ∷ l) (take-append k a b))

take-short : (n : ℕ) (a b : Bytes) → n ≤ length a → take n (a ++ b) ≡ take n a
take-short zero a b h = refl
take-short (suc n) [] b h = absurd (omega (arith, h))
take-short (suc n) (x ∷ a) b h = ap (λ l. x ∷ l) (take-short n a b (omega (arith, h)))

take-nil : (n : ℕ) (es : Bytes) → es ≡ [] → take n es ≡ []
take-nil zero es e = refl
take-nil (suc n) es e = rw e refl

pub frames-append :
    (es : List LogEntry) (e : LogEntry)
    → write_compacted_log_no_tx (es ++ e ∷ [])
      ≡ write_compacted_log_no_tx es ++ write_msgpack_entry e
unfolding write_compacted_log_no_tx
frames-append [] e = append-nil (write_msgpack_entry e)
frames-append (d ∷ es) e =
    ap (λ l. write_msgpack_entry d ++ l) (frames-append es e)
    ∙ sym (
        append_assoc (write_msgpack_entry d) (write_compacted_log_no_tx es) (write_msgpack_entry e))

map-append_one :
    (es : List LogEntry) (e : LogEntry)
    → map canon_entry (es ++ e ∷ []) ≡ map canon_entry es ++ canon_entry e ∷ []
map-append_one [] e = refl
map-append_one (d ∷ es) e = ap (λ l. canon_entry d ∷ l) (map-append_one es e)

module _ (skip : Bytes → Option Bytes) where
  longer :
      (done : List LogEntry) (e : LogEntry) (es : List LogEntry) (n : ℕ)
      → length (write_msgpack_entry e) ≤ n
      → read_log_from_disk skip (
          write_compacted_log_no_tx (done ++ e ∷ [])
          ++ take (n - length (write_msgpack_entry e)) (write_compacted_log_no_tx es))
        ≡ map canon_entry (done ++ e ∷ [])
          ++ take (whole (n - length (write_msgpack_entry e)) es) (map canon_entry es)
      → read_log_from_disk skip (
          write_compacted_log_no_tx done
          ++ take n (write_msgpack_entry e ++ write_compacted_log_no_tx es))
        ≡ map canon_entry done
          ++ canon_entry e
            ∷ take (whole (n - length (write_msgpack_entry e)) es) (map canon_entry es)
  longer done e es n long ih =
      let m = n - length (write_msgpack_entry e) in
      let frame = write_msgpack_entry e in
      let bytes = take m (write_compacted_log_no_tx es) in
      let split : n ≡ length (write_msgpack_entry e) + (n - length (write_msgpack_entry e)) =
        omega (arith, long) in
      ap (λ t. read_log_from_disk skip (write_compacted_log_no_tx done ++ t))
        (ap (λ k. take k (frame ++ write_compacted_log_no_tx es)) split
          ∙ take-append m frame (write_compacted_log_no_tx es))
      ∙ ap (read_log_from_disk skip) (
          sym (append_assoc (write_compacted_log_no_tx done) frame bytes)
          ∙ ap (λ l. l ++ bytes) (sym (frames-append done e)))
      ∙ ih
      ∙ ap (λ l. l ++ take (whole m es) (map canon_entry es)) (map-append_one done e)
      ∙ append_assoc (map canon_entry done) (canon_entry e ∷ [])
          (take (whole m es) (map canon_entry es))

  -- After whole frames, and with the first bytes of more of them.
  read_frames :
      (done es : List LogEntry) (n : ℕ)
      → All IsWritable done
      → All IsWritable es
      → read_log_from_disk skip
          (write_compacted_log_no_tx done ++ take n (write_compacted_log_no_tx es))
        ≡ map canon_entry done ++ take (whole n es) (map canon_entry es)
  unfolding write_compacted_log_no_tx whole next_frame
  read_frames done [] n ws v =
      ap (λ t. read_log_from_disk skip (write_compacted_log_no_tx done ++ t)) (take-nil n [] refl)
      ∙ read_log_from_disk-tail skip done [] refl ws
      ∙ sym (append-nil (map canon_entry done))
  read_frames done (e ∷ es) n ws (w, v) =
      elim (Bool-cases (ltb n (length (write_msgpack_entry e)))) [
        | inl cut ↦
            let less = ltb→lt n (length (write_msgpack_entry e)) cut in
            rw cut (
              ap (λ t. read_log_from_disk skip (write_compacted_log_no_tx done ++ t))
                (take-short n (write_msgpack_entry e) (write_compacted_log_no_tx es)
                  (omega (arith, less)))
              ∙ read_log_from_disk-tail skip done (take n (write_msgpack_entry e))
                  (next_frame-take e w.small n less) ws
              ∙ sym (append-nil (map canon_entry done)))
        | inr more ↦
            let long : length (write_msgpack_entry e) ≤ n = ground (arith, more) in
            rw more (
              longer done e es n long (
                read_frames (done ++ e ∷ []) es (n - length (write_msgpack_entry e))
                  (All-append IsWritable done (e ∷ []) ws (w, tt)) v))
      ]

  -- A read of the first bytes of a log file gives the entries whose frames are there.
  pub read_log_from_disk-take :
      (es : List LogEntry) (n : ℕ)
      → All IsWritable es
      → read_log_from_disk skip (take n (write_compacted_log_no_tx es))
        ≡ take (whole n es) (map canon_entry es)
  unfolding write_compacted_log_no_tx
  read_log_from_disk-take es n ws = read_frames [] es n tt ws
