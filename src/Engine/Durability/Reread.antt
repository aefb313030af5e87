-- ===== src/Engine/Durability/Reread.antt =====
-- What a restart makes of the log once the encoding has been through it: values come back in canonical
-- form, so that documents come back as decoded and encoded again.
use molten_db.Prelude.{
  ◌≡◌, refl, sym, ap, ◌∙◌, inl, inr, Bool, true, false, ℕ, Option, none, some, List, [], ◌∷◌, ◌++◌,
  Bytes, Str, str_beq, All, map, ◌>>=◌, if◌then◌else◌,
}
use molten_db.Json.{Value}
use molten_db.Codec.Canon.{IsEncodable, canon}
use molten_db.Codec.Read.{msgpack_to_value}
use molten_db.Codec.RoundTrip.{msgpack_to_value-value_to_msgpack}
use molten_db.Codec.Write.{value_to_msgpack}
use molten_db.Wal.Command
use molten_db.Wal.Entry.{LogEntry}
use molten_db.Wal.Encoding.Laws.{canon_cmd}
use molten_db.Wal.Replay.{Memory, apply_all, apply_entry, empty, stream_into_state, replay_from}
use molten_db.Wal.Replay.Transactions.{Begins, Commits, stream_into_state-transaction}
use molten_db.Disk.Laws.{IsWritable, canon_entry}
use molten_db.Engine.State.{Db, document}
use molten_db.Engine.Durability.Documents.{
  document-put_document, document-remove_document, document-drop_collection,
}
use molten_db.Engine.Durability.Entries.{
  IsWrite, writes-IsPlain, apply_entry-insert, apply_entry-delete, apply_entry-drop,
}
use molten_db.Engine.Durability.Transaction.{Committed}

-- A document decoded, and encoded again.
unfoldable pub reencode : Bytes → Option Bytes
reencode bs = do v ← msgpack_to_value bs; some (value_to_msgpack v)

-- The second memory has the documents of the first, each as decoded and encoded again.
abbrev pub Reread : Memory → Memory → Type 0
Reread m m' = (c k : Str) → document m'.state c k ≡ (document m.state c k >>= reencode)

reencode-value_to_msgpack :
    (v : Value) → IsEncodable v → reencode (value_to_msgpack v) ≡ some (value_to_msgpack (canon v))
unfolding reencode
reencode-value_to_msgpack v e = rw (msgpack_to_value-value_to_msgpack v e) refl

put_if :
    (b : Bool) (o : Option Bytes) (v : Value)
    → IsEncodable v
    → (if b then some (value_to_msgpack (canon v)) else (o >>= reencode))
      ≡ ((if b then some (value_to_msgpack v) else o) >>= reencode)
put_if true o v e = sym (reencode-value_to_msgpack v e)
put_if false o v e = refl

gone_if :
    (b : Bool) (o : Option Bytes)
    → (if b then none else (o >>= reencode)) ≡ ((if b then none else o) >>= reencode)
gone_if true o = refl
gone_if false o = refl

canon_cmd-write : (e : LogEntry) → IsWrite e → canon_cmd e.cmd ≡ e.cmd
unfolding canon_cmd Command.token Command.of_token str_beq
canon_cmd-write e (inl h) = rw h refl
canon_cmd-write e (inr (inl h)) = rw h refl
canon_cmd-write e (inr (inr h)) = rw h refl

canon_entry-IsWrite : (e : LogEntry) → IsWrite e → IsWrite (canon_entry e)
canon_entry-IsWrite e (inl h) = inl (canon_cmd-write e (inl h) ∙ h)
canon_entry-IsWrite e (inr (inl h)) = inr (inl (canon_cmd-write e (inr (inl h)) ∙ h))
canon_entry-IsWrite e (inr (inr h)) = inr (inr (canon_cmd-write e (inr (inr h)) ∙ h))

All-canon : (es : List LogEntry) → All IsWrite es → All IsWrite (map canon_entry es)
All-canon [] h = tt
All-canon (e ∷ es) h = (canon_entry-IsWrite e h.0, All-canon es h.1)

canon_entry-Begins : (t : Str) (b : LogEntry) → Begins t b → Begins t (canon_entry b)
unfolding canon_cmd Command.token Command.of_token str_beq
canon_entry-Begins t b (h, k) = (rw h refl, k)

canon_entry-Commits : (t : Str) (c : LogEntry) → Commits t c → Commits t (canon_entry c)
unfolding canon_cmd Command.token Command.of_token str_beq
canon_entry-Commits t c (h, k) = (rw h refl, k)

map-append :
    (xs ys : List LogEntry) → map canon_entry (xs ++ ys) ≡ map canon_entry xs ++ map canon_entry ys
map-append [] ys = refl
map-append (x ∷ xs) ys = ap (λ l. canon_entry x ∷ l) (map-append xs ys)

pub All-prefix :
    (P : LogEntry → Type 0) (xs ys : List LogEntry) → All P (xs ++ ys) → All P xs × All P ys
All-prefix P [] ys h = (tt, h)
All-prefix P (x ∷ xs) ys (h, hs) = let (left, right) = All-prefix P xs ys hs in ((h, left), right)

module _ (compiles : Value → Bool) (now : ℕ) where
  apply_entry-Reread :
      (m m' : Memory) (e : LogEntry)
      → IsWrite e
      → IsWritable e
      → Reread m m'
      → Reread (apply_entry compiles now m e) (apply_entry compiles now m' (canon_entry e))
  apply_entry-Reread m m' e (inl h) s same c k =
      rw
        (
          apply_entry-insert compiles now m e h,
          apply_entry-insert compiles now m' (canon_entry e) (canon_cmd-write e (inl h) ∙ h),
          document-put_document e.collection e.key e.value m c k,
          document-put_document e.collection e.key (canon e.value) m' c k,
          same c k,
        )
        (put_if _ _ e.value s.value)
  apply_entry-Reread m m' e (inr (inl h)) s same c k =
      rw
        (
          apply_entry-delete compiles now m e h,
          apply_entry-delete compiles now m' (canon_entry e) (canon_cmd-write e (inr (inl h)) ∙ h),
          document-remove_document e.collection e.key m c k,
          document-remove_document e.collection e.key m' c k,
          same c k,
        )
        (gone_if _ _)
  apply_entry-Reread m m' e (inr (inr h)) s same c k =
      rw
        (
          apply_entry-drop compiles now m e h,
          apply_entry-drop compiles now m' (canon_entry e) (canon_cmd-write e (inr (inr h)) ∙ h),
          document-drop_collection e.collection m c k,
          document-drop_collection e.collection m' c k,
          same c k,
        )
        (gone_if _ _)

  apply_all-Reread :
      (es : List LogEntry) (m m' : Memory)
      → All IsWrite es
      → All IsWritable es
      → Reread m m'
      → Reread (apply_all compiles now m es) (apply_all compiles now m' (map canon_entry es))
  unfolding apply_all
  apply_all-Reread [] m m' hs ws same = same
  apply_all-Reread (e ∷ es) m m' hs ws same =
      apply_all-Reread es (apply_entry compiles now m e)
        (apply_entry compiles now m' (canon_entry e)) hs.1 ws.1
        (apply_entry-Reread m m' e hs.0 ws.0 same)

  abbrev pub replayed : List LogEntry → Memory
  replayed es = stream_into_state compiles now empty (map canon_entry es)

  replayed-transaction :
      (log : List LogEntry) (t : Str) (b c : LogEntry) (xs : List LogEntry)
      → Begins t b
      → Commits t c
      → All IsWrite xs
      → replayed (log ++ b ∷ (xs ++ c ∷ []))
        ≡ apply_all compiles now (replayed log) (map canon_entry xs)
  unfolding stream_into_state replay_from
  replayed-transaction log t b c xs hb hc hx =
      ap (stream_into_state compiles now empty) (
        map-append log (b ∷ (xs ++ c ∷ []))
        ∙ ap (λ l. map canon_entry log ++ canon_entry b ∷ l) (map-append xs (c ∷ [])))
      ∙ stream_into_state-transaction compiles now empty (map canon_entry log) t (canon_entry b)
          (canon_entry c) (map canon_entry xs) [] (canon_entry-Begins t b hb)
          (writes-IsPlain (map canon_entry xs) (All-canon xs hx)) (canon_entry-Commits t c hc)

  -- After a committed transaction the replay of what comes back has the documents, if it had them before.
  pub Committed-Reread :
      (db db' : Db)
      → Committed compiles now db db'
      → All IsWritable db'.wal
      → Reread db.memory (replayed db.wal)
      → Reread db'.memory (replayed db'.wal)
  Committed-Reread db db' (t, b, c, xs, hb, hc, hx, wx, sx) ws same d k =
      let all : All IsWritable (db.wal ++ b ∷ (xs ++ c ∷ [])) = rw wx at ws in
      let rest = (All-prefix IsWritable db.wal (b ∷ (xs ++ c ∷ [])) all).1 in
      let body = (All-prefix IsWritable xs (c ∷ []) rest.1).0 in
      ap (λ l. document (replayed l).state d k) wx
      ∙ ap (λ m. document m.state d k) (replayed-transaction db.wal t b c xs hb hc hx)
      ∙ apply_all-Reread xs db.memory (replayed db.wal) hx body same d k
      ∙ ap (λ o. o >>= reencode) (sym (sx d k))
