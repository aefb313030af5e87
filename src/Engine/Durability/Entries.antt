-- ===== src/Engine/Durability/Entries.antt =====
-- Replays of the entries that write documents, up to what can be looked up.
use molten_db.Prelude.{◌≡◌, refl, ◌⊎◌, inl, inr, Bool, ℕ, List, [], ◌∷◌, ◌++◌, Str, str_beq, All}
use molten_db.Json.{Value}
use molten_db.Wal.Command
use molten_db.Wal.Entry.{LogEntry}
use molten_db.Wal.Replay.{
  Memory, apply_entry, apply_all, put_document, remove_document, drop_collection,
}
use molten_db.Wal.Replay.Transactions.{IsPlain}
use molten_db.Engine.State.{document}
use molten_db.Engine.Durability.Documents.{
  document-put_document, document-remove_document, document-drop_collection,
}

-- The same documents under the same names.
abbrev pub SameDocuments : Memory → Memory → Type 0
SameDocuments m m' = (c k : Str) → document m.state c k ≡ document m'.state c k

abbrev pub IsInsert : LogEntry → Type 0
IsInsert e = e.cmd ≡ Command.ikey_insert

abbrev pub IsDelete : LogEntry → Type 0
IsDelete e = e.cmd ≡ Command.ikey_delete

abbrev pub IsDrop : LogEntry → Type 0
IsDrop e = e.cmd ≡ Command.ikey_drop

-- An entry that writes or deletes documents.
abbrev pub IsWrite : LogEntry → Type 0
IsWrite e = IsInsert e ⊎ (IsDelete e ⊎ IsDrop e)

pub write-IsPlain : (e : LogEntry) → IsWrite e → IsPlain e
unfolding str_beq
write-IsPlain e (inl h) = rw h (refl, refl)
write-IsPlain e (inr (inl h)) = rw h (refl, refl)
write-IsPlain e (inr (inr h)) = rw h (refl, refl)

pub writes-IsPlain : (es : List LogEntry) → All IsWrite es → All IsPlain es
writes-IsPlain [] _ = tt
writes-IsPlain (e ∷ es) h = (write-IsPlain e h.0, writes-IsPlain es h.1)

pub All-append :
    (P : LogEntry → Type 0) (es body : List LogEntry) → All P es × All P body → All P (es ++ body)
All-append P [] body (_, h) = h
All-append P (e ∷ es) body ((first, rest), h) = (first, All-append P es body (rest, h))

module _ (compiles : Value → Bool) (now : ℕ) where
  pub apply_entry-insert :
      (m : Memory) (e : LogEntry)
      → IsInsert e
      → apply_entry compiles now m e ≡ put_document e.collection e.key e.value m
  unfolding apply_entry str_beq
  apply_entry-insert m e h = rw h

  pub apply_entry-delete :
      (m : Memory) (e : LogEntry)
      → IsDelete e
      → apply_entry compiles now m e ≡ remove_document e.collection e.key m
  unfolding apply_entry str_beq
  apply_entry-delete m e h = rw h

  pub apply_entry-drop :
      (m : Memory) (e : LogEntry)
      → IsDrop e
      → apply_entry compiles now m e ≡ drop_collection e.collection m
  unfolding apply_entry str_beq
  apply_entry-drop m e h = rw h

  apply_entry-SameDocuments :
      (m m' : Memory) (e : LogEntry)
      → IsWrite e
      → SameDocuments m m'
      → SameDocuments (apply_entry compiles now m e) (apply_entry compiles now m' e)
  apply_entry-SameDocuments m m' e (inl h) same c k = rw (
    apply_entry-insert m e h,
    apply_entry-insert m' e h,
    document-put_document e.collection e.key e.value m c k,
    document-put_document e.collection e.key e.value m' c k,
    same c k,
  )
  apply_entry-SameDocuments m m' e (inr (inl h)) same c k = rw (
    apply_entry-delete m e h,
    apply_entry-delete m' e h,
    document-remove_document e.collection e.key m c k,
    document-remove_document e.collection e.key m' c k,
    same c k,
  )
  apply_entry-SameDocuments m m' e (inr (inr h)) same c k = rw (
    apply_entry-drop m e h,
    apply_entry-drop m' e h,
    document-drop_collection e.collection m c k,
    document-drop_collection e.collection m' c k,
    same c k,
  )

  pub apply_all-SameDocuments :
      (es : List LogEntry) (m m' : Memory)
      → All IsWrite es
      → SameDocuments m m'
      → SameDocuments (apply_all compiles now m es) (apply_all compiles now m' es)
  unfolding apply_all
  apply_all-SameDocuments [] m m' hs same = same
  apply_all-SameDocuments (e ∷ es) m m' hs same =
      apply_all-SameDocuments es (apply_entry compiles now m e) (apply_entry compiles now m' e) hs.1
        (apply_entry-SameDocuments m m' e hs.0 same)

  pub apply_all-append :
      (m : Memory) (xs ys : List LogEntry)
      → apply_all compiles now m (xs ++ ys)
        ≡ apply_all compiles now (apply_all compiles now m xs) ys
  unfolding apply_all
  apply_all-append m [] ys = refl
  apply_all-append m (x ∷ xs) ys = apply_all-append (apply_entry compiles now m x) xs ys
