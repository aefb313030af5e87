-- ===== src/Encrypted/Laws.antt =====
-- What encrypted entries come back as, also through the log file.
use mathlib.Core.Path.{subst}
use molten_db.Prelude.{
  ◌≡◌, refl, ap, ap₂, take, ◌∙◌, arith, ℕ, ◌<◌, Option, some, List, [], ◌∷◌, ◌++◌, Bytes, str_beq,
  str_beq_refl, length, codes, All, map, false, true, Option-cases, inl, inr,
}
use molten_db.Json.{string}
use molten_db.Codec.BigEndian.{split_bytes, split_bytes-append}
use molten_db.Engine.Types.{DbError, write_error, ok, err}
use molten_db.Wal.Command
use molten_db.Wal.Entry.{LogEntry}
use molten_db.Wal.Encoding.{log_entry_to_msgpack}
use molten_db.Wal.Encoding.Laws.{log_entry_from_msgpack-log_entry_to_msgpack}
use molten_db.Disk.{write_msgpack_entry, write_compacted_log_no_tx, read_log_from_disk}
use molten_db.Disk.Laws.{IsWritable, canon_entry, read_log_from_disk-map}
use molten_db.Encrypted.{
  Cipher, encrypt_entry, decrypt_payload, decrypt_entry, read_entry, read_log,
}

-- What the cipher and base64 promise.
pub record IsSound (c : Cipher) : Type 0 where
  pub opens :
      (nonce plain text : Bytes)
      → c.encrypt nonce plain ≡ some text
      → c.decrypt nonce text ≡ some plain
  pub decodes : (bs : Bytes) → c.decode (c.encode bs) ≡ some bs

-- An entry of the log, and what it holds: one that was encrypted, one that was not, or an encrypted one
-- that cannot be decrypted.
pub data Holds (c : Cipher) (skip : Bytes → Option Bytes) : LogEntry → List LogEntry → Type 0 where
  sealed :
      {raw e : LogEntry} (now : ℕ) (nonce : Bytes)
      → length nonce ≡ 24
      → IsWritable e
      → encrypt_entry c now nonce e ≡ ok raw
      → Holds c skip raw (canon_entry e ∷ [])
  bare : {raw : LogEntry} → str_beq raw.cmd Command.ikey_enc ≡ false → Holds c skip raw (raw ∷ [])
  broken :
      {raw : LogEntry} (error : DbError)
      → str_beq raw.cmd Command.ikey_enc ≡ true
      → decrypt_entry c skip raw ≡ err error
      → Holds c skip raw []

abbrev pub concat : List (List LogEntry) → List LogEntry
concat [] = []
concat (es ∷ ess) = es ++ concat ess

abbrev pub HoldAll :
    (c : Cipher) (skip : Bytes → Option Bytes) → List LogEntry → List (List LogEntry) → Type 0
HoldAll c skip [] [] = Unit
HoldAll c skip (e ∷ raw) (es ∷ held) = Holds c skip e es × HoldAll c skip raw held
HoldAll c skip _ _ = ⊥

abbrev sealed_entry : Cipher → ℕ → Bytes → LogEntry
sealed_entry c now payload = record {
  cmd = Command.ikey_enc;
  collection = codes "_";
  key = codes "_";
  value = string (c.encode payload);
  time = now;
}

map-canon_entry :
    (raw : List LogEntry) → All (λ e. canon_entry e ≡ e) raw → map canon_entry raw ≡ raw
map-canon_entry [] h = refl
map-canon_entry (e ∷ raw) h = ap₂ (λ x xs. x ∷ xs) h.0 (map-canon_entry raw h.1)

module _ (c : Cipher) (sound : IsSound c) (skip : Bytes → Option Bytes) where
  decrypt_payload-append :
      (nonce text : Bytes) (e : LogEntry)
      → length nonce ≡ 24
      → IsWritable e
      → c.encrypt nonce (log_entry_to_msgpack e) ≡ some text
      → decrypt_payload c skip (nonce ++ text) ≡ ok (canon_entry e)
  unfolding decrypt_payload
  decrypt_payload-append nonce text e n w h =
      let split : split_bytes 24 (nonce ++ text) ≡ some (nonce, text) =
        rw n at (split_bytes-append nonce text) in
      rw (split, decrypt_payload)
        (rw (sound.opens nonce (log_entry_to_msgpack e) text h) (
          rw
            (log_entry_from_msgpack-log_entry_to_msgpack skip e w.cmd w.collection w.key w.value
              w.time)
            refl))

  decrypt_entry-sealed_entry :
      (now : ℕ) (payload : Bytes)
      → decrypt_entry c skip (sealed_entry c now payload) ≡ decrypt_payload c skip payload
  unfolding decrypt_entry
  decrypt_entry-sealed_entry now payload = rw (sound.decodes payload, decrypt_entry) refl

  decrypt_entry-encrypt_entry :
      (now : ℕ) (nonce : Bytes) (e raw : LogEntry)
      → length nonce ≡ 24
      → IsWritable e
      → encrypt_entry c now nonce e ≡ ok raw
      → (raw.cmd ≡ Command.ikey_enc) × (decrypt_entry c skip raw ≡ ok (canon_entry e))
  unfolding encrypt_entry
  decrypt_entry-encrypt_entry now nonce e raw n w h =
      elim (Option-cases (c.encrypt nonce (log_entry_to_msgpack e))) [
        | inl fails ↦
            absurd (let no : err write_error ≡ ok raw = rw (fails, encrypt_entry) at h in cc no)
        | inr (text, made) ↦
            let same : ok (sealed_entry c now (nonce ++ text)) ≡ ok raw =
              rw (made, encrypt_entry) at h in
            let own : sealed_entry c now (nonce ++ text) ≡ raw = ground (arith, same) in
            subst (λ r. (r.cmd ≡ Command.ikey_enc) × (decrypt_entry c skip r ≡ ok (canon_entry e)))
              own
              (
                refl,
                decrypt_entry-sealed_entry now (nonce ++ text)
                    ∙ decrypt_payload-append nonce text e n w made,
              )
      ]

  read_entry-Holds :
      (raw : LogEntry) (es : List LogEntry)
      → Holds c skip raw es
      → (rest : List LogEntry) → read_entry c skip raw rest ≡ es ++ rest
  unfolding read_entry
  read_entry-Holds raw _ (sealed {e = e} now nonce n w h) rest =
      let (cmd, back) = decrypt_entry-encrypt_entry now nonce e raw n w h in
      rw (cmd, str_beq_refl Command.ikey_enc) (rw back refl)
  read_entry-Holds raw _ (bare plain) rest = rw plain refl
  read_entry-Holds raw _ (broken error own fails) rest = rw own (rw fails refl)

  read_log-Holds :
      (raw : List LogEntry) (held : List (List LogEntry))
      → HoldAll c skip raw held
      → read_log c skip raw ≡ concat held
  unfolding read_log
  read_log-Holds [] [] h = refl
  read_log-Holds [] (es ∷ held) h = absurd h
  read_log-Holds (e ∷ raw) [] h = absurd h
  read_log-Holds (e ∷ raw) (es ∷ held) (first, rest) =
      read_entry-Holds e es first (read_log c skip raw)
      ∙ ap (λ l. es ++ l) (read_log-Holds raw held rest)

  -- Entries that were written to the log file as they are held in memory, and one more that was cut
  -- off, are read back through the cipher as those that were encrypted, each as it comes back, and those
  -- that were not, in order and without the encrypted ones that cannot be decrypted, where the cipher
  -- decrypts what it encrypted and base64 decodes what it encoded.
  pub read_log-read_log_from_disk :
      (raw : List LogEntry) (held : List (List LogEntry)) (cut : LogEntry) (k : ℕ)
      → HoldAll c skip raw held
      → All IsWritable raw
      → All (λ e. canon_entry e ≡ e) raw
      → IsWritable cut
      → k < length (write_msgpack_entry cut)
      → read_log c skip (
          read_log_from_disk skip
            (write_compacted_log_no_tx raw ++ take k (write_msgpack_entry cut)))
        ≡ concat held
  read_log-read_log_from_disk raw held cut k h ws same w l =
      ap (read_log c skip) (read_log_from_disk-map skip raw cut k ws w l ∙ map-canon_entry raw same)
      ∙ read_log-Holds raw held h
