-- ===== src/Encrypted.antt =====
-- Encrypted log entries: moltendb-core/src/engine/storage/encrypted.rs. The cipher under its key and
-- base64 are libraries, and the nonces come from the system.
pub mod Laws
use molten_db.Prelude.{
  ℕ, Option, none, some, List, [], ◌∷◌, ◌++◌, Bytes, Str, codes, str_beq, length, ltb, get_or,
  if◌then◌else◌,
}
use molten_db.Json.{string}
use molten_db.Json.Object
use molten_db.Codec.BigEndian.{split_bytes}
use molten_db.Engine.Types.{write_error, Result, ok, err}
use molten_db.Wal.Command
use molten_db.Wal.Entry.{LogEntry}
use molten_db.Wal.Encoding.{log_entry_to_msgpack, log_entry_from_msgpack}

pub record Cipher : Type 0 where
  -- of a nonce and a message
  pub encrypt : Bytes → Bytes → Option Bytes
  pub decrypt : Bytes → Bytes → Option Bytes
  -- `base64::STANDARD`
  pub encode : Bytes → Str
  pub decode : Str → Option Bytes

-- `map_err(|_| DbError::WriteError)`, and `ok_or`
abbrev or_write_error : {A : Type 0} → Option A → Result A
or_write_error none = err write_error
or_write_error (some a) = ok a

module _ (c : Cipher) where
  -- At a time and with a nonce.
  unfoldable pub encrypt_entry : ℕ → Bytes → LogEntry → Result LogEntry
  unfolding log_entry_to_msgpack
  encrypt_entry now nonce e = elim (c.encrypt nonce (log_entry_to_msgpack e)) [
    | none ↦ err write_error
    | some text ↦ ok record {
      cmd = Command.ikey_enc;
      collection = codes "_";
      key = codes "_";
      value = string (c.encode (nonce ++ text));
      time = now;
    }
  ]

  module _ (skip : Bytes → Option Bytes) where
    unfoldable pub decrypt_payload : Bytes → Result LogEntry
    unfolding split_bytes log_entry_from_msgpack
    decrypt_payload payload = elim (split_bytes 24 payload) [
      | none ↦ err write_error
      | some (nonce, text) ↦ elim (c.decrypt nonce text) [
        | none ↦ err write_error
        | some plain ↦ or_write_error (log_entry_from_msgpack skip plain)
      ]
    ]

    unfoldable pub decrypt_entry : LogEntry → Result LogEntry
    unfolding decrypt_payload Object.as_str
    decrypt_entry e = elim (c.decode (get_or (Object.as_str e.value) [])) [
      | none ↦ err write_error
      | some payload ↦ decrypt_payload payload
    ]

    -- One round of the loop: an entry that is encrypted and cannot be decrypted is left out.
    unfoldable pub read_entry : LogEntry → List LogEntry → List LogEntry
    unfolding decrypt_entry
    read_entry e rest =
        if str_beq e.cmd Command.ikey_enc
        then (elim (decrypt_entry e) [ ok real ↦ real ∷ rest | err _ ↦ rest ])
        else e ∷ rest

    -- Of the entries that the wrapped storage reads.
    unfoldable pub read_log : List LogEntry → List LogEntry
    unfolding read_entry
    read_log [] = []
    read_log (e ∷ raw) = read_entry e (read_log raw)
