-- ===== src/Tests/Cipher.antt =====
-- A log file of an encrypted entry and one in the clear.
use molten_db.Prelude.{
  ◌≡◌, refl, ℕ, ◌+◌, Option, some, [], ◌∷◌, ◌++◌, Bytes, Str, codes, arith, take, str_beq, nat_beq,
  zero, suc, false, ◌>>=◌, ◌∙◌, if◌then◌else◌,
}
use molten_db.Json.{string}
use molten_db.Codec.Canon.{IsText, canon}
use molten_db.Codec.Utf8.{is_utf8}
use molten_db.Codec.Write.{write_value, write_str, write_number, write_map_header}
use molten_db.Codec.BigEndian.{write_be}
use molten_db.Wal.Command
use molten_db.Wal.Entry.{LogEntry}
use molten_db.Wal.Encoding.{log_entry_to_msgpack, write_cmd}
use molten_db.Wal.Encoding.Laws.{canon_cmd}
use molten_db.Disk.{write_msgpack_entry, write_compacted_log_no_tx, read_log_from_disk}
use molten_db.Disk.Laws.{IsWritable, canon_entry}
use molten_db.Engine.Types.{ok}
use molten_db.Encrypted.{Cipher, encrypt_entry, read_log}
use molten_db.Encrypted.Laws.{IsSound, sealed, bare, concat, read_log-read_log_from_disk}
use molten_db.Tests.Codec.{skip_one}
use molten_db.Tests.Storage.{put, put-IsWritable, put_cut}

-- A code with one letter for each unit of a byte, and a cipher that hides nothing.
abbrev encode_byte : ℕ → Str → Str
encode_byte zero s = b'.' ∷ s
encode_byte (suc n) s = b'|' ∷ encode_byte n s

abbrev encode : Bytes → Str
encode [] = []
encode (b ∷ bs) = encode_byte b (encode bs)

abbrev decode : ℕ → Str → Option Bytes
decode n [] = some []
decode n (c ∷ s) =
    let more = decode (suc n) s in
    let next = (do bs ← decode 0 s; some (n ∷ bs)) in if nat_beq c b'|' then more else next

abbrev clear : Cipher
clear = record {
  encrypt = λ nonce plain. some plain;
  decrypt = λ nonce text. some text;
  encode = encode;
  decode = decode 0;
}

decode-encode_byte :
    (n b : ℕ) (s : Str) → decode n (encode_byte b s) ≡ (do bs ← decode 0 s; some ((n + b) ∷ bs))
decode-encode_byte n zero s = ground arith
decode-encode_byte n (suc b) s = decode-encode_byte (suc n) b s ∙ ground arith

decode-encode_all : (bs : Bytes) → decode 0 (encode bs) ≡ some bs
decode-encode_all [] = refl
decode-encode_all (b ∷ bs) =
    decode-encode_byte 0 b (encode bs) ∙ rw (decode-encode_all bs) (ground arith)

clear-IsSound : IsSound clear
clear-IsSound = record {
  opens = λ nonce plain text h. ground (arith, h);
  decodes = decode-encode_all;
}

-- Twenty-four bytes.
abbrev nonce : Bytes
nonce =
    0 ∷ 0 ∷ 0 ∷ 0 ∷ 0 ∷ 0 ∷ 0 ∷ 0 ∷ 0 ∷ 0 ∷ 0 ∷ 0 ∷ 0 ∷ 0 ∷ 0 ∷ 0 ∷ 0 ∷ 0 ∷ 0 ∷ 0 ∷ 0 ∷ 0 ∷ 0 ∷ 0
    ∷ []

abbrev hidden : LogEntry
hidden = record {
  cmd = Command.ikey_enc;
  collection = codes "_";
  key = codes "_";
  value = string (encode (nonce ++ log_entry_to_msgpack put));
  time = 6;
}

hidden_made : encrypt_entry clear 6 nonce put ≡ ok hidden
unfolding encrypt_entry
hidden_made = refl

enc_IsText : IsText Command.ikey_enc
unfolding is_utf8
enc_IsText = record { short = omega arith; utf8 = refl }

blank_IsText : IsText (codes "_")
unfolding is_utf8
blank_IsText = record { short = omega arith; utf8 = refl }

hidden-IsWritable : IsWritable hidden
unfolding is_utf8 log_entry_to_msgpack write_str write_cmd Command.token str_beq write_value
    write_number write_be write_map_header
hidden-IsWritable = record {
  cmd = enc_IsText;
  collection = blank_IsText;
  key = blank_IsText;
  value = record { short = omega arith; utf8 = refl };
  time = omega arith;
  small = omega arith;
}

same : (canon_entry hidden ≡ hidden) × (canon_entry put ≡ put)
unfolding canon_cmd canon Command.token Command.of_token str_beq
same = (refl, refl)

put_bare : str_beq put.cmd Command.ikey_enc ≡ false
unfolding str_beq
put_bare = refl

read_log-read_log_from_disk_example :
    read_log clear skip_one (
      read_log_from_disk skip_one
        (write_compacted_log_no_tx (hidden ∷ put ∷ []) ++ take 7 (write_msgpack_entry put)))
    ≡ concat ((canon_entry put ∷ []) ∷ (put ∷ []) ∷ [])
read_log-read_log_from_disk_example =
    read_log-read_log_from_disk clear clear-IsSound skip_one (hidden ∷ put ∷ [])
      ((canon_entry put ∷ []) ∷ (put ∷ []) ∷ []) put 7
      (sealed 6 nonce refl put-IsWritable hidden_made, (bare put_bare, tt))
      (hidden-IsWritable, (put-IsWritable, tt)) (same.0, (same.1, tt)) put-IsWritable put_cut
