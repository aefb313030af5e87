-- ===== src/Codec/Token/Keys.antt =====
-- What the search for a token does at each key of a stored document.
use molten_db.Prelude.{
  ℕ, suc, ◌-◌, ◌≤◌, ◌≡◌, refl, Option, false, ◌++◌, arith, Bytes, Str, str_beq, str_beq_iff, ◌>>=◌,
}
use molten_db.Codec.Canon.{IsText, canon_key}
use molten_db.Codec.Marker.{marker, fix_neg}
use molten_db.Codec.SystemFields
use molten_db.Codec.Token.{read_uint_at, skip_key, find_token}
use molten_db.Codec.Write.{write_map_key}
use molten_db.Codec.Token.Headers.{first, string_key}

marker-token : (b : ℕ) → 0xe0 ≤ b → b ≤ 0xff → marker b ≡ fix_neg (255 - b)
unfolding marker
marker-token b h l = ground arith

-- What the loop does at the key of a stored document: it stops at the one key that the token stands
-- for, and passes over any other with its value.
pub record Finds (skip : Bytes → Option Bytes) (t : ℕ) (ikey : Str) : Type 0 where
  pub hit :
      (n : ℕ) (tail : Bytes)
      → find_token skip t (suc n) (write_map_key ikey ++ tail) ≡ first (read_uint_at tail)
  pub miss :
      (k : Str) (n : ℕ) (tail : Bytes)
      → IsText k
      → canon_key k ≡ k
      → str_beq k ikey ≡ false
      → find_token skip t (suc n) (write_map_key k ++ tail) ≡ (skip tail >>= find_token skip t n)

module _ (skip : Bytes → Option Bytes) where
  version_miss :
      (k : Str) (n : ℕ) (tail : Bytes)
      → IsText k
      → canon_key k ≡ k
      → str_beq k SystemFields.ikey_version ≡ false
      → find_token skip SystemFields.tok_version (suc n) (write_map_key k ++ tail)
        ≡ (skip tail >>= find_token skip SystemFields.tok_version n)
  unfolding write_map_key canon_key find_token skip_key
  version_miss k n tail e c h = ground (
    arith,
    string_key 0xff skip k n tail,
    str_beq_iff k SystemFields.version,
    marker-token 0xfe,
    marker-token 0xfd,
    marker-token 0xfc,
    marker-token 0xfb,
    marker-token 0xfa,
  )

  seq_miss :
      (k : Str) (n : ℕ) (tail : Bytes)
      → IsText k
      → canon_key k ≡ k
      → str_beq k SystemFields.ikey_seq ≡ false
      → find_token skip SystemFields.tok_seq (suc n) (write_map_key k ++ tail)
        ≡ (skip tail >>= find_token skip SystemFields.tok_seq n)
  unfolding write_map_key canon_key find_token skip_key
  seq_miss k n tail e c h = ground (
    arith,
    string_key 0xfd skip k n tail,
    str_beq_iff k SystemFields.seq,
    marker-token 0xff,
    marker-token 0xfe,
    marker-token 0xfc,
    marker-token 0xfb,
    marker-token 0xfa,
  )

  created_at_miss :
      (k : Str) (n : ℕ) (tail : Bytes)
      → IsText k
      → canon_key k ≡ k
      → str_beq k SystemFields.ikey_created_at ≡ false
      → find_token skip SystemFields.tok_created_at (suc n) (write_map_key k ++ tail)
        ≡ (skip tail >>= find_token skip SystemFields.tok_created_at n)
  unfolding write_map_key canon_key find_token skip_key
  created_at_miss k n tail e c h = ground (
    arith,
    string_key 0xfc skip k n tail,
    str_beq_iff k SystemFields.created_at,
    marker-token 0xff,
    marker-token 0xfe,
    marker-token 0xfd,
    marker-token 0xfb,
    marker-token 0xfa,
  )

  modified_at_miss :
      (k : Str) (n : ℕ) (tail : Bytes)
      → IsText k
      → canon_key k ≡ k
      → str_beq k SystemFields.ikey_modified_at ≡ false
      → find_token skip SystemFields.tok_modified_at (suc n) (write_map_key k ++ tail)
        ≡ (skip tail >>= find_token skip SystemFields.tok_modified_at n)
  unfolding write_map_key canon_key find_token skip_key
  modified_at_miss k n tail e c h = ground (
    arith,
    string_key 0xfb skip k n tail,
    str_beq_iff k SystemFields.modified_at,
    marker-token 0xff,
    marker-token 0xfe,
    marker-token 0xfd,
    marker-token 0xfc,
    marker-token 0xfa,
  )

  expires_at_miss :
      (k : Str) (n : ℕ) (tail : Bytes)
      → IsText k
      → canon_key k ≡ k
      → str_beq k SystemFields.ikey_expires_at ≡ false
      → find_token skip SystemFields.tok_expires_at (suc n) (write_map_key k ++ tail)
        ≡ (skip tail >>= find_token skip SystemFields.tok_expires_at n)
  unfolding write_map_key canon_key find_token skip_key
  expires_at_miss k n tail e c h = ground (
    arith,
    string_key 0xfa skip k n tail,
    str_beq_iff k SystemFields.expires_at,
    marker-token 0xff,
    marker-token 0xfe,
    marker-token 0xfd,
    marker-token 0xfc,
    marker-token 0xfb,
  )

  pub version_Finds : Finds skip SystemFields.tok_version SystemFields.ikey_version
  unfolding write_map_key canon_key find_token skip_key str_beq
  version_Finds = record {
    hit = λ n tail. refl;
    miss = λ k n tail e c h. version_miss k n tail e c h;
  }

  pub seq_Finds : Finds skip SystemFields.tok_seq SystemFields.ikey_seq
  unfolding write_map_key canon_key find_token skip_key str_beq
  seq_Finds = record { hit = λ n tail. refl; miss = λ k n tail e c h. seq_miss k n tail e c h }

  pub created_at_Finds : Finds skip SystemFields.tok_created_at SystemFields.ikey_created_at
  unfolding write_map_key canon_key find_token skip_key str_beq
  created_at_Finds = record {
    hit = λ n tail. refl;
    miss = λ k n tail e c h. created_at_miss k n tail e c h;
  }

  pub modified_at_Finds : Finds skip SystemFields.tok_modified_at SystemFields.ikey_modified_at
  unfolding write_map_key canon_key find_token skip_key str_beq
  modified_at_Finds = record {
    hit = λ n tail. refl;
    miss = λ k n tail e c h. modified_at_miss k n tail e c h;
  }

  pub expires_at_Finds : Finds skip SystemFields.tok_expires_at SystemFields.ikey_expires_at
  unfolding write_map_key canon_key find_token skip_key str_beq
  expires_at_Finds = record {
    hit = λ n tail. refl;
    miss = λ k n tail e c h. expires_at_miss k n tail e c h;
  }
