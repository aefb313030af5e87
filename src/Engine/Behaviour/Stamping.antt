-- ===== src/Engine/Behaviour/Stamping.antt =====
-- The system fields that `insert` sets.
use molten_db.Prelude.{
  Option, ◌≡◌, ap, ℕ, ◌+◌, ◌%◌, ◌^◌, none, some, Str, str_eq, str_beq, str_ltb, str_beq_iff,
  str_ltb_trans, str_ltb_total, sym, refl, true, Bool-cases, inl, inr, ◌>>=◌, get_or, if◌then◌else◌,
}
use molten_db.Json.{Value, object, Fields, end, field}
use molten_db.Json.Object
use molten_db.Json.Numeric
use molten_db.Codec.SystemFields
use molten_db.Codec.Canon.{IsEncodable, canon_key}
use molten_db.Codec.Read.{msgpack_to_value}
use molten_db.Codec.Stored.{Above, IsStored, HasStored, decode-encode}
use molten_db.Codec.Write.{value_to_msgpack}
use molten_db.Engine.Documents.{u64, get_u64}
use molten_db.Engine.Set.{stamp, stamp_value}

-- The stamp decides the four fields of the engine, and every other field is as the client gave it.
pub get-stamp :
    (version created modified seq : ℕ) (fs : Fields) (k : Str)
    → Object.get (stamp version created modified seq fs) k ≡ (
        if str_beq SystemFields.ikey_seq k
        then some (u64 seq)
        else if str_beq SystemFields.ikey_modified_at k
        then some (u64 modified)
        else if str_beq SystemFields.ikey_created_at k
        then some (u64 created)
        else if str_beq SystemFields.ikey_version k
        then some (u64 version)
        else Object.get fs k)
unfolding stamp
get-stamp version created modified seq fs k = rw (
  Object.get-insert SystemFields.ikey_seq k (u64 seq),
  Object.get-insert SystemFields.ikey_modified_at k (u64 modified),
  Object.get-insert SystemFields.ikey_created_at k (u64 created),
  Object.get-insert SystemFields.ikey_version k (u64 version),
)

-- A document that is overwritten by an object has its version one higher (modulo 2^64), its sequence
-- number and its time of creation kept where it has them, and the time of the call as the time of
-- modification, whatever the object says of these fields.
stamp_value-overwrite :
    (now seq : ℕ) (existing : Value) (fs : Fields)
    → let v : Value = stamp_value now seq (some existing) (object fs) in
      (get_u64 v SystemFields.ikey_version
        ≡ some ((get_or (get_u64 existing SystemFields.ikey_version) 0 + 1) % 2 ^ 64))
      × (get_u64 v SystemFields.ikey_seq
          ≡ some (get_or (get_u64 existing SystemFields.ikey_seq) seq))
      × (get_u64 v SystemFields.ikey_created_at
          ≡ some (get_or (get_u64 existing SystemFields.ikey_created_at) now))
      × (get_u64 v SystemFields.ikey_modified_at ≡ some now)
unfolding stamp_value Object.lookup Object.as_u64 Numeric.as_u64 str_beq
stamp_value-overwrite now seq existing fs =
    let version : ℕ = (get_or (get_u64 existing SystemFields.ikey_version) 0 + 1) % 2 ^ 64 in
    let created : ℕ = get_or (get_u64 existing SystemFields.ikey_created_at) now in
    let kept : ℕ = get_or (get_u64 existing SystemFields.ikey_seq) seq in
    let read : (k : Str) → _ =
      λ k. ap (λ o. o >>= Object.as_u64) (get-stamp version created now kept fs k) in
    (
      read SystemFields.ikey_version,
      read SystemFields.ikey_seq,
      read SystemFields.ikey_created_at,
      read SystemFields.ikey_modified_at,
    )

-- A new document that is an object starts at version 1 with the sequence number that was drawn for it
-- and the time of the call, whatever the object says of these fields.
stamp_value-fresh :
    (now seq : ℕ) (fs : Fields)
    → let v : Value = stamp_value now seq none (object fs) in
      (get_u64 v SystemFields.ikey_version ≡ some 1)
      × (get_u64 v SystemFields.ikey_seq ≡ some seq)
      × (get_u64 v SystemFields.ikey_created_at ≡ some now)
      × (get_u64 v SystemFields.ikey_modified_at ≡ some now)
unfolding stamp_value Object.lookup Object.as_u64 Numeric.as_u64 str_beq
stamp_value-fresh now seq fs =
    let read : (k : Str) → _ = λ k. ap (λ o. o >>= Object.as_u64) (get-stamp 1 now now seq fs k) in
    (
      read SystemFields.ikey_version,
      read SystemFields.ikey_seq,
      read SystemFields.ikey_created_at,
      read SystemFields.ikey_modified_at,
    )

abbrev pub next_version : Option Value → ℕ
next_version none = 1
next_version (some existing) = (get_or (get_u64 existing SystemFields.ikey_version) 0 + 1) % 2 ^ 64

-- A number that the document has, or the one that is at hand.
abbrev pub kept : Option Value → Str → ℕ → ℕ
kept none k n = n
kept (some existing) k n = get_or (get_u64 existing k) n

abbrev Stamped : ℕ → ℕ → Option Value → Value → Type 0
Stamped now seq existing v =
    (get_u64 v SystemFields.ikey_version ≡ some (next_version existing))
    × (get_u64 v SystemFields.ikey_seq ≡ some (kept existing SystemFields.ikey_seq seq))
    × (get_u64 v SystemFields.ikey_created_at
        ≡ some (kept existing SystemFields.ikey_created_at now))
    × (get_u64 v SystemFields.ikey_modified_at ≡ some now)

stamp_value-kept :
    (now seq : ℕ) (existing : Option Value) (fs : Fields)
    → Stamped now seq existing (stamp_value now seq existing (object fs))
stamp_value-kept now seq none fs = stamp_value-fresh now seq fs
stamp_value-kept now seq (some existing) fs = stamp_value-overwrite now seq existing fs

str_beq_sym : (s t : Str) → str_beq s t ≡ true → str_beq t s ≡ true
str_beq_sym s t e = (str_beq_iff t s).1 (sym ((str_beq_iff s t).0 e))

Above-insert :
    (j k : Str) (v : Value) (fs : Fields)
    → str_ltb j k ≡ true
    → Above j fs
    → Above j (Object.insert k v fs)
unfolding Object.insert
Above-insert j k v end h a = (h, tt)
Above-insert j k v (field i w fs) h a = elim (Bool-cases (str_beq i k)) [
  | inl same ↦ rw same a
  | inr other ↦ elim (Bool-cases (str_ltb k i)) [
    | inl before ↦ rw (other, before) (h, a)
    | inr after ↦ rw (other, after) (a.0, Above-insert j k v fs h a.1)
  ]
]

Above-before : (j k : Str) (fs : Fields) → str_ltb j k ≡ true → Above k fs → Above j fs
Above-before j k end h a = tt
Above-before j k (field i w fs) h a = (str_ltb_trans j k i h a.0, Above-before j k fs h a.1)

HasStored-insert :
    (k : Str) (v : Value) (fs : Fields)
    → canon_key k ≡ k
    → IsStored v
    → HasStored fs
    → HasStored (Object.insert k v fs)
unfolding Object.insert
HasStored-insert k v end c s h = (c, s, tt, tt)
HasStored-insert k v (field i w fs) c s h = elim (Bool-cases (str_beq i k)) [
  | inl same ↦ rw same (h.0, s, h.2, h.3)
  | inr other ↦ elim (Bool-cases (str_ltb k i)) [
    | inl before ↦ rw (other, before) (c, s, (before, Above-before k i fs before h.2), h)
    | inr after ↦
        rw (other, after)
          (
            h.0,
            h.1,
            Above-insert i k v fs
                (str_ltb_total k i
                  (elim (Bool-cases (str_beq k i)) [
                    | inl e ↦ absurd (cc (str_beq_sym k i e, other))
                    | inr n ↦ n
                  ])
                  after)
                h.2,
            HasStored-insert k v fs c s h.3,
          )
  ]
]

stamp-HasStored :
    (version created modified seq : ℕ) (fs : Fields)
    → HasStored fs
    → HasStored (stamp version created modified seq fs)
unfolding stamp canon_key str_beq
stamp-HasStored version created modified seq fs s =
    HasStored-insert SystemFields.ikey_seq _ _ refl tt (
      HasStored-insert SystemFields.ikey_modified_at _ _ refl tt (
        HasStored-insert SystemFields.ikey_created_at _ _ refl tt
          (HasStored-insert SystemFields.ikey_version _ fs refl tt s)))

stamped-IsStored :
    (now seq : ℕ) (existing : Option Value) (fs : Fields)
    → HasStored fs
    → IsStored (stamp_value now seq existing (object fs))
unfolding stamp_value
stamped-IsStored now seq none fs s = stamp-HasStored _ _ _ _ fs s
stamped-IsStored now seq (some existing) fs s = stamp-HasStored _ _ _ _ fs s

-- An object without public names of system fields comes back from its encoding under a key with
-- version 1, or, where it overwrites a document, the next version (modulo 2^64); with the sequence number
-- and the time of creation of that document where it has them, and the number that was drawn and the time
-- of the call otherwise; and with the time of the call as the time of modification, where MsgPack can
-- hold the object.
pub decode-stamp_value :
    (now seq : ℕ) (existing : Option Value) (fs : Fields)
    → HasStored fs
    → IsEncodable (stamp_value now seq existing (object fs))
    → (v : Value) × (msgpack_to_value (value_to_msgpack (stamp_value now seq existing (object fs)))
        ≡ some v)
      × (get_u64 v SystemFields.ikey_version ≡ some (next_version existing))
      × (get_u64 v SystemFields.ikey_seq ≡ some (kept existing SystemFields.ikey_seq seq))
      × (get_u64 v SystemFields.ikey_created_at
          ≡ some (kept existing SystemFields.ikey_created_at now))
      × (get_u64 v SystemFields.ikey_modified_at ≡ some now)
decode-stamp_value now seq existing fs s e =
    let kept_on = stamp_value-kept now seq existing fs in
    (
      stamp_value now seq existing (object fs),
      decode-encode (stamp_value now seq existing (object fs)) e
          (stamped-IsStored now seq existing fs s),
      kept_on.0,
      kept_on.1,
      kept_on.2,
      kept_on.3,
    )
