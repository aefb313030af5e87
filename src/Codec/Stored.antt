-- ===== src/Codec/Stored.antt =====
-- Values as the engine keeps them: objects in key order, with the keys of memory. Decoding gives
-- no other values, and loses nothing of these.
use molten_db.Prelude.{
  ◌≡◌, refl, ap, ap₂, ◌∙◌, true, arith, Str, str_beq_iff, str_ltb, str_ltb_irrefl, str_ltb_trans,
  some,
}
use molten_db.Json.{
  Value, Items, Fields, null, bool, number, string, array, object, nil, cons, end, field,
}
use molten_db.Json.Object
use molten_db.Codec.Canon.{IsEncodable, canon_key, canon, canon_items, canon_fields}
use molten_db.Codec.Read.{msgpack_to_value}
use molten_db.Codec.RoundTrip.{msgpack_to_value-value_to_msgpack}
use molten_db.Codec.Write.{value_to_msgpack}

-- The key stands before every key of the object.
abbrev pub Above : Str → Fields → Type 0
Above k end = Unit
Above k (field j v fs) = (str_ltb k j ≡ true) × Above k fs

abbrev mutual
  pub IsStored : Value → Type 0
  IsStored null = Unit
  IsStored (bool b) = Unit
  IsStored (number n) = Unit
  IsStored (string s) = Unit
  IsStored (array xs) = AreStored xs
  IsStored (object fs) = HasStored fs

  pub AreStored : Items → Type 0
  AreStored nil = Unit
  AreStored (cons x xs) = IsStored x × AreStored xs

  pub HasStored : Fields → Type 0
  HasStored end = Unit
  HasStored (field k v fs) = (canon_key k ≡ k) × IsStored v × Above k fs × HasStored fs

append : Fields → Fields → Fields
append end gs = gs
append (field k v fs) gs = field k v (append fs gs)

-- Every key of the first stands before every key of the second.
abbrev Before : Fields → Fields → Type 0
Before end gs = Unit
Before (field k v fs) gs = Above k gs × Before fs gs

insert_last :
    (fs gs : Fields) (k : Str) (v w : Value)
    → Before fs (field k v gs)
    → Object.insert k w fs ≡ append fs (field k w end)
unfolding Object.insert append
insert_last end gs k v w b = refl
insert_last (field j u fs) gs k v w b =
    ground (arith, insert_last fs gs k v w, str_beq_iff j k, str_ltb_irrefl j, str_ltb_trans j k j)

append-snoc :
    (fs gs : Fields) (k : Str) (v : Value)
    → append (append fs (field k v end)) gs ≡ append fs (field k v gs)
unfolding append
append-snoc end gs k v = refl
append-snoc (field j w fs) gs k v = ap (field j w) (append-snoc fs gs k v)

append-end : (fs : Fields) → append fs end ≡ fs
unfolding append
append-end end = refl
append-end (field j w fs) = ap (field j w) (append-end fs)

Before-snoc :
    (fs gs : Fields) (k : Str) (v w : Value)
    → Before fs (field k v gs)
    → Above k gs
    → Before (append fs (field k w end)) gs
unfolding append
Before-snoc end gs k v w b a = (a, tt)
Before-snoc (field j u fs) gs k v w b a = (b.0.1, Before-snoc fs gs k v w b.1 a)

mutual
  unfolding canon append

  canon_lem : (v : Value) (s : IsStored v) → canon v ≡ v
  canon_lem null s = refl
  canon_lem (bool b) s = refl
  canon_lem (number n) s = refl
  canon_lem (string t) s = refl
  canon_lem (array xs) s = ap array (items_lem xs s)
  canon_lem (object fs) s = ap object (fields_lem fs s end tt)

  items_lem : (xs : Items) (s : AreStored xs) → canon_items xs ≡ xs
  items_lem nil s = refl
  items_lem (cons x xs) s = ap₂ cons (canon_lem x s.0) (items_lem xs s.1)

  fields_lem :
      (fs : Fields) (s : HasStored fs) (map : Fields) (b : Before map fs)
      → canon_fields fs map ≡ append map fs
  fields_lem end s map b = rw append-end
  fields_lem (field k v fs) s map b = rw (s.0) (
      rw (canon_lem v s.1) (
        rw (insert_last map fs k v v b) (
          rw (fields_lem fs s.3 (append map (field k v end)) (Before-snoc map fs k v v b s.2))
            (append-snoc map fs k v))))

-- Decoding gives back what was encoded, for a value that MsgPack can hold whose objects are in order
-- and have their keys in the form that they have in memory.
pub decode-encode :
    (v : Value) → IsEncodable v → IsStored v → msgpack_to_value (value_to_msgpack v) ≡ some v
decode-encode v e s = msgpack_to_value-value_to_msgpack v e ∙ ap some (canon_lem v s)
