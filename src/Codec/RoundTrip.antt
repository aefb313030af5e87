-- ===== src/Codec/RoundTrip.antt =====
-- What `write_value` writes, `read_value` reads back.
pub mod Scalars
mod Headers
use mathlib.Core.List.{append_assoc, append-nil}
use molten_db.Prelude.{
  ℕ, zero, suc, ◌+◌, ◌≤◌, ◌<◌, ◌^◌, ◌≡◌, refl, ap, some, List, [], ◌∷◌, ◌++◌, arith, Bytes, Str,
  Bool, true, false, length, length-append,
}
use molten_db.Json.{
  Value, Items, Fields, Number, pos_int, neg_int, float, null, bool, number, string, array, object,
  nil, cons, end, field,
}
use molten_db.Json.Object
use molten_db.Codec.Canon.{
  IsText, IsEncodable, AreEncodable, HasEncodable, canon_key, canon, canon_items, canon_fields,
}
use molten_db.Codec.Marker.Bytes.{marker_null, marker_boolean_true, marker_boolean_false}
use molten_db.Codec.Read.{
  read_items, read_entries, read_array, read_map, read_marked, read_value, msgpack_to_value,
}
use molten_db.Codec.Write.{
  write_number, write_str, write_array_header, write_map_header, write_map_key, write_value,
  write_items, write_fields, value_to_msgpack,
}
use Scalars.{read_value-write_str, read_value-write_number}
use Headers.{read_value-write_array_header, read_value-write_map_header, read_map_key-write_map_key}

length-write_array_header_pos : (n : ℕ) → 0 < length (write_array_header n)
unfolding write_array_header
length-write_array_header_pos n = ground arith

length-write_map_header_pos : (n : ℕ) → 0 < length (write_map_header n)
unfolding write_map_header
length-write_map_header_pos n = ground arith

length-write_str_pos : (s : Str) → 0 < length (write_str s)
unfolding write_str
length-write_str_pos s = ground arith

length-write_map_key_pos : (k : Str) → 0 < length (write_map_key k)
unfolding write_map_key
length-write_map_key_pos k = ground (arith, length-write_str_pos k)

length-write_number_pos : (n : Number) → 0 < length (write_number n)
unfolding write_number
length-write_number_pos (pos_int u) = ground arith
length-write_number_pos (neg_int n) = ground arith
length-write_number_pos (float bits) = ground arith

-- Positive fuel is a successor.
spend {ℓ} : (P : ℕ → Type ℓ) → ((f : ℕ) → P (suc f)) → (f : ℕ) → 0 < f → P f
spend P k zero h = absurd (omega arith)
spend P k (suc f) h = k f

abbrev bytes_append : (xs ys : Bytes) → length (xs ++ ys) ≡ length xs + length ys
bytes_append = length-append

ruleset lengths = (
  arith, bytes_append, length-write_array_header_pos, length-write_map_header_pos,
  length-write_str_pos, length-write_map_key_pos, length-write_number_pos,
)

null_lem :
    (f : ℕ) (rest : Bytes) → 0 < f → read_value f (write_value null ++ rest) ≡ some (null, rest)
unfolding read_value read_marked write_value
null_lem zero rest h = absurd (omega arith)
null_lem (suc f) rest h = rw marker_null

bool_lem :
    (b : Bool) (f : ℕ) (rest : Bytes)
    → 0 < f
    → read_value f (write_value (bool b) ++ rest) ≡ some (bool b, rest)
unfolding read_value read_marked write_value
bool_lem b zero rest h = absurd (omega arith)
bool_lem true (suc f) rest h = rw marker_boolean_true
bool_lem false (suc f) rest h = rw marker_boolean_false

mutual
  unfolding write_value canon read_items read_entries read_array read_map Object.count Object.len

  value_lem :
      (v : Value) (e : IsEncodable v) (f : ℕ) (rest : Bytes) (h : length (write_value v) ≤ f)
      → read_value f (write_value v ++ rest) ≡ some (canon v, rest)
  value_lem null e f rest h = null_lem f rest (omega arith)
  value_lem (bool true) e f rest h = bool_lem true f rest (omega arith)
  value_lem (bool false) e f rest h = bool_lem false f rest (omega arith)
  value_lem (number n) e f rest h =
      spend (λ f. read_value f (write_number n ++ rest) ≡ some (number n, rest))
        (λ g. read_value-write_number g rest n e) f (omega lengths)
  value_lem (string s) e f rest h =
      spend (λ f. read_value f (write_str s ++ rest) ≡ some (string s, rest))
        (λ g. read_value-write_str s e g rest) f (omega lengths)
  value_lem (array xs) e zero rest h = absurd (omega lengths)
  value_lem (array xs) e (suc f) rest h = rw append_assoc (
      rw (read_value-write_array_header f (Object.count xs) (write_items xs ++ rest) e.0)
        (rw (items_lem xs e.1 f rest (omega lengths))))
  value_lem (object fs) e zero rest h = absurd (omega lengths)
  value_lem (object fs) e (suc f) rest h = rw append_assoc (
      rw (read_value-write_map_header f (Object.len fs) (write_fields fs ++ rest) e.0)
        (rw (fields_lem fs e.1 f rest end (omega lengths))))

  items_lem :
      (xs : Items) (e : AreEncodable xs) (f : ℕ) (rest : Bytes) (h : length (write_items xs) ≤ f)
      → read_items (read_value f) (Object.count xs) (write_items xs ++ rest)
        ≡ some (canon_items xs, rest)
  items_lem nil e f rest h = refl
  items_lem (cons x xs) e f rest h = rw append_assoc (
      rw (value_lem x e.0 f (write_items xs ++ rest) (omega lengths))
        (rw (items_lem xs e.1 f rest (omega lengths))))

  fields_lem :
      (fs : Fields) (e : HasEncodable fs) (f : ℕ) (rest : Bytes) (map : Fields)
      (h : length (write_fields fs) ≤ f)
      → read_entries (read_value f) (Object.len fs) map (write_fields fs ++ rest)
        ≡ some (canon_fields fs map, rest)
  fields_lem end e f rest map h = refl
  fields_lem (field k v fs) e zero rest map h = absurd (omega lengths)
  fields_lem (field k v fs) e (suc f) rest map h = rw append_assoc (
      rw append_assoc (
        rw (read_map_key-write_map_key f k (write_value v ++ (write_fields fs ++ rest)) e.0) (
          rw (value_lem v e.1 (suc f) (write_fields fs ++ rest) (omega lengths)) (
            fields_lem fs e.2 (suc f) rest (Object.insert (canon_key k) (canon v) map)
              (omega lengths)))))

-- Of a value that MsgPack can hold, the reader finds on the front of any input the canonical form of
-- what the writer wrote, and leaves what follows. The fuel is the length of what was written, or
-- more.
pub read_value-write_value :
    (v : Value) (fuel : ℕ) (rest : Bytes)
    → IsEncodable v
    → length (write_value v) ≤ fuel
    → read_value fuel (write_value v ++ rest) ≡ some (canon v, rest)
read_value-write_value v fuel rest e h = value_lem v e fuel rest h

-- A value that MsgPack can hold and that was encoded decodes to its canonical form: the names of
-- system fields replaced by their keys in memory, and the objects in the order of the keys.
pub msgpack_to_value-value_to_msgpack :
    (v : Value) → IsEncodable v → msgpack_to_value (value_to_msgpack v) ≡ some (canon v)
unfolding msgpack_to_value value_to_msgpack
msgpack_to_value-value_to_msgpack v e =
    let read : read_value (length (write_value v)) (write_value v) ≡ some (canon v, []) =
      rw append-nil at (value_lem v e (length (write_value v)) [] (omega arith)) in
    rw read
