-- ===== src/Query/Bytes/Laws.antt =====
-- The walk along a path finds in the bytes of a value what the path leads to in the value.
use mathlib.Core.List.{append_assoc}
use mathlib.Core.Path.{subst}
use molten_db.Prelude.{
  ◌≡◌, refl, ap, ◌∙◌, arith, ℕ, suc, ◌<◌, ◌^◌, true, false, Option, none, some, List, [], ◌∷◌, ◌++◌,
  Bytes, Str, str_beq, Bool-cases, inl, inr, if◌then◌else◌, All, str_beq→eq, str_beq_refl, ◌>>=◌,
}
use molten_db.Json.{Value, Fields, null, bool, number, string, array, object, end, field}
use molten_db.Json.Object
use molten_db.Codec.Canon.{IsText, IsEncodable, HasEncodable}
use molten_db.Codec.Token.Headers.{IsNoObject}
use molten_db.Codec.Token.Laws.{Skips}
use molten_db.Codec.Write.{write_str, write_map_header, write_map_key, write_value, write_fields}
use molten_db.Query.Nested.{get_nested_value}
use molten_db.Query.Bytes.{read_msgpack_map_len, skip_value, scan_map, find_msgpack_value}
use molten_db.Query.Bytes.Headers.{
  read_msgpack_str-write_str, read_msgpack_map_len-write_map_header,
  read_msgpack_map_len-write_scalar,
}
use molten_db.Query.Bytes.Points.{Points, Points-cong, Points-chain, Points-some}

-- A text that stands for itself as a key, and not for a system field.
pub record IsSegment (s : Str) : Type 0 where
  pub text : IsText s
  pub plain : write_map_key s ≡ write_str s

module _ (skip : Bytes → Option Bytes) (segment : Str) where
  scan_map-write_str :
      (k : Str) (n : ℕ) (rest : Bytes)
      → IsText k
      → scan_map skip segment (suc n) (write_str k ++ rest)
        ≡ (if str_beq k segment then some rest else scan_map skip segment n (skip_value skip rest))
  unfolding scan_map write_str
  scan_map-write_str k n rest e = ground (arith, read_msgpack_str-write_str k rest e)

  scan_map-write_map_key :
      (k : Str) (n : ℕ) (rest : Bytes)
      → IsText k
      → str_beq k segment ≡ false
      → scan_map skip segment (suc n) (write_map_key k ++ rest)
        ≡ scan_map skip segment n (skip_value skip rest)
  unfolding scan_map write_map_key
  scan_map-write_map_key k n rest e h = ground (arith, h, scan_map-write_str k n rest e)

pub get-IsEncodable :
    (fs : Fields) (k : Str) (v : Value) → HasEncodable fs → Object.get fs k ≡ some v → IsEncodable v
unfolding Object.get
get-IsEncodable end k v e h = absurd (cc h)
get-IsEncodable (field j w fs) k v e h = elim (Bool-cases (str_beq j k)) [
  | inl own ↦ let same : w ≡ v = ground (arith, own, h) in subst IsEncodable same e.1
  | inr other ↦ get-IsEncodable fs k v e.2 (rw other at h)
]

module _ (skip : Bytes → Option Bytes) (skips : Skips skip) where
  skip_value-write_value :
      (v : Value) (rest : Bytes) → IsEncodable v → skip_value skip (write_value v ++ rest) ≡ rest
  skip_value-write_value v rest e = rw (skips v rest e)

  module _ (segment : Str) (s : IsSegment segment) where
    scan_hit :
        (k : Str) (v : Value) (n : ℕ) (rest : Bytes)
        → str_beq k segment ≡ true
        → scan_map skip segment (suc n) (write_map_key k ++ rest) ≡ some rest
    scan_hit k v n rest own =
        let e : k ≡ segment = str_beq→eq k segment own in
        rw (e, s.plain, scan_map-write_str skip segment segment n rest s.text, str_beq_refl segment)

    scan_map-write_fields :
        (fs : Fields) (rest : Bytes)
        → HasEncodable fs
        → Points
            (scan_map skip segment (Object.len fs) (write_fields fs ++ rest))
            (Object.get fs segment)
    unfolding Object.len Object.get write_value scan_map
    scan_map-write_fields end rest e = tt
    scan_map-write_fields (field k v fs) rest e =
        let here : Bytes = write_value v ++ (write_fields fs ++ rest) in
        let bytes : (write_map_key k ++ (write_value v ++ write_fields fs)) ++ rest
            ≡ write_map_key k ++ here =
          rw (
            append_assoc (write_map_key k) (write_value v ++ write_fields fs) rest,
            append_assoc (write_value v) (write_fields fs) rest,
          ) in
        elim (Bool-cases (str_beq k segment)) [
          | inl own ↦
              Points-cong _ (some here) _ (some v)
                (ap (scan_map skip segment (suc (Object.len fs))) bytes
                  ∙ scan_hit k v (Object.len fs) here own)
                (rw own) (write_fields fs ++ rest, refl)
          | inr other ↦
              Points-cong _ (scan_map skip segment (Object.len fs) (write_fields fs ++ rest)) _
                (Object.get fs segment)
                (ap (scan_map skip segment (suc (Object.len fs))) bytes
                  ∙ scan_map-write_map_key skip segment k (Object.len fs) here e.0 other
                  ∙ ap (scan_map skip segment (Object.len fs))
                      (skip_value-write_value v (write_fields fs ++ rest) e.1))
                (rw other) (scan_map-write_fields fs rest e.2)
        ]

find-scalar :
    (skip : Bytes → Option Bytes) (segment : Str) (path : List Str) (v : Value) (rest : Bytes)
    → IsNoObject v
    → find_msgpack_value skip (segment ∷ path) (write_value v ++ rest) ≡ none
unfolding find_msgpack_value
find-scalar skip segment [] v rest h = rw (read_msgpack_map_len-write_scalar v rest h)
find-scalar skip segment (next ∷ path) v rest h = rw (read_msgpack_map_len-write_scalar v rest h)

get-scalar :
    (segment : Str) (path : List Str) (v : Value)
    → IsNoObject v
    → get_nested_value v (segment ∷ path) ≡ none
unfolding get_nested_value Object.lookup
get-scalar segment path null h = refl
get-scalar segment path (bool b) h = refl
get-scalar segment path (number n) h = refl
get-scalar segment path (string s) h = refl
get-scalar segment path (array xs) h = refl
get-scalar segment path (object fs) h = absurd h

header :
    (fs : Fields) (rest : Bytes)
    → Object.len fs < 2 ^ 32
    → read_msgpack_map_len (write_value (object fs) ++ rest)
      ≡ some (Object.len fs, write_fields fs ++ rest)
unfolding write_value
header fs rest e =
    rw (append_assoc (write_map_header (Object.len fs)) (write_fields fs) rest)
      (read_msgpack_map_len-write_map_header (Object.len fs) (write_fields fs ++ rest) e)

module _ (skip : Bytes → Option Bytes) (segment : Str) where
  find_last :
      (fs : Fields) (rest : Bytes)
      → Object.len fs < 2 ^ 32
      → find_msgpack_value skip (segment ∷ []) (write_value (object fs) ++ rest)
        ≡ scan_map skip segment (Object.len fs) (write_fields fs ++ rest)
  unfolding find_msgpack_value
  find_last fs rest e = rw (header fs rest e)

  find_step :
      (next : Str) (path : List Str) (fs : Fields) (rest : Bytes)
      → Object.len fs < 2 ^ 32
      → find_msgpack_value skip (segment ∷ (next ∷ path)) (write_value (object fs) ++ rest) ≡ (
          scan_map skip segment (Object.len fs) (write_fields fs ++ rest)
          >>= find_msgpack_value skip (next ∷ path))
  unfolding find_msgpack_value
  find_step next path fs rest e = rw (header fs rest e)

get-object :
    (segment : Str) (path : List Str) (fs : Fields)
    → get_nested_value (object fs) (segment ∷ path)
      ≡ (Object.get fs segment >>= λ v. get_nested_value v path)
unfolding get_nested_value Object.lookup
get-object segment path fs = refl

module _ (skip : Bytes → Option Bytes) (skips : Skips skip) where
  scalar-Points :
      (segment : Str) (path : List Str) (v : Value) (rest : Bytes)
      → IsNoObject v
      → Points
          (find_msgpack_value skip (segment ∷ path) (write_value v ++ rest))
          (get_nested_value v (segment ∷ path))
  scalar-Points segment path v rest h =
      Points-cong _ none _ none (find-scalar skip segment path v rest h)
        (get-scalar segment path v h) tt

  -- In the bytes of a value that MsgPack can hold, with anything behind them, the walk along a path of
  -- names that are not those of system fields ends at the bytes of the value that the path leads to in
  -- the value, and nowhere if it leads to none, where the skipper passes over exactly one encoded value.
  pub find_msgpack_value-get_nested_value :
      (segment : Str) (path : List Str)
      → IsSegment segment
      → All IsSegment path
      → (v : Value) (rest : Bytes) → IsEncodable v
      → Points
          (find_msgpack_value skip (segment ∷ path) (write_value v ++ rest))
          (get_nested_value v (segment ∷ path))
  unfolding get_nested_value
  find_msgpack_value-get_nested_value segment [] s ss (object fs) rest e =
      Points-cong _ _ _ _ (find_last skip segment fs rest e.0) (get-object segment [] fs)
        (Points-some _ _ (scan_map-write_fields skip skips segment s fs rest e.1))
  find_msgpack_value-get_nested_value segment (next ∷ path) s ss (object fs) rest e =
      Points-cong _ _ _ _ (find_step skip segment next path fs rest e.0)
        (get-object segment (next ∷ path) fs)
        (Points-chain _ _ (find_msgpack_value skip (next ∷ path))
          (λ v. get_nested_value v (next ∷ path))
          (scan_map-write_fields skip skips segment s fs rest e.1)
          (λ v rest' h.
            find_msgpack_value-get_nested_value next path ss.0 ss.1 v rest'
              (get-IsEncodable fs segment v e.1 h)))
  find_msgpack_value-get_nested_value segment path s ss null rest e =
      scalar-Points segment path null rest tt
  find_msgpack_value-get_nested_value segment path s ss (bool b) rest e =
      scalar-Points segment path (bool b) rest tt
  find_msgpack_value-get_nested_value segment path s ss (number n) rest e =
      scalar-Points segment path (number n) rest tt
  find_msgpack_value-get_nested_value segment path s ss (string t) rest e =
      scalar-Points segment path (string t) rest tt
  find_msgpack_value-get_nested_value segment path s ss (array xs) rest e =
      scalar-Points segment path (array xs) rest tt
