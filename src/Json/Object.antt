-- ===== src/Json/Object.antt =====
-- `serde_json::Value`. An object is a `serde_json::Map`, which (without the feature
-- `preserve_order`) is a `BTreeMap`: the list of its entries in the order of their keys.
use molten_db.Prelude.{
  ℕ, suc, ◌≡◌, refl, Bool, Option, none, some, arith, Str, str_beq, str_beq_iff, str_ltb,
  if◌then◌else◌,
}
use molten_db.Json.Numeric
use molten_db.Json.Numeric.{Number}

mutual
  pub data Value : Type 0 where
    null : Value
    bool : Bool → Value
    number : Number → Value
    string : Str → Value
    array : Items → Value
    object : Fields → Value

  pub data Fields : Type 0 where
    end : Fields
    field : Str → Value → Fields → Fields

  pub data Items : Type 0 where
    nil : Items
    cons : Value → Items → Items

-- `Map::insert`
unfoldable pub insert : Str → Value → Fields → Fields
insert k v end = field k v end
insert k v (field j w fs) =
    if str_beq j k
    then field j v fs
    else if str_ltb k j
    then field k v (field j w fs)
    else field j w (insert k v fs)

-- `Map::get`
unfoldable pub get : Fields → Str → Option Value
get end k = none
get (field j w fs) k = if str_beq j k then some w else get fs k

-- `Map::len`
unfoldable pub len : Fields → ℕ
len end = 0
len (field j w fs) = suc (len fs)

-- `Vec::len` of an array
unfoldable pub count : Items → ℕ
count nil = 0
count (cons x xs) = suc (count xs)

-- `Value::get`: no value but an object has a key.
unfoldable pub lookup : Value → Str → Option Value
unfolding get
lookup (object fs) k = get fs k
lookup _ k = none

-- `Value::as_u64`
unfoldable pub as_u64 : Value → Option ℕ
as_u64 (number n) = Numeric.as_u64 n
as_u64 _ = none

-- `Value::as_str`
unfoldable pub as_str : Value → Option Str
as_str (string s) = some s
as_str _ = none

pub get-insert :
    (k j : Str) (v : Value) (fs : Fields)
    → get (insert k v fs) j ≡ (if str_beq k j then some v else get fs j)
unfolding get insert
get-insert k j v end = refl
get-insert k j v (field i w fs) =
    ground (arith, str_beq_iff i k, str_beq_iff i j, str_beq_iff k j, get-insert k j v fs)
