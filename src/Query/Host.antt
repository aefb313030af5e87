-- ===== src/Query/Host.antt =====
-- What queries use of the machine and of Unicode. Doubles are their bit patterns.
use molten_db.Prelude.{ℕ, Bool, true, false, ◌&&◌, Option, none, some, Str, str_beq, nat_beq}
use molten_db.Json.{
  Number, pos_int, neg_int, float, Value, Items, Fields, null, bool, number, string, array, object,
  nil, cons, end, field,
}

pub record Host : Type 0 where
  -- `str::to_lowercase`
  pub lowercase : Str → Str
  -- `u as f64`, and `i as f64` of -(n + 1)
  pub of_u64 : ℕ → ℕ
  pub of_negative : ℕ → ℕ
  -- `f as u64`
  pub to_u64 : ℕ → ℕ
  -- `<`, `<=`, `==`, and `(a - b).abs() < f64::EPSILON`
  pub less : ℕ → ℕ → Bool
  pub at_most : ℕ → ℕ → Bool
  pub equal : ℕ → ℕ → Bool
  pub near : ℕ → ℕ → Bool
  -- `(a - b).abs() >= f64::EPSILON`
  pub apart : ℕ → ℕ → Bool

module _ (h : Host) where
  -- `Number::as_f64`
  unfoldable pub to_f64 : Number → ℕ
  to_f64 (pos_int u) = h.of_u64 u
  to_f64 (neg_int n) = h.of_negative n
  to_f64 (float bits) = bits

  -- `Value::as_f64`
  unfoldable pub as_f64 : Value → Option ℕ
  unfolding to_f64
  as_f64 (number n) = some (to_f64 n)
  as_f64 _ = none

  -- `PartialEq` of `Number` and of `Value`
  unfoldable pub number_beq : Number → Number → Bool
  number_beq (pos_int u) (pos_int v) = nat_beq u v
  number_beq (neg_int n) (neg_int m) = nat_beq n m
  number_beq (float a) (float b) = h.equal a b
  number_beq _ _ = false

  unfoldable mutual
    pub value_beq : Value → Value → Bool
    value_beq null null = true
    value_beq (bool true) (bool b) = b
    value_beq (bool false) (bool true) = false
    value_beq (bool false) (bool false) = true
    value_beq (number n) (number m) = number_beq n m
    value_beq (string s) (string t) = str_beq s t
    value_beq (array xs) (array ys) = items_beq xs ys
    value_beq (object fs) (object gs) = fields_beq fs gs
    value_beq _ _ = false

    pub items_beq : Items → Items → Bool
    items_beq nil nil = true
    items_beq (cons x xs) (cons y ys) = value_beq x y && items_beq xs ys
    items_beq _ _ = false

    pub fields_beq : Fields → Fields → Bool
    fields_beq end end = true
    fields_beq (field k v fs) (field j w gs) = str_beq k j && value_beq v w && fields_beq fs gs
    fields_beq _ _ = false

  -- The comparison of `$eq`, `$in` and implicit equality: of two strings, without regard to case.
  unfoldable pub matches : Value → Value → Bool
  unfolding value_beq
  matches (string a) (string b) = str_beq (h.lowercase a) (h.lowercase b)
  matches a b = value_beq a b
