-- ===== src/Scan/Order.antt =====
-- Items are in a total order.
use molten_db.Prelude.{
  ◌≡◌, arith, ℕ, true, false, str_beq, str_beq→eq, str_ltb_irrefl, str_ltb_trans, str_ltb_total,
  ap₂,
}
use molten_db.Scan.{place, SortItem, item_lt}

place_inj : (a b : ℕ) → place a ≡ place b → a ≡ b
unfolding place
place_inj a b h = ground (arith, h)

pub item_lt_trans :
    (x y z : SortItem) → item_lt x y ≡ true → item_lt y z ≡ true → item_lt x z ≡ true
unfolding item_lt
item_lt_trans x y z h k = ground (arith, h, k, str_ltb_trans x.key y.key z.key)

pub item_lt_asym : (x y : SortItem) → item_lt x y ≡ true → item_lt y x ≡ false
unfolding item_lt
item_lt_asym x y h = ground (arith, h, str_ltb_trans x.key y.key x.key, str_ltb_irrefl x.key)

pub item_lt_total : (x y : SortItem) → item_lt x y ≡ false → item_lt y x ≡ false → x ≡ y
unfolding item_lt
item_lt_total x y h k =
    let value : x.sort_value ≡ y.sort_value =
      place_inj x.sort_value y.sort_value (ground (arith, h, k)) in
    let key : str_beq x.key y.key ≡ true = ground (arith, h, k, str_ltb_total x.key y.key, value) in
    ap₂ (λ a b. record { key = a; sort_value = b }) (str_beq→eq x.key y.key key) value
