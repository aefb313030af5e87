-- ===== src/Codec/Utf8.antt =====
-- `std::str::from_utf8`: which byte strings are UTF-8.
use molten_db.Prelude.{
  ℕ, zero, suc, Bool, true, false, [], ◌∷◌, ◌&&◌, Bytes, ltb, leb, nat_beq, if◌then◌else◌,
}

-- What a lead byte asks of the bytes after it: how many there are, and the range of the first.
pub record Lead : Type 0 where
  pub more : ℕ
  pub low : ℕ
  pub high : ℕ
  pub legal : Bool

lead : ℕ → Lead
lead b =
    let tail : ℕ → ℕ → ℕ → Lead =
      λ n lo hi. record { more = n; low = lo; high = hi; legal = true } in
    if ltb b 0x80
    then tail 0 0x80 0xbf
    else if ltb b 0xc2
    then record { more = 0; low = 0x80; high = 0xbf; legal = false }
    else if ltb b 0xe0
    then tail 1 0x80 0xbf
    else if ltb b 0xf0
    then tail 2 (if nat_beq b 0xe0 then 0xa0 else 0x80) (if nat_beq b 0xed then 0x9f else 0xbf)
    else if ltb b 0xf5
    then tail 3 (if nat_beq b 0xf0 then 0x90 else 0x80) (if nat_beq b 0xf4 then 0x8f else 0xbf)
    else record { more = 0; low = 0x80; high = 0xbf; legal = false }

-- The state is the number of continuation bytes owed, and the range of the next.
utf8_from : ℕ → ℕ → ℕ → Bytes → Bool
utf8_from owed lo hi [] = nat_beq owed 0
utf8_from zero lo hi (b ∷ bs) =
    (lead b).legal && utf8_from (lead b).more (lead b).low (lead b).high bs
utf8_from (suc owed) lo hi (b ∷ bs) = leb lo b && leb b hi && utf8_from owed 0x80 0xbf bs

unfoldable pub is_utf8 : Bytes → Bool
unfolding lead utf8_from
is_utf8 bs = utf8_from 0 0x80 0xbf bs
