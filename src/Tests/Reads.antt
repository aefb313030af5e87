-- ===== src/Tests/Reads.antt =====
-- The newest document of two.
use molten_db.Prelude.{
  ◌≡◌, refl, arith, ℕ, true, false, [], ◌∷◌, Bytes, Str, codes, some, take, drop, str_beq, str_eq,
}
use molten_db.Prelude.Map
use molten_db.Prelude.Map.{Map}
use molten_db.Json.{Value, pos_int, number, object, field, end}
use molten_db.Codec.Write.{value_to_msgpack}
use molten_db.Engine.SeqIndex.{SeqIndex}
use molten_db.Reads.{Params, get_filtered, reverse}
use molten_db.Reads.Page.{hits, get_filtered-hits}
use molten_db.Tests.Codec.{skip_one}

abbrev numbered : ℕ → Value
numbered n = object (field (codes "-3") (number (pos_int n)) end)

abbrev col : Map Str Bytes
col = (codes "k", value_to_msgpack (numbered 7)) ∷ (codes "j", value_to_msgpack (numbered 9)) ∷ []

abbrev idx : SeqIndex
idx = (7, codes "k") ∷ (9, codes "j") ∷ []

abbrev newest : Params
newest = record {
  predicate = λ key bytes. true;
  offset = 0;
  count = 1;
  default_order_asc = false;
  has_where = false;
}

there : Map.get ((codes "c", col) ∷ []) (codes "c") ≡ some col
unfolding Map.get str_beq
there = refl

indexed : Map.get ((codes "c", idx) ∷ []) (codes "c") ≡ some idx
unfolding Map.get str_beq
indexed = refl

get_filtered-hits_example :
    get_filtered skip_one newest ((codes "c", col) ∷ []) ((codes "c", idx) ∷ []) (codes "c")
    ≡ take 1 (drop 0 (hits (λ key bytes. true) col (reverse idx)))
get_filtered-hits_example =
    get_filtered-hits skip_one newest col idx (omega arith) ((codes "c", col) ∷ [])
      ((codes "c", idx) ∷ []) (codes "c") there indexed refl
