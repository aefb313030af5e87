-- ===== src/Tests/Scan.antt =====
-- Two tasks over a collection that two threads share.
use mathlib.Core.List.Permᴰ
use molten_db.Prelude.{◌≡◌, refl, ℕ, ◌+◌, ◌^◌, true, List, [], ◌∷◌, Str, codes, map}
use molten_db.Json.{Value, pos_int, number, object, field, end}
use molten_db.Codec.Write.{value_to_msgpack}
use molten_db.Scan.{SortItem, Task, filtered, sorted, Division, part, join, shared_pass, push_all}
use molten_db.Scan.Alone.{found}
use molten_db.Scan.Pass.{entries, shared_pass-found}
use molten_db.Tests.Codec.{skip_one}
use molten_db.Tests.Query.{host}

abbrev numbered : ℕ → Value
numbered n = object (field (codes "n") (number (pos_int n)) end)

abbrev tasks : List Task
tasks =
    record { predicate = λ key bytes. true; kind = filtered }
    ∷ record { predicate = λ key bytes. true; kind = sorted (codes "n" ∷ []) true 1 }
    ∷ []

abbrev halves : Division
halves =
    join (part ((codes "a", value_to_msgpack (numbered 3)) ∷ []))
      (part ((codes "b", value_to_msgpack (numbered 8)) ∷ []))

shared_pass-found_example :
    shared_pass (λ items. items) skip_one host tasks halves
    ≡ map (found skip_one host (entries halves)) tasks
shared_pass-found_example =
    shared_pass-found skip_one host (λ items. items) (λ items. Permᴰ.refl items) tasks halves

abbrev item : Str → ℕ → SortItem
item key bits = record { key = key; sort_value = bits }

-- Of three numbers two are kept, the negative one first.
two_kept :
    push_all 2 [] (item (codes "a") 7 ∷ item (codes "b") (2 ^ 63 + 5) ∷ item (codes "c") 6 ∷ [])
    ≡ item (codes "b") (2 ^ 63 + 5) ∷ item (codes "c") 6 ∷ []
unfolding push_all
two_kept = refl
