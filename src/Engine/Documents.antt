-- ===== src/Engine/Documents.antt =====
-- What the operations read in documents.
use molten_db.Prelude.{ℕ, Option, Bytes, Str, str_eq, ◌>>=◌}
use molten_db.Prelude.Map.{Map}
use molten_db.Json.{Value, number, pos_int}
use molten_db.Json.Object
use molten_db.Codec.Read.{msgpack_to_value}
use molten_db.Engine.State.{document}

-- `json!(n)` of a u64
abbrev pub u64 : ℕ → Value
u64 n = number (pos_int n)

-- `v.get(key).and_then(|v| v.as_u64())`
abbrev pub get_u64 : Value → Str → Option ℕ
get_u64 v key = Object.lookup v key >>= Object.as_u64

-- The document under a key, if there is one and it can be decoded.
unfoldable pub decoded : Map Str (Map Str Bytes) → Str → Str → Option Value
unfolding document
decoded state c k = document state c k >>= msgpack_to_value
