-- ===== src/Wal/Entry.antt =====
-- `LogEntry` of moltendb-core/src/engine/types.rs.
use molten_db.Prelude.{ℕ, Str}
use molten_db.Json.{Value}

pub record LogEntry : Type 0 where
  pub cmd : Str
  pub collection : Str
  pub key : Str
  pub value : Value
  -- `_t`, in Unix milliseconds
  pub time : ℕ
