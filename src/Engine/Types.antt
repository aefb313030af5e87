-- ===== src/Engine/Types.antt =====
-- `DbError` of moltendb-core/src/engine/types.rs, and the events that subscribers receive.
use molten_db.Prelude.{ℕ, Option, Str}
use molten_db.Json.{Value}

-- Messages of library errors are left out.
pub data DbError : Type 0 where
  io serialization lock_poisoned write_error collection_not_found conflict : DbError
  invalid_query type_mismatch storage_fault schema_validation_error : Str → DbError

pub data Result {ℓ} (A : Type ℓ) : Type ℓ where
  ok : A → Result A
  err : DbError → Result A

pub data Event : Type 0 where
  -- collection, key, `new_v`, `expires_at_ms`
  change : Str → Str → Option ℕ → Option ℕ → Event
  schema_set : Str → Value → Event
  ttl_expiry : Str → ℕ → Event
