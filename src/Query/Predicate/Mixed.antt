-- ===== src/Query/Predicate/Mixed.antt =====
-- `$ct` against the bytes of a list that does not hold strings only.
use molten_db.Prelude.{Bytes}
use molten_db.Json.Object
use molten_db.Query.Host.{Host}
