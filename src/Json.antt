-- ===== src/Json.antt =====
-- `serde_json::Value` and the operations on it that the engine uses.
pub mod Numeric
pub mod Object
pub use Numeric.{Number, pos_int, neg_int, float}
pub use Object.{
  Value, Items, Fields, null, bool, number, string, array, object, nil, cons, end, field,
}
