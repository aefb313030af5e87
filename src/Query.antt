-- ===== src/Query.antt =====
-- moltendb-core/src/query.rs and common/where_operators.rs: filters and projections of documents,
-- decoded or as bytes.
pub mod Host
pub mod Nested
pub mod Operator
pub mod Where
pub mod Bytes
pub mod Predicate
