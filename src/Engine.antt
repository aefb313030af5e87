-- ===== src/Engine.antt =====
-- moltendb-core/src/engine: the database, its operations, and what they write to the log.
pub mod Types
pub mod Op
pub mod SeqIndex
pub mod State
pub mod Documents
pub mod Schema
pub mod Set
pub mod Update
pub mod Delete
pub mod Api
pub mod Opening
pub mod Durability
pub mod Behaviour
