-- ===== src/Engine/Behaviour.antt =====
-- What the operations of `Engine` do to the documents and to their system fields.
pub mod Stamping
pub mod Deletion
pub mod Guard
