-- ===== src/Engine/Durability.antt =====
-- What a restart finds after the operations of `Engine`.
pub mod Documents
pub mod Entries
pub mod Transaction
pub mod Steps
pub mod Operations
pub mod Reread
pub mod Restart
pub mod Runs
