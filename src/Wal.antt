-- ===== src/Wal.antt =====
-- The write-ahead log: its entries, their encoding, and the replay of a log into memory.
pub mod Command
pub mod Entry
pub mod Encoding
pub mod Replay
pub mod Recover
