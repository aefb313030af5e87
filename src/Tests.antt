-- ===== src/Tests.antt =====
-- Concrete runs, and the theorems at them.
mod Auth
mod Codec
mod Wal
mod Engine
mod Durability
mod RateLimit
mod Query
mod Scan
mod Reads
mod Validation
mod Clock
mod Storage
mod Cipher
mod Writer
mod Sweep
mod Snapshot
