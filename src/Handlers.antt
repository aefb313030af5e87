-- ===== src/Handlers.antt =====
-- The handlers of reads: moltendb-core/src/handlers/get, and `handle_get` of the server in front of them.
pub mod Filter
pub mod Fetch
pub mod Route
pub mod Fetched
pub mod Requests
pub mod Scoped
pub mod Leak
