-- ===== src/Codec.antt =====
-- moltendb-core/src/common/system_field_tokens.rs
pub mod BigEndian
pub mod Utf8
pub mod Marker
pub mod SystemFields
pub mod Write
pub mod Read
pub mod Canon
pub mod RoundTrip
pub mod Stored
pub mod Token
