-- ===== src/Encoding.antt =====
-- How values travel in headers: base64 text, metadata, timeouts and method names.
pub mod Base64
pub mod Metadata
pub mod Int
pub mod Decimal
pub mod Timeout
pub mod Method
