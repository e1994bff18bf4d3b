-- ===== src/Http.antt =====
-- src/http/: the HTTP layer.
pub mod Retry
pub mod Body
pub mod Stream
