-- ===== src/Check.antt =====
-- src/check/: checking whether shared links are alive.
pub mod Normalize
pub mod Cache
pub mod Item
pub mod Engine
