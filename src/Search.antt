-- ===== src/Search.antt =====
-- src/search/: the search engine.
pub mod Query
pub mod Emit
pub mod Options
pub mod Loop
pub mod Conclude
