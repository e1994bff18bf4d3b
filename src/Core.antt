-- ===== src/Core.antt =====
-- src/core/: the data model, and the pure functions on it.
pub mod Cloud
pub mod Error
pub mod Model
pub mod Link
pub mod Merge
pub mod Rank
pub mod Filter
