-- ===== src/Providers.antt =====
-- src/providers/mod.rs: what the search engine asks of a provider, and what a provider delivers to.
pub mod Context
pub mod Collect
