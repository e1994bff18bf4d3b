-- ===== src/Core/Link.antt =====
-- src/core/link.rs: what kind of drive a link belongs to, the forms of a URL, and the links in a text.
pub mod Detect
pub mod Normalize
pub mod Patterns
pub mod Passwords
pub mod Titles
pub mod Extract
