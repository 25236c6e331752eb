-- ===== src/Security.antt =====
-- The addresses that a source may be fetched from.
pub mod Addresses
pub mod Urls
pub mod Fetch
