-- ===== src/Shorten.antt =====
-- The package shorten: the link shortener and its cache.
pub mod Lru
pub mod T
