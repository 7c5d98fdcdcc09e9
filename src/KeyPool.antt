-- ===== src/KeyPool.antt =====
-- internal/provider/keypool.go: the pool of a provider's API keys.
pub mod Defs
pub mod Fair
