-- ===== src/RetryPolicy.antt =====
-- internal/router/retrypolicy.go: the configured statuses and keywords that decide on failover.
pub mod Defs
pub mod Ranges
pub mod Keywords
