-- ===== src/FailureRules.antt =====
-- internal/router/failurerules.go: cooldown rules in order, and the backoff level of each provider.
pub mod Defs
pub mod Backoff
pub mod Config
