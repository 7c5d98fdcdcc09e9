-- ===== src/Quota.antt =====
-- internal/router/quota.go: the token budgets of providers and models.
pub mod Defs
pub mod Readings
pub mod Windows
