-- ===== src/Pricing.antt =====
-- internal/pricing: prices from a public catalog, and prices given as expressions.
pub mod Sync
pub mod Additive
pub mod Expr
pub mod Compiled
pub mod Tokens
