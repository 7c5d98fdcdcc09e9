-- ===== src/Usage.antt =====
-- internal/usage: the tokens that an upstream reports, and what they cost.
pub mod Sse
pub mod Cost
