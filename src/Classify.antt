-- ===== src/Classify.antt =====
-- internal/router/failure.go: the classification of an upstream failure.
pub mod Regex
pub mod Defs
pub mod Laws
