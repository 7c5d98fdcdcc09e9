-- ===== src/Affinity.antt =====
-- internal/router/affinity.go: the pins of prompt prefixes and session keys.
pub mod Defs
pub mod Pins
