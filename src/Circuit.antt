-- ===== src/Circuit.antt =====
-- internal/router/circuit.go: the circuit breaker of one provider. A method that mutates
-- `*CircuitBreaker` returns the new record; the clock `c.now()` is the argument `now`.
pub mod Defs
pub mod Ops
pub mod Invariant
pub mod Probe
pub mod Cooldown
pub mod Burst
pub mod Manual
