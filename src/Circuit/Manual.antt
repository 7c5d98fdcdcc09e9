-- ===== src/Circuit/Manual.antt =====
-- internal/router/circuit.go: the administrator's switches, against what the breaker remembers.
use token_route.Base.{ℕ, ◌≡◌, true, false, some, arith, leb}
use token_route.Base.Int.{pos}
use token_route.Base.Time.{Instant}
use token_route.Base.Dict.{lookup}
use token_route.Base.Float.{Float64}
use token_route.Failure.{FailureKind, kind_key}
use token_route.Circuit.Defs.{closed, disabled, CircuitBreaker, Policy, open_circuit, record_window}
use token_route.Circuit.Ops.{
  allow, enable, on_success, on_failure_kind, on_policy_failure, count_of,
}

module _ (fl : Float64) where
  open fl use {F}

  -- A disabled breaker ignores every failure and refuses every request. A success closes it all the
  -- same, with its trips kept, and requests pass again; `Enable` closes it with the trips cleared.
  pub disabled_until_success :
      (now later : Instant) (kind : FailureKind) (c : CircuitBreaker F)
      → c.state ≡ disabled
      → (on_failure_kind fl now kind true c ≡ c)
        × (allow now c ≡ (c, false))
        × ((on_success fl now c).state ≡ closed)
        × ((on_success fl now c).trips ≡ c.trips)
        × ((allow later (on_success fl now c)).1 ≡ true)
        × ((enable c).trips ≡ 0)
        × ((allow later (enable c)).1 ≡ true)
  unfolding on_failure_kind allow on_success enable record_window
  disabled_until_success now later kind c h = ground arith

  -- `Enable` keeps the counts of the failure kinds. A kind that had used up its allowance before
  -- opens the breaker again at its first failure after `Enable`, or disables it where a single trip
  -- is enough for that.
  pub enable-on_failure_kind :
      (now : Instant) (kind : FailureKind) (p : Policy) (limit : ℕ) (c : CircuitBreaker F)
      → c.policy ≡ some p
      → lookup kind p.allowed ≡ some (pos limit)
      → leb limit (count_of kind p.counts) ≡ true
      → (on_failure_kind fl now kind true (enable c)).state ≡ (open_circuit now (enable c)).state
  unfolding on_failure_kind enable on_policy_failure open_circuit
  enable-on_failure_kind now kind p limit c h l m = ground arith
