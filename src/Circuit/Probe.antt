-- ===== src/Circuit/Probe.antt =====
-- internal/router/circuit.go: the single probe of a half-open breaker.
use token_route.Base.{ℕ, ◌+◌, ◌≤◌, ◌≡◌, false, List, [], ◌∷◌, arith, refl, if◌then◌else◌}
use token_route.Base.Time.{Instant}
use token_route.Base.Float.{Float64}
use token_route.Failure.{FailureKind}
use token_route.Circuit.Defs.{open_state, half_open, CircuitBreaker}
use token_route.Circuit.Ops.{allow, on_failure_kind}

-- A request that asks for the provider, or an attempt that ended without counting against it.
pub data Call : Type 0 where
  ask : Instant → Call
  aborted : Instant → FailureKind → Call

module _ (fl : Float64) where
  open fl use {F}

  -- The breaker after the calls, and how many requests it let through.
  unfoldable pub run_calls : List Call → CircuitBreaker F → CircuitBreaker F × ℕ
  run_calls [] c = (c, 0)
  run_calls (ask now ∷ calls) c =
      let (d, granted) = allow now c in
      let (e, n) = run_calls calls d in (e, if granted then n + 1 else n)
  run_calls (aborted now kind ∷ calls) c = run_calls calls (on_failure_kind fl now kind false c)

  half_open_waits :
      (calls : List Call) (c : CircuitBreaker F) → c.state ≡ half_open → run_calls calls c ≡ (c, 0)
  unfolding run_calls allow on_failure_kind
  half_open_waits [] c h = refl
  half_open_waits (ask now ∷ calls) c h = ground (arith, half_open_waits calls c h)
  half_open_waits (aborted now kind ∷ calls) c h = half_open_waits calls c h

  -- Between two counted results an open breaker lets at most one request through: the probe.
  pub single_probe :
      (calls : List Call) (c : CircuitBreaker F) → c.state ≡ open_state → (run_calls calls c).1 ≤ 1
  unfolding run_calls allow on_failure_kind
  single_probe [] c h = omega arith
  single_probe (ask now ∷ calls) c h =
      ground
        (arith, single_probe calls c h, half_open_waits calls (record c { state = half_open }) refl)
  single_probe (aborted now kind ∷ calls) c h = single_probe calls c h
