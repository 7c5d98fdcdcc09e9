-- ===== src/Tests/Breakers.antt =====
-- Circuit breakers at concrete inputs.
use token_route.Base.{◌*◌, ◌≡◌, ◌≤◌, refl, true, none, some, List, [], ◌∷◌}
use token_route.Base.Int.{ℤ, pos}
use token_route.Base.Time.{Instant, second}
use token_route.Base.Text.{codes}
use token_route.Failure.{FailureKind, unknown, auth, timeout, rate_limit, network}
use token_route.Circuit.Defs.{
  CircuitConfig, CircuitBreaker, closed, open_state, disabled, consecutive, new,
  degradation_threshold,
}
use token_route.Circuit.Ops.{allow, on_failure_kind}
use token_route.Circuit.Invariant.{
  IsValid, new-IsValid, here, next, call_allow, call_failure, Reach-IsValid,
}
use token_route.Circuit.Probe.{ask, aborted, run_calls, single_probe}
use token_route.Circuit.Burst.{run_failures, count_kinds, state_after, run_failures-state}
use token_route.Tests.Floats.{whole}

abbrev config : CircuitConfig ℤ
config = record {
  failure_threshold = pos 5;
  cooldown_ms = pos 1000;
  auto_disable_after = pos 3;
  mode = codes "consecutive";
  failure_percent = pos 0;
  min_requests = pos 0;
  allowed_fails = (rate_limit, pos 2) ∷ [];
}

abbrev plain_config : CircuitConfig ℤ
plain_config = record config { allowed_fails = [] }

-- The breaker of a provider without a policy, at rest.
abbrev pub rested : CircuitBreaker ℤ
rested = record {
  threshold = 5;
  cooldown = pos second;
  auto_disable = 3;
  custom_cooldown = pos 0;
  failures = 0;
  state = closed;
  opened_at = 0;
  trips = 0;
  open_cycles = 0;
  last_kind = unknown;
  mode = consecutive;
  failure_percent = pos 0;
  min_requests = 5;
  win_start = 0;
  win_total = 0;
  win_failures = 0;
  policy = none;
}

abbrev pub opened : CircuitBreaker ℤ
opened = record rested { state = open_state; trips = 1; opened_at = 7 * second }

-- Two time-outs, a key that is refused, and more.
abbrev failed : List (Instant × FailureKind)
failed = (10, timeout) ∷ (20, timeout) ∷ (30, auth) ∷ (40, network) ∷ (50, network) ∷ []

run_failures-state_example :
    (run_failures whole failed (new whole plain_config)).state
    ≡ state_after 5 3 (count_kinds 5 0 failed)
unfolding new
run_failures-state_example =
    run_failures-state whole failed (new whole plain_config) (new-IsValid whole plain_config) refl
      refl refl refl refl

burst_disables : state_after 5 3 (count_kinds 5 0 failed) ≡ disabled
unfolding state_after degradation_threshold count_kinds
burst_disables = refl

Reach-IsValid_example :
    IsValid (on_failure_kind whole 9 timeout true (allow 8 (new whole config)).0)
Reach-IsValid_example =
    Reach-IsValid whole config
      (next (next here (call_allow 8 refl)) (call_failure 9 timeout true refl))

single_probe_example :
    (run_calls whole
      (ask (9 * second) ∷ aborted (9 * second) network ∷ ask (10 * second) ∷ [])
      opened).1
    ≤ 1
single_probe_example =
    single_probe whole (ask (9 * second) ∷ aborted (9 * second) network ∷ ask (10 * second) ∷ [])
      opened refl

abbrev used_up : CircuitBreaker ℤ
used_up = record rested {
  policy = some (record { allowed = (rate_limit, pos 2) ∷ []; counts = (rate_limit, 3) ∷ [] });
}
