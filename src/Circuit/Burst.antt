-- ===== src/Circuit/Burst.antt =====
-- internal/router/circuit.go: a run of failures with no success in between, in consecutive mode.
use token_route.Base.{ℕ, ◌+◌, ◌≤◌, ◌<◌, ◌≡◌, true, none, List, [], ◌∷◌, arith, if◌then◌else◌, ltb}
use token_route.Base.Time.{Instant}
use token_route.Base.Float.{Float64}
use token_route.Failure.{FailureKind, auth, permission}
use token_route.Circuit.Defs.{
  State, closed, degraded, open_state, disabled, CircuitBreaker, consecutive, degradation_threshold,
  open_circuit,
}
use token_route.Circuit.Ops.{on_failure_kind, on_consecutive_failure}
use token_route.Circuit.Invariant.{IsValid, degradation_bounds}

-- The state at the count `n`.
unfoldable pub state_after : (threshold auto_disable n : ℕ) → State
state_after threshold auto_disable n =
    if ltb n threshold
    then (if ltb n (degradation_threshold threshold) then closed else degraded)
    else (if ltb (n + 1) (threshold + auto_disable) then open_state else disabled)

-- One failure counts 1; a failure of auth or permission counts what is missing to the threshold, and
-- at least 1.
abbrev pub counted_kind : (threshold n : ℕ) → FailureKind → ℕ
counted_kind threshold n auth = if ltb (n + 1) threshold then threshold else n + 1
counted_kind threshold n permission = if ltb (n + 1) threshold then threshold else n + 1
counted_kind threshold n _ = n + 1

-- The count after failures of some kinds, from the count `n` on.
unfoldable pub count_kinds : (threshold n : ℕ) → List (Instant × FailureKind) → ℕ
count_kinds threshold n [] = n
count_kinds threshold n ((now, kind) ∷ later) =
    count_kinds threshold (counted_kind threshold n kind) later

module _ (fl : Float64) where
  open fl use {F}

  unfoldable pub run_failures : List (Instant × FailureKind) → CircuitBreaker F → CircuitBreaker F
  run_failures [] c = c
  run_failures ((now, kind) ∷ later) c = run_failures later (on_failure_kind fl now kind true c)

  -- What a run with the count `n` leaves behind.
  record Suffered (threshold auto_disable n : ℕ) (c : CircuitBreaker F) : Type 0 where
    plain : c.policy ≡ none
    mode : c.mode ≡ consecutive
    same_threshold : c.threshold ≡ threshold
    same_auto_disable : c.auto_disable ≡ auto_disable
    state : c.state ≡ state_after threshold auto_disable n
    counted : n < threshold → (c.failures ≡ n) × (c.trips ≡ 0)
    tripped :
        threshold ≤ n
        → n + 1 < threshold + auto_disable
        → (threshold ≤ c.failures) × (c.trips + threshold ≡ n + 1)

  module _ (threshold auto_disable : ℕ) (tp : 0 < threshold) (ap : 0 < auto_disable) where
    Suffered-on_failure_kind :
        (n : ℕ) (now : Instant) (kind : FailureKind) (c : CircuitBreaker F)
        → Suffered threshold auto_disable n c
        → Suffered threshold auto_disable
            (counted_kind threshold n kind)
            (on_failure_kind fl now kind true c)
    unfolding on_failure_kind on_consecutive_failure state_after open_circuit
    Suffered-on_failure_kind n now auth c s = ground (arith, degradation_bounds threshold)
    Suffered-on_failure_kind n now permission c s = ground (arith, degradation_bounds threshold)
    Suffered-on_failure_kind n now _ c s = ground (arith, degradation_bounds threshold)

    Suffered-run :
        (run : List (Instant × FailureKind)) (n : ℕ) (c : CircuitBreaker F)
        → Suffered threshold auto_disable n c
        → Suffered threshold auto_disable (count_kinds threshold n run) (run_failures run c)
    unfolding run_failures count_kinds
    Suffered-run [] n c s = s
    Suffered-run ((now, kind) ∷ later) n c s =
        Suffered-run later (counted_kind threshold n kind) (on_failure_kind fl now kind true c)
          (Suffered-on_failure_kind n now kind c s)

  -- Take a valid breaker in consecutive mode, without a policy by kind, that is closed, with no
  -- failure counted and no trip. Failures in a row that speak against the provider, of any kinds, at
  -- any instants and with no success between them, lead to a state that their count fixes: closed
  -- below the warning band, degraded below the threshold, open from the threshold on, and disabled
  -- from threshold + auto_disable - 1 on. A failure counts 1, but one of auth or permission at least
  -- what is missing to the threshold.
  pub run_failures-state :
      (run : List (Instant × FailureKind)) (c : CircuitBreaker F)
      → IsValid c
      → c.policy ≡ none
      → c.mode ≡ consecutive
      → c.state ≡ closed
      → c.failures ≡ 0
      → c.trips ≡ 0
      → (run_failures run c).state
        ≡ state_after c.threshold c.auto_disable (count_kinds c.threshold 0 run)
  unfolding state_after
  run_failures-state run c v p m s f t =
      let start : Suffered c.threshold c.auto_disable 0 c =
        ground (arith, degradation_bounds c.threshold) in
      (Suffered-run c.threshold c.auto_disable v.threshold_pos v.auto_disable_pos run 0 c
        start).state
