-- ===== src/Circuit/Invariant.antt =====
-- internal/router/circuit.go: what holds of a breaker between two calls of its methods.
use token_route.Base.{
  ℕ, ◌≤◌, ◌<◌, ◌≡◌, Bool, Option, none, some, false, arith, Bool-cases, inl, inr,
}
use token_route.Base.Int.{ℤ, two63, pos_part, neg_part, wrap64_range, scale}
use token_route.Base.Time.{Instant, Duration, millisecond}
use token_route.Base.Float.{Float64}
use token_route.Failure.{FailureKind}
use token_route.Circuit.Defs.{
  closed, degraded, open_state, half_open, Mode, consecutive, percent, CircuitConfig,
  CircuitBreaker, Policy, positive_or, new, record_window, degradation_threshold, open_circuit,
}
use token_route.Circuit.Ops.{
  allow, disable, enable, on_success, on_failure_kind, open_for, on_policy_failure,
  dispatch_failure, is_disabled, on_percent_failure, on_consecutive_failure,
}

-- A cooldown or a retry hint of an int64 that is positive.
pub record IsPositive (d : Duration) : Type 0 where
  pub over_zero : 0 < pos_part d
  pub in_range : pos_part d < two63

pub record IsValid {F : Type 0} (c : CircuitBreaker F) : Type 0 where
  pub threshold_pos : 0 < c.threshold
  pub auto_disable_pos : 0 < c.auto_disable
  pub cooldown_pos : IsPositive c.cooldown
  pub custom_nonneg : neg_part c.custom_cooldown ≡ 0
  pub custom_range : pos_part c.custom_cooldown < two63
  -- A closed breaker stands below the warning band, a degraded one below the threshold.
  pub closed_below : c.state ≡ closed → c.failures < degradation_threshold c.threshold
  pub degraded_below : c.state ≡ degraded → c.failures < c.threshold
  -- An open or half-open breaker has tripped, and has trips left before it is disabled.
  pub open_trips : c.state ≡ open_state → (0 < c.trips) × (c.trips < c.auto_disable)
  pub half_open_trips : c.state ≡ half_open → (0 < c.trips) × (c.trips < c.auto_disable)
  pub window_counts : c.win_failures ≤ c.win_total

pub degradation_bounds :
    (n : ℕ) → 0 < n → (0 < degradation_threshold n) × (degradation_threshold n ≤ n)
unfolding degradation_threshold
degradation_bounds n h = ground arith

positive_or_pos : (n : ℤ) (d : ℕ) → 0 < d → 0 < positive_or n d
positive_or_pos n d h = ground arith

module _ (fl : Float64) where
  open fl use {F}

  -- Whatever the configuration holds, the constructor gives a valid breaker.
  pub new-IsValid : (cfg : CircuitConfig F) → IsValid (new fl cfg)
  unfolding new
  new-IsValid cfg = ground (
    arith,
    positive_or_pos cfg.failure_threshold 3,
    positive_or_pos cfg.auto_disable_after 3,
    wrap64_range (scale cfg.cooldown_ms millisecond),
    degradation_bounds (positive_or cfg.failure_threshold 3),
  )

module _ {F : Type 0} where
  pub allow-IsValid : (now : Instant) {c : CircuitBreaker F} → IsValid c → IsValid (allow now c).0
  unfolding allow
  allow-IsValid now v = ground arith

  pub disable-IsValid : {c : CircuitBreaker F} → IsValid c → IsValid (disable c)
  unfolding disable
  disable-IsValid v = ground arith

  pub enable-IsValid : {c : CircuitBreaker F} → IsValid c → IsValid (enable c)
  unfolding enable
  enable-IsValid {c} v = ground (arith, degradation_bounds c.threshold)

  pub open_circuit-IsValid :
      (now : Instant) {c : CircuitBreaker F} → IsValid c → IsValid (open_circuit now c)
  unfolding open_circuit
  open_circuit-IsValid now v = ground arith

  pub open_for-IsValid :
      (now : Instant) (d : Duration) {c : CircuitBreaker F}
      → pos_part d < two63
      → IsValid c
      → IsValid (open_for now d c)
  unfolding open_for open_circuit
  open_for-IsValid now d h v = ground arith

  policy-IsValid :
      (now : Instant) (kind : FailureKind) (p : Policy) {c : CircuitBreaker F}
      → IsValid c
      → IsValid (on_policy_failure now kind p c)
  unfolding on_policy_failure open_circuit
  policy-IsValid now kind p {c} v = ground (arith, degradation_bounds c.threshold)

  consecutive-IsValid :
      (now : Instant) (kind : FailureKind) {c : CircuitBreaker F}
      → IsValid c
      → IsValid (on_consecutive_failure now kind c)
  unfolding on_consecutive_failure open_circuit
  consecutive-IsValid now kind {c} v = ground (arith, degradation_bounds c.threshold)

module _ (fl : Float64) where
  open fl use {F}

  window-IsValid :
      (now : Instant) (s : Bool) {c : CircuitBreaker F}
      → IsValid c
      → IsValid (record_window fl now s c).0
  unfolding record_window
  window-IsValid now s v = ground arith

  percent-IsValid :
      (now : Instant) {c : CircuitBreaker F} → IsValid c → IsValid (on_percent_failure fl now c)
  unfolding on_percent_failure open_circuit
  percent-IsValid now {c} v =
      let w = window-IsValid now false v in ground (arith, degradation_bounds c.threshold)

  pub on_success-IsValid :
      (now : Instant) {c : CircuitBreaker F} → IsValid c → IsValid (on_success fl now c)
  unfolding on_success record_window
  on_success-IsValid now {c} v = ground (arith, degradation_bounds c.threshold)

  dispatch-IsValid :
      (o : Option Policy) (m : Mode) (now : Instant) (kind : FailureKind) {c : CircuitBreaker F}
      → IsValid c
      → IsValid (dispatch_failure fl o m now kind c)
  dispatch-IsValid (some p) m now kind v = policy-IsValid now kind p v
  dispatch-IsValid none consecutive now kind v = consecutive-IsValid now kind v
  dispatch-IsValid none percent now kind v = percent-IsValid now v

  pub on_failure_kind-IsValid :
      (now : Instant) (kind : FailureKind) (counts : Bool) {c : CircuitBreaker F}
      → IsValid c
      → IsValid (on_failure_kind fl now kind counts c)
  unfolding on_failure_kind
  on_failure_kind-IsValid now kind counts {c} v =
      let w : IsValid (record c { last_kind = kind }) = ground arith in
      let after = dispatch-IsValid c.policy c.mode now kind w in
      elim (Bool-cases counts) [
        | inr off ↦ rw off v
        | inl on ↦
            rw on (elim (Bool-cases (is_disabled c)) [
              | inl gone ↦ rw gone v
              | inr live ↦ rw live after
            ])
      ]

-- One call of a method, by any goroutine, at any time the clock shows.
pub data Step (fl : Float64) (c d : CircuitBreaker fl.F) : Type 0 where
  call_allow : (now : Instant) → d ≡ (allow now c).0 → Step fl c d
  call_disable : d ≡ disable c → Step fl c d
  call_enable : d ≡ enable c → Step fl c d
  call_success : (now : Instant) → d ≡ on_success fl now c → Step fl c d
  call_failure :
      (now : Instant) (kind : FailureKind) (counts : Bool)
      → d ≡ on_failure_kind fl now kind counts c
      → Step fl c d
  call_open_for :
      (now : Instant) (t : Duration) → pos_part t < two63 → d ≡ open_for now t c → Step fl c d

pub data Reach (fl : Float64) (c : CircuitBreaker fl.F) : CircuitBreaker fl.F → Type 0 where
  here : Reach fl c c
  next : {d e : CircuitBreaker fl.F} → Reach fl c d → Step fl d e → Reach fl c e

module _ (fl : Float64) where
  Step-IsValid : {c d : CircuitBreaker fl.F} → Step fl c d → IsValid c → IsValid d
  Step-IsValid (call_allow now e) v = rw e (allow-IsValid now v)
  Step-IsValid (call_disable e) v = rw e (disable-IsValid v)
  Step-IsValid (call_enable e) v = rw e (enable-IsValid v)
  Step-IsValid (call_success now e) v = rw e (on_success-IsValid fl now v)
  Step-IsValid (call_failure now kind counts e) v =
      rw e (on_failure_kind-IsValid fl now kind counts v)
  Step-IsValid (call_open_for now t h e) v = rw e (open_for-IsValid now t h v)

  IsValid-Reach : {c d : CircuitBreaker fl.F} → Reach fl c d → IsValid c → IsValid d
  IsValid-Reach here v = v
  IsValid-Reach (next r s) v = Step-IsValid s (IsValid-Reach r v)

  -- Every breaker that any sequence of calls makes of a configured one is valid: a closed breaker
  -- is below its warning band, a degraded one below its threshold, an open or half-open one has
  -- tripped and has trips left, its cooldown is positive and its retry hint not negative, whatever
  -- the configuration held.
  pub Reach-IsValid :
      (cfg : CircuitConfig fl.F) {c : CircuitBreaker fl.F} → Reach fl (new fl cfg) c → IsValid c
  Reach-IsValid cfg r = IsValid-Reach r (new-IsValid fl cfg)
