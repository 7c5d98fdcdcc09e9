-- ===== src/Circuit/Defs.antt =====
-- internal/router/circuit.go: the state of a breaker and its parts.
use token_route.Base.{
  ℕ, ◌+◌, ◌-◌, ◌*◌, ◌/◌, ◌^◌, Bool, false, ◌&&◌, Option, none, some, List, [], ◌∷◌, ltb, leb,
  if◌then◌else◌, max,
}
use token_route.Base.Int.{ℤ, pos, pos_part, wrap64, scale, leb_ℤ, ltb_ℤ}
use token_route.Base.Text.{Text, codes, text_eq}
use token_route.Base.Time.{Instant, Duration, sub_time, of_millis, second}
use token_route.Base.Float.{Float64}
use token_route.Failure.{
  FailureKind, unknown, auth, permission, rate_limit, quota_exhausted, timeout, provider_5xx,
  invalid_request, model_unavailable, network,
}

pub data State : Type 0 where
  closed degraded open_state half_open disabled : State

pub data Mode : Type 0 where
  consecutive percent : Mode

-- `CircuitConfig`; its `int` fields may be negative.
pub record CircuitConfig (F : Type 0) : Type 0 where
  pub failure_threshold : ℤ
  pub cooldown_ms : ℤ
  pub auto_disable_after : ℤ
  pub mode : Text
  pub failure_percent : F
  pub min_requests : ℤ
  pub allowed_fails : List (FailureKind × ℤ)

-- `allowedFails` and `kindFailures`, which the constructor sets together or leaves nil together.
pub record Policy : Type 0 where
  pub allowed : List (FailureKind × ℤ)
  pub counts : List (FailureKind × ℕ)

pub record CircuitBreaker (F : Type 0) : Type 0 where
  pub threshold : ℕ
  pub cooldown : Duration
  pub auto_disable : ℕ
  pub custom_cooldown : Duration
  pub failures : ℕ
  pub state : State
  pub opened_at : Instant
  pub trips : ℕ
  pub open_cycles : ℕ
  pub last_kind : FailureKind
  pub mode : Mode
  pub failure_percent : F
  pub min_requests : ℕ
  pub win_start : Instant
  pub win_total : ℕ
  pub win_failures : ℕ
  pub policy : Option Policy

-- The table `failureKindNames`.
unfoldable pub failure_kind_names : List (Text × FailureKind)
failure_kind_names =
    (codes "auth", auth)
    ∷ (codes "permission", permission)
    ∷ (codes "rate_limit", rate_limit)
    ∷ (codes "quota_exhausted", quota_exhausted)
    ∷ (codes "timeout", timeout)
    ∷ (codes "server", provider_5xx)
    ∷ (codes "invalid_request", invalid_request)
    ∷ (codes "model_unavailable", model_unavailable)
    ∷ (codes "network", network)
    ∷ (codes "unknown", unknown)
    ∷ []

-- `if n <= 0 { n = d }`
abbrev pub positive_or : ℤ → ℕ → ℕ
positive_or n d = if leb_ℤ n (pos 0) then d else pos_part n

abbrev pub default_cooldown : Duration
default_cooldown = pos (30 * second)

abbrev mode_of : Text → Mode
mode_of m = if text_eq m (codes "percent") then percent else consecutive

abbrev policy_of : List (FailureKind × ℤ) → Option Policy
policy_of [] = none
policy_of (a ∷ rest) = some (record { allowed = a ∷ rest; counts = [] })

module _ (fl : Float64) where
  open fl use {F, of_int, trunc, mul, div, le}

  -- `NewCircuitBreaker`. In consecutive mode the fields of the window are not used.
  unfoldable pub new : CircuitConfig F → CircuitBreaker F
  new cfg = record {
    threshold = positive_or cfg.failure_threshold 3;
    cooldown =
        let cd = of_millis cfg.cooldown_ms in if leb_ℤ cd (pos 0) then default_cooldown else cd;
    auto_disable = positive_or cfg.auto_disable_after 3;
    custom_cooldown = pos 0;
    failures = 0;
    state = closed;
    opened_at = 0;
    trips = 0;
    open_cycles = 0;
    last_kind = unknown;
    mode = mode_of cfg.mode;
    failure_percent =
        if le cfg.failure_percent (of_int (pos 0))
        then div (of_int (pos 1)) (of_int (pos 2))
        else cfg.failure_percent;
    min_requests = positive_or cfg.min_requests 5;
    win_start = 0;
    win_total = 0;
    win_failures = 0;
    policy = policy_of cfg.allowed_fails;
  }

  -- The window restarts when a minute has passed.
  abbrev roll_window : Instant → CircuitBreaker F → CircuitBreaker F
  roll_window now c =
      if leb_ℤ (pos (60 * second)) (sub_time now c.win_start)
      then record c { win_start = now; win_total = 0; win_failures = 0 }
      else c

  -- `need`, raised to `minRequests`.
  abbrev pub needed_failures : CircuitBreaker F → ℕ
  needed_failures c =
      max (pos_part (trunc (mul c.failure_percent (of_int (pos c.win_total))))) c.min_requests

  -- `recordWindow`
  unfoldable pub record_window : Instant → Bool → CircuitBreaker F → CircuitBreaker F × Bool
  record_window now success c =
      let r = roll_window now c in
      let t = record r { win_total = r.win_total + 1 } in
      let u = record t { win_failures = t.win_failures + 1 } in
      if success
      then (t, false)
      else (u, leb (needed_failures u) u.win_failures && leb 1 u.win_failures)

-- `degradationThreshold` reads the threshold: 60% of it, between 2 and threshold - 1.
unfoldable pub degradation_threshold : ℕ → ℕ
degradation_threshold threshold =
    let d = pos_part (wrap64 (pos (threshold * 60))) / 100 in
    let e = if ltb d 2 then 2 else d in
    if ltb threshold 4 then threshold else (if leb threshold e then threshold - 1 else e)

-- The cooldown is doubled for each cycle after the third, 16 times at most (`cd << shift`).
unfoldable pub escalate : Duration → ℕ → Duration
escalate cd cycles =
    let over = cycles - 3 in
    let shift = if ltb 4 over then 4 else over in
    if leb cycles 3 then cd else wrap64 (scale cd (2 ^ shift))

module _ {F : Type 0} where
  -- `effectiveCooldown`
  unfoldable pub effective_cooldown : CircuitBreaker F → Duration
  effective_cooldown c =
      escalate (if ltb_ℤ (pos 0) c.custom_cooldown then c.custom_cooldown else c.cooldown)
        c.open_cycles

  -- `open`: one more trip; the trip number `autoDisable` disables the breaker.
  unfoldable pub open_circuit : Instant → CircuitBreaker F → CircuitBreaker F
  open_circuit now c = record c {
    trips = c.trips + 1;
    state =
        if ltb 0 c.auto_disable && leb c.auto_disable (c.trips + 1) then disabled else open_state;
    opened_at = now;
    custom_cooldown = pos 0;
  }

-- The loop over `kindFailures` for the greatest count.
unfoldable pub max_count : List (FailureKind × ℕ) → ℕ
max_count [] = 0
max_count ((_, n) ∷ counts) = max n (max_count counts)
