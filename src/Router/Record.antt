-- ===== src/Router/Record.antt =====
-- internal/router/router.go: what the router notes of an attempt and of its tokens.
use token_route.Base.{
  ℕ, ◌+◌, ◌*◌, ◌/◌, Bool, true, false, Option, none, some, List, [], map, if◌then◌else◌,
}
use token_route.Base.Int.{ℤ, pos, negsuc, sub_ℕ, leb_ℤ, wrap64, ◌+ℤ◌}
use token_route.Base.Text.{Text, text_eq}
use token_route.Base.Time.{Instant, Duration, sub_time, is_zero, second, millisecond}
use token_route.Base.Dict.{lookup, insert, text_key}
use token_route.Base.Float.{Float64, seconds}
use token_route.Failure.{FailureKind, unknown}
use token_route.Circuit.Defs.{CircuitBreaker}
use token_route.Circuit.Ops.{on_success, on_failure_kind}
use token_route.FailureRules.Defs.{on_success as restart_backoff}
use token_route.Router.Defs.{Router, Route, Strategy, lkgp, LatencyState, Window}

-- The 60 seconds of a window, and the constant `ewmaDecayTime`.
abbrev window_length : ℕ
window_length = 60 * second

-- One more request in the window, which restarts after a minute.
abbrev counted : Instant → Window → Window
counted now w =
    if leb_ℤ (pos window_length) (sub_time now w.start)
    then record { start = now; reqs = 1; toks = pos 0 }
    else record w { reqs = w.reqs + 1 }

abbrev count_in : Instant → Option Window → Window
count_in now none = counted now (record { start = 0; reqs = 0; toks = pos 0 })
count_in now (some w) = counted now w

-- `d.Milliseconds()`
abbrev milliseconds : Duration → ℤ
milliseconds (pos n) = pos (n / millisecond)
milliseconds (negsuc n) = sub_ℕ 0 ((n + 1) / millisecond)

abbrev pub is_lkgp : Strategy → Bool
is_lkgp lkgp = true
is_lkgp _ = false

-- The loop over the routes with the strategy `lkgp`; the empty name is no provider.
unfoldable pub note_last_good : Text → Bool → Route → Route
note_last_good name success rt =
    let forgotten = if text_eq rt.last_good name then record rt { last_good = [] } else rt in
    if is_lkgp rt.strategy
    then (if success then record rt { last_good = name } else forgotten)
    else rt

module _ (fl : Float64) where
  open fl use {F, of_int, add, sub, mul, div, exp}

  -- `emaAlpha` is 0.3.
  abbrev alpha : F
  alpha = div (of_int (pos 3)) (of_int (pos 10))

  abbrev one_minus_alpha : F
  one_minus_alpha = div (of_int (pos 7)) (of_int (pos 10))

  -- `decayWeight`; 10 seconds is the decay time.
  unfoldable pub decay_weight : Duration → F
  decay_weight dt =
      if leb_ℤ dt (pos 0)
      then of_int (pos 1)
      else exp (div (sub (of_int (pos 0)) (seconds fl dt)) (seconds fl (pos (10 * second))))

  abbrev blended : Instant → F → Option (LatencyState F) → LatencyState F
  blended now rtt none = record { ewma = rtt; last_touched = now }
  blended now rtt (some st) =
      let w = decay_weight (sub_time now st.last_touched) in
      if is_zero st.last_touched then record { ewma = rtt; last_touched = now } else record {
        ewma = add (mul st.ewma w) (mul rtt (sub (of_int (pos 1)) w));
        last_touched = now;
      }

  abbrev rate_or_zero : Option F → F
  rate_or_zero none = of_int (pos 0)
  rate_or_zero (some x) = x

  -- The error rate moves for a success and for a failure that counts.
  unfoldable pub note_rate : Text → Bool → Bool → List (Text × F) → List (Text × F)
  note_rate name success counts rates =
      let old = mul one_minus_alpha (rate_or_zero (lookup name rates)) in
      if success
      then insert name old rates
      else (if counts then insert name (add alpha old) rates else rates)

  abbrev pub noted :
      Instant
      → Bool
      → FailureKind
      → Bool
      → Text
      → Option (CircuitBreaker F)
      → List (Text × CircuitBreaker F)
      → List (Text × CircuitBreaker F)
  noted now success kind counts name none circuits = circuits
  noted now success kind counts name (some c) circuits =
      insert name (if success then on_success fl now c else on_failure_kind fl now kind counts c)
        circuits

  -- `RecordResultKind`
  unfoldable pub record_result_kind :
      Instant → Text → Duration → Bool → FailureKind → Bool → Router F → Router F
  unfolding decay_weight note_rate note_last_good
  record_result_kind now name latency success kind counts r =
      let rtt = of_int (milliseconds latency) in
      record r {
        latency = insert name (blended now rtt (lookup name r.latency)) r.latency;
        err_rate = note_rate name success counts r.err_rate;
        windows = insert name (count_in now (lookup name r.windows)) r.windows;
        circuits = noted now success kind counts name (lookup name r.circuits) r.circuits;
        failure_rules = if success then restart_backoff name r.failure_rules else r.failure_rules;
        routes = map (note_last_good name success) r.routes;
      }

  -- `RecordResult`
  unfoldable pub record_result : Instant → Text → Duration → Bool → Router F → Router F
  unfolding record_result_kind
  record_result now name latency success r =
      record_result_kind now name latency success unknown true r

abbrev window_or_new : Instant → Option Window → Window
window_or_new now none = record { start = now; reqs = 0; toks = pos 0 }
window_or_new now (some w) = w

-- `RecordTokens`
unfoldable pub record_tokens : {F : Type 0} → Instant → Text → ℤ → Router F → Router F
record_tokens now name tokens r =
    let w = window_or_new now (lookup name r.windows) in
    if leb_ℤ tokens (pos 0) then r else record r {
      windows = insert name (record w { toks = wrap64 (w.toks +ℤ tokens) }) r.windows;
    }
