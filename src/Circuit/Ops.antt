-- ===== src/Circuit/Ops.antt =====
-- internal/router/circuit.go: the methods of a breaker.
use token_route.Base.{
  ℕ, ◌+◌, Bool, true, false, ◌&&◌, ◌||◌, Option, none, some, List, [], ◌∷◌, leb, if◌then◌else◌,
}
use token_route.Base.Int.{ℤ, pos, leb_ℤ, ltb_ℤ}
use token_route.Base.Text.{Text, codes}
use token_route.Base.Time.{Instant, Duration, sub_time, add_time}
use token_route.Base.Dict.{lookup, insert, text_key}
use token_route.Base.Float.{Float64}
use token_route.Failure.{FailureKind, unknown, auth, permission, kind_key}
use token_route.Circuit.Defs.{
  State, closed, degraded, open_state, half_open, disabled, Mode, consecutive, percent, Policy,
  CircuitBreaker, record_window, degradation_threshold, effective_cooldown, open_circuit, max_count,
  failure_kind_names,
}

-- The loop of `ParseAllowedFails`: unknown names are skipped.
unfoldable pub parse_entries : List (Text × ℤ) → List (FailureKind × ℤ)
parse_entries [] = []
parse_entries ((name, n) ∷ m) =
    let rest = parse_entries m in
    elim (lookup name failure_kind_names) [ none ↦ rest | some kind ↦ insert kind n rest ]

abbrev nonempty : List (FailureKind × ℤ) → Option (List (FailureKind × ℤ))
nonempty [] = none
nonempty (e ∷ m) = some (e ∷ m)

-- `ParseAllowedFails`; `none` is the nil map.
unfoldable pub parse_allowed_fails : List (Text × ℤ) → Option (List (FailureKind × ℤ))
unfolding parse_entries
parse_allowed_fails m = nonempty (parse_entries m)

abbrev pub count_of : FailureKind → List (FailureKind × ℕ) → ℕ
count_of kind counts = elim (lookup kind counts) [ none ↦ 0 | some n ↦ n ]

abbrev pub is_hopeless : FailureKind → Bool
is_hopeless auth = true
is_hopeless permission = true
is_hopeless _ = false

abbrev pub is_closed : State → Bool
is_closed closed = true
is_closed _ = false

abbrev pub is_half_open : State → Bool
is_half_open half_open = true
is_half_open _ = false

module _ {F : Type 0} where
  abbrev allow_in : State → Instant → CircuitBreaker F → CircuitBreaker F × Bool
  allow_in closed now c = (c, true)
  allow_in degraded now c = (c, true)
  allow_in disabled now c = (c, false)
  allow_in open_state now c =
      if leb_ℤ (effective_cooldown c) (sub_time now c.opened_at)
      then (record c { state = half_open }, true)
      else (c, false)
  allow_in half_open now c = (c, false)

  -- `Allow`
  unfoldable pub allow : Instant → CircuitBreaker F → CircuitBreaker F × Bool
  allow now c = allow_in c.state now c

  -- `Disable`
  unfoldable pub disable : CircuitBreaker F → CircuitBreaker F
  disable c = record c { state = disabled; custom_cooldown = pos 0 }

  -- `Disabled`
  unfoldable pub is_disabled : CircuitBreaker F → Bool
  is_disabled c = elim (c.state) [ disabled ↦ true | _ ↦ false ]

  -- `Enable`
  unfoldable pub enable : CircuitBreaker F → CircuitBreaker F
  enable c = record c {
    state = closed;
    failures = 0;
    trips = 0;
    open_cycles = 0;
    custom_cooldown = pos 0;
  }

  abbrev probe_failed : Instant → CircuitBreaker F → CircuitBreaker F
  probe_failed now c = open_circuit now (record c { open_cycles = c.open_cycles + 1 })

  -- The branch `c.allowedFails != nil` of `OnFailureKind`.
  unfoldable pub on_policy_failure :
      Instant → FailureKind → Policy → CircuitBreaker F → CircuitBreaker F
  on_policy_failure now kind p c =
      let n = count_of kind p.counts + 1 in
      let counts' = insert kind n p.counts in
      let d = record c { policy = some (record p { counts = counts' }) } in
      let tripped = open_circuit now d in
      let by_threshold : CircuitBreaker F =
        if leb d.threshold n
        then tripped
        else (if is_closed d.state && leb (degradation_threshold d.threshold) (max_count counts')
            then record d { state = degraded }
            else d) in
      if is_half_open c.state then probe_failed now c else elim (lookup kind p.allowed) [
        | some limit ↦ if ltb_ℤ limit (pos n) then tripped else d
        | none ↦ if is_hopeless kind then tripped else by_threshold
      ]

  -- The consecutive mode of `OnFailureKind`.
  unfoldable pub on_consecutive_failure :
      Instant → FailureKind → CircuitBreaker F → CircuitBreaker F
  on_consecutive_failure now kind c =
      let hopeless = record c { failures = c.threshold } in
      let d = record c { failures = c.failures + 1 } in
      if is_hopeless kind
      then (if is_half_open c.state then probe_failed now hopeless else open_circuit now hopeless)
      else (if is_half_open c.state
          then probe_failed now c
          else (if leb c.threshold d.failures
              then open_circuit now d
              else (if is_closed c.state && leb (degradation_threshold c.threshold) d.failures
                  then record d { state = degraded }
                  else d)))

  -- `OpenFor`
  unfoldable pub open_for : Instant → Duration → CircuitBreaker F → CircuitBreaker F
  unfolding is_disabled
  open_for now d c =
      if leb_ℤ d (pos 0) || is_disabled c
      then c
      else record (open_circuit now c) { custom_cooldown = d; failures = c.threshold }

  -- `OpenUntil`; 0 is the zero time.
  unfoldable pub open_until : CircuitBreaker F → Instant
  open_until c = elim (c.state) [ open_state ↦ add_time c.opened_at (effective_cooldown c) | _ ↦ 0 ]

  -- `State`
  unfoldable pub state_name : CircuitBreaker F → Text
  state_name c = elim (c.state) [
    | degraded ↦ codes "degraded"
    | open_state ↦ codes "open"
    | half_open ↦ codes "half-open"
    | disabled ↦ codes "disabled"
    | closed ↦ codes "closed"
  ]

module _ (fl : Float64) where
  open fl use {F}

  abbrev clear_counts : Option Policy → Option Policy
  clear_counts none = none
  clear_counts (some p) = some (record p { counts = [] })

  -- The first lines of `OnSuccess`: only percent mode keeps a window.
  abbrev note_success : Mode → Instant → CircuitBreaker F → CircuitBreaker F
  note_success percent now c = (record_window fl now true c).0
  note_success consecutive now c = c

  -- `OnSuccess`
  unfoldable pub on_success : Instant → CircuitBreaker F → CircuitBreaker F
  on_success now c =
      let d = note_success c.mode now c in
      record d {
        state = closed;
        failures = 0;
        open_cycles = 0;
        custom_cooldown = pos 0;
        policy = clear_counts d.policy;
      }

  -- The branch `c.mode == "percent"` of `OnFailureKind`.
  unfoldable pub on_percent_failure : Instant → CircuitBreaker F → CircuitBreaker F
  on_percent_failure now c =
      let (d, trip) = record_window fl now false c in
      if is_half_open d.state then probe_failed now d else (if trip then open_circuit now d else d)

  abbrev pub dispatch_failure :
      Option Policy → Mode → Instant → FailureKind → CircuitBreaker F → CircuitBreaker F
  dispatch_failure (some p) _ now kind c = on_policy_failure now kind p c
  dispatch_failure none percent now kind c = on_percent_failure now c
  dispatch_failure none consecutive now kind c = on_consecutive_failure now kind c

  -- `OnFailureKind`
  unfoldable pub on_failure_kind :
      Instant → FailureKind → Bool → CircuitBreaker F → CircuitBreaker F
  unfolding is_disabled
  on_failure_kind now kind counts c =
      let d = record c { last_kind = kind } in
      let next = dispatch_failure d.policy d.mode now kind d in
      if counts then (if is_disabled c then c else next) else c

  -- `OnFailure`
  unfoldable pub on_failure : Instant → CircuitBreaker F → CircuitBreaker F
  unfolding on_failure_kind
  on_failure now c = on_failure_kind now unknown true c
