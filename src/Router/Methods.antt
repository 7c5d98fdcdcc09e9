-- ===== src/Router/Methods.antt =====
-- internal/router/router.go: the methods that pass on to one breaker, and those that install tables.
use token_route.Base.{ℕ, Bool, false, Option, none, some, List, [], ◌∷◌, map, if◌then◌else◌}
use token_route.Base.Int.{ℤ}
use token_route.Base.Text.{Text, codes, text_eq}
use token_route.Base.Time.{Instant, Duration}
use token_route.Base.Dict.{lookup, insert, text_key}
use token_route.Base.Float.{Float64}
use token_route.Circuit.Defs.{CircuitBreaker, CircuitConfig, new}
use token_route.Circuit.Ops.{
  open_for, open_until, state_name, on_success, disable, enable, is_disabled,
}
use token_route.FailureRules.Defs.{FailureRules, cooldown}
use token_route.Router.Defs.{Router, Route, Candidate, Window}

-- The first candidate of a provider.
unfoldable pub first_candidate : Text → List Candidate → Option Text
first_candidate name [] = none
first_candidate name (c ∷ cs) =
    if text_eq c.provider.name name then some c.model else first_candidate name cs

abbrev or_text : Option Text → Text → Text
or_text none t = t
or_text (some s) t = s

unfoldable pub first_model : Text → List Route → Text
unfolding first_candidate
first_model name [] = []
first_model name (rt ∷ routes) =
    or_text (first_candidate name rt.candidates) (first_model name routes)

abbrev reqs_or_zero : Option Window → ℕ
reqs_or_zero none = 0
reqs_or_zero (some w) = w.reqs

module _ {F : Type 0} where
  -- `if cb, ok := r.circuits[name]; ok { … }`
  abbrev pub change :
      (CircuitBreaker F → CircuitBreaker F) → Text → Option (CircuitBreaker F) → Router F → Router F
  change f name none r = r
  change f name (some c) r = record r { circuits = insert name (f c) r.circuits }

  abbrev on_breaker : (CircuitBreaker F → CircuitBreaker F) → Text → Router F → Router F
  on_breaker f name r = change f name (lookup name r.circuits) r

  -- `SetFailureRules`
  unfoldable pub set_failure_rules : Option FailureRules → Router F → Router F
  set_failure_rules fr r = record r { failure_rules = fr }

  -- `FailureCooldown`
  unfoldable pub failure_cooldown :
      (ℕ → ℕ) → Text → ℤ → Text → Router F → Router F × Option Duration
  failure_cooldown lower name status body r =
      let (fr, d) = cooldown lower name status body r.failure_rules in
      (record r { failure_rules = fr }, d)

  -- `SetAliases`
  unfoldable pub set_aliases : List (Text × Text) → Router F → Router F
  set_aliases aliases r = record r { aliases = aliases }

  -- `SetModelMapping`
  unfoldable pub set_model_mapping : Text → List (Text × Text) → Router F → Router F
  set_model_mapping name [] r = r
  set_model_mapping name (e ∷ m) r = record r { mappings = insert name (e ∷ m) r.mappings }

  -- `OpenCircuitFor`
  unfoldable pub open_circuit_for : Instant → Text → Duration → Router F → Router F
  open_circuit_for now name d r = on_breaker (open_for now d) name r

  -- `CircuitOpenUntil`; 0 is the zero time.
  unfoldable pub circuit_open_until : Text → Router F → Instant
  circuit_open_until name r = elim (lookup name r.circuits) [ none ↦ 0 | some c ↦ open_until c ]

  -- `CircuitState`
  unfoldable pub circuit_state : Text → Router F → Text
  circuit_state name r = elim (lookup name r.circuits) [
    | none ↦ codes "closed"
    | some c ↦ state_name c
  ]

  -- `DisableProvider`
  unfoldable pub disable_provider : Text → Router F → Router F
  disable_provider name r = on_breaker disable name r

  -- `EnableProvider`
  unfoldable pub enable_provider : Text → Router F → Router F
  enable_provider name r = on_breaker enable name r

  -- `ProviderDisabled`
  unfoldable pub provider_disabled : Text → Router F → Bool
  provider_disabled name r = elim (lookup name r.circuits) [ none ↦ false | some c ↦ is_disabled c ]

  -- `WindowReqs`
  unfoldable pub window_reqs_of : Text → Router F → ℕ
  window_reqs_of name r = reqs_or_zero (lookup name r.windows)

  -- `RouteModels`
  unfoldable pub route_models : Router F → List Text
  route_models r = map (λ rt. rt.model) r.routes

  -- `FirstModelFor`
  unfoldable pub first_model_for : Text → Router F → Text
  unfolding first_model
  first_model_for name r = first_model name r.routes

module _ (fl : Float64) where
  open fl use {F}

  -- `SetCircuit`
  unfoldable pub set_circuit : Text → CircuitConfig F → Router F → Router F
  set_circuit name cfg r = record r { circuits = insert name (new fl cfg) r.circuits }

  -- `ResetCircuit`
  unfoldable pub reset_circuit : Instant → Text → Router F → Router F
  reset_circuit now name r = on_breaker (on_success fl now) name r
