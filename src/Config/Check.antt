-- ===== src/Config/Check.antt =====
-- internal/config/config.go: `Decode` after the YAML decoder, `expandConfigEnv` and `Validate`. The
-- words of an error are left out; the provider, route or price that it names is kept.
use token_route.Base.{
  ℕ, Bool, true, false, ◌||◌, ◌&&◌, not, any, Option, none, some, List, [], ◌∷◌, map, length, ltb,
  if◌then◌else◌,
}
use token_route.Base.Int.{pos, ltb_ℤ}
use token_route.Base.Text.{Text, codes, text_eq, has_prefix, cut}
use token_route.Base.Float.{Float64}
use token_route.RetryPolicy.Defs as RetryPolicy
use token_route.FailureRules.Defs as FailureRules
use token_route.FailureRules.Defs.{FailureRule}
use token_route.RetryPolicy.Defs.{is_blank}
use token_route.Config.Types.{
  BalanceProbeConfig, ProviderConfig, CandidateConfig, FusionJudgeConfig, RouteConfig, PriceConfig,
  FailureRuleConfig, RetryPolicyConfig, Config,
}

pub data ConfigError : Type 0 where
  empty_provider_name empty_route_model : ConfigError
  duplicate_provider probe_needs_url probe_negative : Text → ConfigError
  unknown_strategy invalid_hash_on missing_hash_on negative_sticky stray_sticky : Text → ConfigError
  stray_judge bad_judge unknown_judge judge_negative small_panel : Text → ConfigError
  unknown_provider empty_model negative_weight unknown_fallback : Text → ConfigError
  bad_expr : Text → ConfigError
  bad_retry_policy : RetryPolicy.PolicyError → ConfigError
  bad_failure_rules : FailureRules.RuleError → ConfigError

-- A check returns nil or an error, and the first error ends the function.
abbrev pub Outcome : Type 0
Outcome = Option ConfigError

infixr 20 ◌⨾◌
unfoldable pub ◌⨾◌ : Outcome → Outcome → Outcome
none ⨾ next = next
some e ⨾ next = some e

-- `if faulty { return err }`
unfoldable pub refuse_if : Bool → ConfigError → Outcome
refuse_if true e = some e
refuse_if false e = none

module _ {ℓ} {A : Type ℓ} where
  -- A loop of checks.
  unfoldable pub check_all : (A → Outcome) → List A → Outcome
  check_all check [] = none
  check_all check (first ∷ others) = check first ⨾ check_all check others

-- A map of names to true.
abbrev pub has : List Text → Text → Bool
has names name = any (text_eq name) names

-- `strategyNames`
unfoldable pub strategy_names : List Text
strategy_names =
    codes "priority"
    ∷ codes "round_robin"
    ∷ codes "least_latency"
    ∷ codes "weighted"
    ∷ codes "cost"
    ∷ codes "lkgp"
    ∷ codes "headroom"
    ∷ codes "fusion"
    ∷ codes "p2c"
    ∷ codes "reset_aware"
    ∷ codes "fill_first"
    ∷ codes "auto"
    ∷ codes "lowest_usage"
    ∷ codes "peak_ewma"
    ∷ codes "least_connections"
    ∷ codes "consistent_hash"
    ∷ codes "fusion_judge"
    ∷ []

-- `validStrategy`
unfoldable pub valid_strategy : Text → Bool
unfolding strategy_names
valid_strategy s = has strategy_names s

-- The judge "provider/model": its provider, when both parts are there.
abbrev judge_parts : Text × Option Text → Option Text
judge_parts (name, none) = none
judge_parts (name, some model) = if is_blank name || is_blank model then none else some name

unfoldable pub judge_provider : Text → Option Text
judge_provider j = judge_parts (cut b'/' j)

abbrev known_judge : List Text → Text → Option Text → Outcome
known_judge known route none = some (bad_judge route)
known_judge known route (some name) = refuse_if (not (has known name)) (unknown_judge route)

unfoldable pub check_judge : List Text → Text → Text → Outcome
unfolding judge_provider
check_judge known route [] = none
check_judge known route (c ∷ j) = known_judge known route (judge_provider (c ∷ j))

-- The block `if r.FusionJudge != nil { … }`.
unfoldable pub check_fusion_judge : List Text → Text → Text → Option FusionJudgeConfig → Outcome
unfolding check_judge
check_fusion_judge known route strategy none = none
check_fusion_judge known route strategy (some f) =
    refuse_if (not (text_eq strategy (codes "fusion_judge"))) (stray_judge route)
    ⨾ check_judge known route f.judge
    ⨾ refuse_if
        (ltb_ℤ f.min_panel (pos 0) || ltb_ℤ f.grace_ms (pos 0) || ltb_ℤ f.timeout_ms (pos 0))
        (judge_negative route)

-- The body of the loop over a route's candidates.
unfoldable pub check_candidate : List Text → Text → CandidateConfig → Outcome
check_candidate known route c =
    refuse_if (not (has known c.provider)) (unknown_provider route)
    ⨾ refuse_if (is_blank c.model) (empty_model route)
    ⨾ refuse_if (ltb_ℤ c.weight (pos 0)) (negative_weight route)

-- `FailureRules`
unfoldable pub failure_rules_of : List FailureRuleConfig → List FailureRule
failure_rules_of [] = []
failure_rules_of (r ∷ rules) =
    record {
      pattern_text = r.pattern_text;
      status = r.status;
      cooldown_ms = r.cooldown_ms;
      backoff = r.backoff;
    }
    ∷ failure_rules_of rules

-- `pricing.Compile`, of which the library for expressions does the work, accepts what `compiles`.
unfoldable pub check_price : {F : Type 0} → (Text → Bool) → Text × PriceConfig F → Outcome
check_price compiles (m, p) =
    refuse_if (not (is_blank p.pricing_expr) && not (compiles p.pricing_expr)) (bad_expr m)

abbrev pub policy_outcome : RetryPolicy.Result RetryPolicy.RetryPolicy → Outcome
policy_outcome (RetryPolicy.ok p) = none
policy_outcome (RetryPolicy.err e) = some (bad_retry_policy e)

-- The policy of the section `retry_policy`; `validate` only asks whether it is accepted.
abbrev pub retry_policy_of :
    (ℕ → ℕ) → RetryPolicyConfig → RetryPolicy.Result RetryPolicy.RetryPolicy
retry_policy_of lower rp =
    RetryPolicy.new lower rp.retry_status_ranges rp.disable_status_ranges rp.never_retry
      rp.disable_keywords

unfoldable pub check_retry_policy : (ℕ → ℕ) → Option RetryPolicyConfig → Outcome
check_retry_policy lower none = none
check_retry_policy lower (some rp) = policy_outcome (retry_policy_of lower rp)

-- `FailureRulesPolicy`
unfoldable pub failure_rules_policy :
    {F : Type 0} → (ℕ → ℕ) → Config F → FailureRules.Result (Option FailureRules.FailureRules)
unfolding failure_rules_of
failure_rules_policy lower c = FailureRules.new lower (failure_rules_of c.failure_rules)

abbrev pub rules_outcome : FailureRules.Result (Option FailureRules.FailureRules) → Outcome
rules_outcome (FailureRules.ok fr) = none
rules_outcome (FailureRules.err e) = some (bad_failure_rules e)

module _ (fl : Float64) where
  open fl use {F, of_int, lt}

  -- The block `if bp := p.BalanceProbe; bp != nil { … }`.
  unfoldable pub check_probe : Text → Option (BalanceProbeConfig F) → Outcome
  check_probe name none = none
  check_probe name (some bp) =
      refuse_if (is_blank bp.url) (probe_needs_url name)
      ⨾ refuse_if (ltb_ℤ bp.interval_ms (pos 0) || lt bp.min_usd (of_int (pos 0)))
          (probe_negative name)

  -- The loop over the providers, with the names seen so far.
  unfoldable pub check_providers : List Text → List (ProviderConfig F) → Outcome
  unfolding check_probe
  check_providers seen [] = none
  check_providers seen (p ∷ ps) =
      refuse_if (is_blank p.name) empty_provider_name
      ⨾ refuse_if (has seen p.name) (duplicate_provider p.name)
      ⨾ check_probe p.name p.balance_probe
      ⨾ check_providers (p.name ∷ seen) ps

  -- The body of the loop over the routes.
  unfoldable pub check_route : List Text → List Text → RouteConfig F → Outcome
  unfolding valid_strategy check_fusion_judge check_candidate
  check_route known models r =
      refuse_if (is_blank r.model) empty_route_model
      ⨾ refuse_if (not (is_blank r.strategy) && not (valid_strategy r.strategy))
          (unknown_strategy r.model)
      ⨾ refuse_if
          (not (is_blank r.hash_on)
            && not (text_eq r.hash_on (codes "key"))
            && not (has_prefix r.hash_on (codes "header:")))
          (invalid_hash_on r.model)
      ⨾ refuse_if (text_eq r.strategy (codes "consistent_hash") && is_blank r.hash_on)
          (missing_hash_on r.model)
      ⨾ refuse_if (ltb_ℤ r.sticky (pos 0)) (negative_sticky r.model)
      ⨾ refuse_if (ltb_ℤ (pos 1) r.sticky && not (text_eq r.strategy (codes "round_robin")))
          (stray_sticky r.model)
      ⨾ check_fusion_judge known r.model r.strategy r.fusion_judge
      ⨾ refuse_if (text_eq r.strategy (codes "fusion_judge") && ltb (length r.candidates) 2)
          (small_panel r.model)
      ⨾ check_all (check_candidate known r.model) r.candidates
      ⨾ check_all (λ fb. refuse_if (not (has models fb)) (unknown_fallback r.model))
          r.fallback_routes

  abbrev pub provider_names : List (ProviderConfig F) → List Text
  provider_names ps = map (λ p. p.name) ps

  abbrev pub route_names : List (RouteConfig F) → List Text
  route_names rs = map (λ r. r.model) rs

  -- `Validate`
  unfoldable pub validate : (ℕ → ℕ) → (Text → Bool) → Config F → Outcome
  unfolding check_providers check_route check_price check_retry_policy failure_rules_policy
  validate lower compiles c =
      let known = provider_names c.providers in
      let models = route_names c.routes in
      check_providers [] c.providers
      ⨾ check_all (check_route known models) c.routes
      ⨾ check_all (check_price compiles) c.prices
      ⨾ check_retry_policy lower c.retry_policy
      ⨾ rules_outcome (failure_rules_policy lower c)
