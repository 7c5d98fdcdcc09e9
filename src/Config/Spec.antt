-- ===== src/Config/Spec.antt =====
-- internal/config/config.go: the configurations that `Validate` means to accept, with no order of
-- checks: each section by itself, and the names that one section takes from another.
use token_route.Base.{
  ℕ, Bool, true, false, ◌≡◌, ◌≢◌, ◌≤◌, ◌⊎◌, Option, none, some, List, [], all, All, length,
}
use token_route.Base.Int.{pos, ◌≤ℤ◌}
use token_route.Base.Text.{Text, codes, has_prefix}
use token_route.Base.Float.{Float64}
use token_route.RetryPolicy.Defs as RetryPolicy
use token_route.FailureRules.Config.{is_sound}
use token_route.Config.Types.{
  BalanceProbeConfig, ProviderConfig, CandidateConfig, FusionJudgeConfig, RouteConfig, PriceConfig,
  RetryPolicyConfig, Config,
}
use token_route.Config.Check.{
  retry_policy_of, has, valid_strategy, judge_provider, failure_rules_of, provider_names,
  route_names,
}
use token_route.Config.Steps.{distinct}

-- The judge is not given, or names a provider of the configuration and a model.
abbrev pub JudgeSound : List Text → Text → Type 0
JudgeSound known j =
    (j ≡ []) ⊎ ((name : Text) × (judge_provider j ≡ some name) × (has known name ≡ true))

pub record FusionSound (known : List Text) (strategy : Text) (f : FusionJudgeConfig) : Type 0 where
  pub used : strategy ≡ codes "fusion_judge"
  pub judge_sound : JudgeSound known f.judge
  pub panel_sound : pos 0 ≤ℤ f.min_panel
  pub grace_sound : pos 0 ≤ℤ f.grace_ms
  pub timeout_sound : pos 0 ≤ℤ f.timeout_ms

abbrev pub JudgesSound : List Text → Text → Option FusionJudgeConfig → Type 0
JudgesSound known strategy none = Unit
JudgesSound known strategy (some f) = FusionSound known strategy f

pub record CandidateSound (known : List Text) (c : CandidateConfig) : Type 0 where
  pub provider_known : has known c.provider ≡ true
  pub model_given : c.model ≢ []
  pub weight_sound : pos 0 ≤ℤ c.weight

module _ (fl : Float64) where
  open fl use {F, of_int, lt}

  pub record ProbeSound (bp : BalanceProbeConfig F) : Type 0 where
    pub url_given : bp.url ≢ []
    pub interval_sound : pos 0 ≤ℤ bp.interval_ms
    pub minimum_sound : lt bp.min_usd (of_int (pos 0)) ≡ false

  abbrev pub ProbesSound : Option (BalanceProbeConfig F) → Type 0
  ProbesSound none = Unit
  ProbesSound (some bp) = ProbeSound bp

  pub record ProviderSound (p : ProviderConfig F) : Type 0 where
    pub name_given : p.name ≢ []
    pub probe_sound : ProbesSound p.balance_probe

  pub record RouteSound (known models : List Text) (r : RouteConfig F) : Type 0 where
    pub model_given : r.model ≢ []
    pub strategy_known : (r.strategy ≡ []) ⊎ (valid_strategy r.strategy ≡ true)
    pub hash_on_sound :
        (r.hash_on ≡ [])
        ⊎ ((r.hash_on ≡ codes "key") ⊎ (has_prefix r.hash_on (codes "header:") ≡ true))
    pub hash_on_given : r.strategy ≡ codes "consistent_hash" → r.hash_on ≢ []
    pub sticky_sound : pos 0 ≤ℤ r.sticky
    pub sticky_used : pos 2 ≤ℤ r.sticky → r.strategy ≡ codes "round_robin"
    pub judge_sound : JudgesSound known r.strategy r.fusion_judge
    pub panel_given : r.strategy ≡ codes "fusion_judge" → 2 ≤ length r.candidates
    pub candidates_sound : All (CandidateSound known) r.candidates
    pub fallbacks_known : All (λ fb. has models fb ≡ true) r.fallback_routes

  module _ (lower : ℕ → ℕ) (compiles : Text → Bool) where
    -- An expression is not given, or compiles.
    abbrev pub PriceSound : Text × PriceConfig F → Type 0
    PriceSound (m, p) = (p.pricing_expr ≡ []) ⊎ (compiles p.pricing_expr ≡ true)

    abbrev pub PolicySound : Option RetryPolicyConfig → Type 0
    PolicySound none = Unit
    PolicySound (some rp) =
        (p : RetryPolicy.RetryPolicy) × (retry_policy_of lower rp ≡ RetryPolicy.ok p)

    pub record ConfigSound (c : Config F) : Type 0 where
      pub providers_sound : All ProviderSound c.providers
      pub names_distinct : distinct (provider_names fl c.providers) ≡ true
      pub routes_sound :
          All (RouteSound (provider_names fl c.providers) (route_names fl c.routes)) c.routes
      pub prices_sound : All PriceSound c.prices
      pub policy_sound : PolicySound c.retry_policy
      pub rules_sound : all is_sound (failure_rules_of c.failure_rules) ≡ true
