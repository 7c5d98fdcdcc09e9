-- ===== src/Config/Sound.antt =====
-- internal/config/config.go: `Validate` accepts exactly the sound configurations.
use token_route.Base.{
  ℕ, Bool, true, ◌≡◌, ◌↔◌, refl, Option, none, some, List, [], ◌∷◌, arith, all, All,
}
use token_route.Base.Text.{Text}
use token_route.Base.Float.{Float64}
use token_route.RetryPolicy.Defs as RetryPolicy
use token_route.RetryPolicy.Defs.{is_blank}
use token_route.FailureRules.Defs as FailureRules
use token_route.FailureRules.Defs.{FailureRule}
use token_route.Prices.{is_some}
use token_route.FailureRules.Config.{is_sound, accepted, new_sound}
use token_route.Config.Types.{ProviderConfig, PriceConfig, RetryPolicyConfig, Config}
use token_route.Config.Check.{
  refuse_if, check_providers, check_route, check_price, policy_outcome, retry_policy_of,
  check_retry_policy, failure_rules_of, rules_outcome, provider_names, validate,
}
use token_route.Config.Steps.{
  ⨾-none, ⨾_none, peel, unpeel, check_all-All, All-check_all, distinct, fresh, fresh_nil,
  fresh_cons,
}
use token_route.Config.Spec.{ProviderSound, PriceSound, PolicySound, ConfigSound}
use token_route.Config.Parts.{check_probe-Sound, check_probe_complete}
use token_route.Config.Routes.{given_test, check_route-Sound, check_route_complete}

outcome_test :
    (r : RetryPolicy.Result RetryPolicy.RetryPolicy)
    → (policy_outcome r ≡ none) ↔ ((p : RetryPolicy.RetryPolicy) × (r ≡ RetryPolicy.ok p))
outcome_test (RetryPolicy.ok p) = (λ h. (p, refl), λ s. refl)
outcome_test (RetryPolicy.err e) = (λ h. cc, λ s. let (p, h) = s in cc)

accepted_test :
    (r : FailureRules.Result (Option FailureRules.FailureRules))
    → (rules_outcome r ≡ none) ↔ (is_some (accepted r) ≡ true)
accepted_test (FailureRules.ok fr) = ground arith
accepted_test (FailureRules.err e) = ground arith

module _ (fl : Float64) where
  open fl use {F}

  check_providers-Sound :
      (seen : List Text) (ps : List (ProviderConfig F))
      → check_providers fl seen ps ≡ none
      → All (ProviderSound fl) ps
        × (fresh seen (provider_names fl ps) ≡ true)
        × (distinct (provider_names fl ps) ≡ true)
  unfolding check_providers
  check_providers-Sound seen [] h = (tt, refl, refl)
  check_providers-Sound seen (p ∷ ps) h =
      let (a₁, h₁) = peel _ _ _ h in
      let (a₂, h₂) = peel _ _ _ h₁ in
      let (a₃, h₃) = ⨾-none _ _ h₂ in
      let (others, unseen, apart) = check_providers-Sound (p.name ∷ seen) ps h₃ in
      let names = provider_names fl ps in
      (
        (
          record {
            name_given = (given_test _).0 a₁;
            probe_sound = check_probe-Sound fl p.name p.balance_probe a₃;
          },
          others,
        ),
        ground (arith, fresh_cons p.name seen names),
        ground (arith, fresh_cons p.name seen names),
      )

  check_providers_complete :
      (seen : List Text) (ps : List (ProviderConfig F))
      → All (ProviderSound fl) ps
      → fresh seen (provider_names fl ps) ≡ true
      → distinct (provider_names fl ps) ≡ true
      → check_providers fl seen ps ≡ none
  unfolding check_providers
  check_providers_complete seen [] s h k = refl
  check_providers_complete seen (p ∷ ps) (first, others) h k =
      let names = provider_names fl ps in
      unpeel _ _ _ ((given_test _).1 first.name_given) (
        unpeel _ _ _ (ground arith) (
          ⨾_none _ _ (check_probe_complete fl p.name p.balance_probe first.probe_sound) (
            check_providers_complete (p.name ∷ seen) ps others
              (ground (arith, fresh_cons p.name seen names)) (ground arith))))

  module _ (lower : ℕ → ℕ) (compiles : Text → Bool) where
    price_test :
        (priced : Text × PriceConfig F)
        → (check_price compiles priced ≡ none) ↔ PriceSound fl lower compiles priced
    unfolding check_price refuse_if
    price_test (m, p) = ground arith

    policy_test :
        (rp : Option RetryPolicyConfig)
        → (check_retry_policy lower rp ≡ none) ↔ PolicySound fl lower compiles rp
    unfolding check_retry_policy
    policy_test none = (λ h. tt, λ s. refl)
    policy_test (some rp) = outcome_test (retry_policy_of lower rp)

    pub rules_test :
        (rules : List FailureRule)
        → (rules_outcome (FailureRules.new lower rules) ≡ none) ↔ (all is_sound rules ≡ true)
    unfolding FailureRules.new
    rules_test [] = ground arith
    rules_test (r ∷ rules) =
        let (empty, loads) = new_sound lower r rules in
        ground (arith, accepted_test (FailureRules.new lower (r ∷ rules)))

    -- `Validate` finds no error in a configuration exactly when it is sound: the providers have names,
    -- all different, and probes with a URL and no negative value; every route has a model, a strategy
    -- that is known or left out, a hash key that goes with it, a stickiness, a judge and a panel that
    -- its strategy allows, candidates of known providers and fallbacks among the routes; every price
    -- expression compiles; the retry policy is accepted; and every failure rule is sound.
    pub validate-Sound :
        (c : Config F) → (validate fl lower compiles c ≡ none) ↔ ConfigSound fl lower compiles c
    unfolding validate
    validate-Sound c = (
      λ h.
          let (a₁, h₁) = ⨾-none _ _ h in
          let (a₂, h₂) = ⨾-none _ _ h₁ in
          let (a₃, h₃) = ⨾-none _ _ h₂ in
          let (a₄, a₅) = ⨾-none _ _ h₃ in
          let (providers, _, apart) = check_providers-Sound [] c.providers a₁ in
          record {
            providers_sound = providers;
            names_distinct = apart;
            routes_sound =
                check_all-All (check_route fl _ _) (check_route-Sound fl _ _) c.routes a₂;
            prices_sound =
                check_all-All (check_price compiles) (λ p k. (price_test p).0 k) c.prices a₃;
            policy_sound = (policy_test c.retry_policy).0 a₄;
            rules_sound = (rules_test (failure_rules_of c.failure_rules)).0 a₅;
          },
      λ s.
          ⨾_none _ _
            (check_providers_complete [] c.providers s.providers_sound
              (fresh_nil (provider_names fl c.providers)) s.names_distinct)
            (⨾_none _ _
              (All-check_all (check_route fl _ _) (check_route_complete fl _ _) c.routes
                s.routes_sound)
              (⨾_none _ _
                (All-check_all (check_price compiles) (λ p k. (price_test p).1 k) c.prices
                  s.prices_sound)
                (⨾_none _ _ ((policy_test c.retry_policy).1 s.policy_sound)
                  ((rules_test (failure_rules_of c.failure_rules)).1 s.rules_sound)))),
    )
