-- ===== src/Command/Resolve.antt =====
-- cmd/tokenroute/main.go and internal/config/config.go: what `Validate` accepts, `buildState` builds.
use token_route.Base.{
  ℕ, Bool, true, ◌||◌, ◌&&◌, all, All, ◌≡◌, refl, Option, none, some, List, [], ◌∷◌, map, arith,
  Option-cases, inl, inr,
}
use token_route.Base.Text.{Text, text_eq_iff}
use token_route.Base.Dict.{lookup, text_key, lookup-insert}
use token_route.Base.Float.{Float64}
use token_route.FailureRules.Defs as FailureRules
use token_route.Prices.{PriceStore, is_some}
use token_route.Router.Defs as Router
use token_route.Config.Types.{
  ProviderConfig, CandidateConfig, RouteConfig, SearchConfig, RetryPolicyConfig, Config,
}
use token_route.Config.Check.{
  rules_outcome, has, provider_names, validate, failure_rules_of, failure_rules_policy,
}
use token_route.Config.Spec.{CandidateSound, RouteSound, PolicySound}
use token_route.Config.Sound.{validate-Sound, rules_test}
use token_route.Command.State.{Result, ok, err, is_ok, ◌>>=◌}
use token_route.Command.Build.{
  Tables, no_tables, adapter_of, add_built, build_candidates, build_providers, build_routes,
}
use token_route.Command.Assemble.{backend_of, build_backends, policy_of, rules_of, build_state}

build_candidates_covered :
    (names : List Text) (table : List (Text × Router.Provider)) (ccs : List CandidateConfig)
    → ((name : Text) → has names name ≡ true → is_some (lookup name table) ≡ true)
    → All (CandidateSound names) ccs
    → is_some (build_candidates table ccs) ≡ true
unfolding build_candidates
build_candidates_covered names table [] covers s = refl
build_candidates_covered names table (cc ∷ ccs) covers (first, others) =
    let h = covers cc.provider first.provider_known in
    let k = build_candidates_covered names table ccs covers others in ground arith

module _ {F : Type 0} where
  -- Whether the types of all providers are known.
  abbrev pub types_known : List (ProviderConfig F) → Bool
  types_known ps = all (λ pc. is_some (adapter_of pc.kind)) ps

  build_providers-is_ok :
      (ps : List (ProviderConfig F)) (t : Tables) → is_ok (build_providers ps t) ≡ types_known ps
  unfolding build_providers
  build_providers-is_ok [] t = refl
  build_providers-is_ok (pc ∷ ps) t = elim (Option-cases (adapter_of pc.kind)) [
    | inl h ↦ rw h refl
    | inr (a, h) ↦ rw h (build_providers-is_ok ps (add_built pc t a))
  ]

  -- A name that is among the providers, or was in the table before them, is in the table after them.
  build_providers-covers :
      (ps : List (ProviderConfig F)) (t t' : Tables) (name : Text)
      → build_providers ps t ≡ ok t'
      → (has (map (λ p. p.name) ps) name || is_some (lookup name t.by_name)) ≡ true
      → is_some (lookup name t'.by_name) ≡ true
  unfolding build_providers
  build_providers-covers [] t t' name h k = ground arith
  build_providers-covers (pc ∷ ps) t t' name h k = elim (Option-cases (adapter_of pc.kind)) [
    | inl nowhere ↦ ground arith
    | inr (a, there) ↦ build_providers-covers ps (add_built pc t a) t' name (ground arith) (
        ground (
          arith,
          text_eq_iff name pc.name,
          text_eq_iff pc.name name,
          lookup-insert pc.name name (record { name = pc.name; rank = pc.priority }) t.by_name,
        ))
  ]

-- Whether all search backends are known.
abbrev pub backends_known : (ℕ → ℕ) → List SearchConfig → Bool
backends_known lower scs = all (λ sc. is_some (backend_of (map lower sc.backend))) scs

build_backends-is_ok :
    (lower : ℕ → ℕ) (scs : List SearchConfig)
    → is_ok (build_backends lower scs) ≡ backends_known lower scs
unfolding build_backends
build_backends-is_ok lower [] = refl
build_backends-is_ok lower (sc ∷ scs) = let h = build_backends-is_ok lower scs in ground arith

rules_of-is_ok :
    (r : FailureRules.Result (Option FailureRules.FailureRules))
    → rules_outcome r ≡ none
    → is_ok (rules_of r) ≡ true
rules_of-is_ok (FailureRules.ok fr) h = refl
rules_of-is_ok (FailureRules.err e) h = cc

policy_of-is_ok :
    (fl : Float64) (compiles : Text → Bool) (lower : ℕ → ℕ) (rp : Option RetryPolicyConfig)
    → PolicySound fl lower compiles rp
    → is_ok (policy_of lower rp) ≡ true
policy_of-is_ok fl compiles lower none s = refl
policy_of-is_ok fl compiles lower (some rp) (p, h) = ground arith

-- Steps that succeed can be left out.
step_succeeds :
    {A B : Type 0} (r : Result A) (next : A → Result B) (b : Bool)
    → is_ok r ≡ true
    → ((a : A) → r ≡ ok a → is_ok (next a) ≡ b)
    → is_ok (r >>= next) ≡ b
step_succeeds (ok a) next b h k = k a refl
step_succeeds (err e) next b h k = cc

-- A step whose success is `c` succeeds or ends the chain.
chain_succeeds :
    {A B : Type 0} (r : Result A) (next : A → Result B) (b c : Bool)
    → is_ok r ≡ c
    → ((a : A) → r ≡ ok a → is_ok (next a) ≡ b)
    → is_ok (r >>= next) ≡ (c && b)
chain_succeeds (ok a) next b c h k = let n = k a refl in ground arith
chain_succeeds (err e) next b c h k = ground arith

-- A step whose success decides on the chain.
chain_ends :
    {A B : Type 0} (r : Result A) (next : A → Result B) (b : Bool)
    → is_ok r ≡ b
    → ((a : A) → is_ok (next a) ≡ true)
    → is_ok (r >>= next) ≡ b
chain_ends (ok a) next b h k = let n = k a in ground arith
chain_ends (err e) next b h k = h

module _ (fl : Float64) where
  open fl use {F}

  build_routes_covered :
      (names models : List Text) (table : List (Text × Router.Provider))
      (rcs : List (RouteConfig F))
      → ((name : Text) → has names name ≡ true → is_some (lookup name table) ≡ true)
      → All (RouteSound fl names models) rcs
      → is_ok (build_routes table rcs) ≡ true
  unfolding build_routes
  build_routes_covered names models table [] covers s = refl
  build_routes_covered names models table (rc ∷ rcs) covers (first, others) =
      let h = build_candidates_covered names table rc.candidates covers first.candidates_sound in
      let k = build_routes_covered names models table rcs covers others in ground arith

  -- A configuration that `Validate` accepts is built into a state exactly when the types of its
  -- providers and the names of its search backends are known: every candidate then finds its
  -- provider, and the retry policy and the failure rules are accepted once more.
  pub build_state-validate :
      (lower : ℕ → ℕ) (compiles : Text → Bool) (c : Config F) (shared : Option (PriceStore F))
      → validate fl lower compiles c ≡ none
      → is_ok (build_state fl lower c shared)
        ≡ (types_known c.providers && backends_known lower c.search)
  unfolding build_state failure_rules_policy
  build_state-validate lower compiles c shared valid =
      let s = (validate-Sound fl lower compiles c).0 valid in
      chain_succeeds (build_providers c.providers no_tables) _ _ _
        (build_providers-is_ok c.providers no_tables)
        (λ t built.
          step_succeeds (build_routes t.by_name c.routes) _ _
            (build_routes_covered (provider_names fl c.providers) _ t.by_name c.routes
              (λ name known.
                build_providers-covers c.providers no_tables t name built (ground arith))
              s.routes_sound)
            (λ routes _.
              chain_ends (build_backends lower c.search) _ _ (build_backends-is_ok lower c.search)
                (λ backends.
                  step_succeeds (policy_of lower c.retry_policy) _ _
                    (policy_of-is_ok fl compiles lower c.retry_policy s.policy_sound)
                    (λ policy _.
                      chain_ends (rules_of (failure_rules_policy lower c)) _ _
                        (rules_of-is_ok (failure_rules_policy lower c) (
                          (rules_test fl lower compiles (failure_rules_of c.failure_rules)).1
                            s.rules_sound))
                        (λ rules. refl)))))
