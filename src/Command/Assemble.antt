-- ===== src/Command/Assemble.antt =====
-- cmd/tokenroute/main.go: `buildState` after its loops over providers and routes.
use token_route.Base.{ℕ, Option, none, some, List, [], ◌∷◌, ◌++◌, map, if◌then◌else◌}
use token_route.Base.Text.{Text, codes, text_eq}
use token_route.Base.Dict.{text_key}
use token_route.Base.Float.{Float64}
use token_route.KeyPool.Defs as KeyPool
use token_route.FailureRules.Defs as FailureRules
use token_route.RetryPolicy.Defs as RetryPolicy
use token_route.RetryPolicy.Defs.{is_blank}
use token_route.Prices.{PriceStore, new_price_store}
use token_route.Config.Types.{SearchConfig, RetryPolicyConfig, Config}
use token_route.Config.Check.{retry_policy_of, failure_rules_policy}
use token_route.Command.Build.{no_tables, build_providers, build_routes}
use token_route.Command.Install.{install, seed_prices, install_overrides}
use token_route.Command.State.{
  Backend, tavily, brave, exa, ServerState, unknown_backend, policy_refused, rules_refused, Result,
  ok, err, ◌>>=◌,
}

-- The name of a search backend, in lower case.
unfoldable pub backend_of : Text → Option Backend
backend_of name =
    if text_eq name (codes "tavily")
    then some tavily
    else (if text_eq name (codes "brave")
        then some brave
        else (if text_eq name (codes "exa") then some exa else none))

abbrev pub pool_of : SearchConfig → KeyPool.KeyPool
pool_of sc =
    KeyPool.new (if is_blank sc.api_key then sc.api_keys else sc.api_keys ++ (sc.api_key ∷ []))

abbrev pub add_backend :
    SearchConfig
    → Option Backend
    → Result (List (Backend × KeyPool.KeyPool))
    → Result (List (Backend × KeyPool.KeyPool))
add_backend sc none others = err (unknown_backend sc.backend)
add_backend sc (some b) (err e) = err e
add_backend sc (some b) (ok others) = ok ((b, pool_of sc) ∷ others)

abbrev pub or_new : {F : Type 0} → Option (PriceStore F) → PriceStore F
or_new none = new_price_store []
or_new (some ps) = ps

abbrev pub policy_of : (ℕ → ℕ) → Option RetryPolicyConfig → Result (Option RetryPolicy.RetryPolicy)
policy_of lower none = ok none
policy_of lower (some rp) = elim (retry_policy_of lower rp) [
  | RetryPolicy.ok p ↦ ok (some p)
  | RetryPolicy.err e ↦ err (policy_refused e)
]

abbrev pub rules_of :
    FailureRules.Result (Option FailureRules.FailureRules)
    → Result (Option FailureRules.FailureRules)
rules_of (FailureRules.ok fr) = ok fr
rules_of (FailureRules.err e) = err (rules_refused e)

-- The loop over the search backends.
unfoldable pub build_backends :
    (ℕ → ℕ) → List SearchConfig → Result (List (Backend × KeyPool.KeyPool))
unfolding backend_of
build_backends lower [] = ok []
build_backends lower (sc ∷ scs) =
    add_backend sc (backend_of (map lower sc.backend)) (build_backends lower scs)

module _ (fl : Float64) where
  open fl use {F}

  -- `buildState`; a test may give the price store.
  unfoldable pub build_state : (ℕ → ℕ) → Config F → Option (PriceStore F) → Result (ServerState F)
  unfolding build_providers build_routes build_backends install seed_prices install_overrides
  build_state lower c shared = do
    t ← build_providers c.providers no_tables
    routes ← build_routes t.by_name c.routes
    backends ← build_backends lower c.search
    policy ← policy_of lower c.retry_policy
    rules ← rules_of (failure_rules_policy lower c)
    let prices = seed_prices c.prices (or_new shared)
    ok (record {
      router = install fl c t routes prices rules;
      overrides = install_overrides c.providers [];
      adapters = t.adapters;
      services = none;
      prices = prices;
      admin_key = [];
      cache = none;
      stream_idle_ms = t.idle;
      provider_types = t.types;
      retry_policy = policy;
      group_ratio = c.group_ratio;
      max_body_mb = c.max_body_mb;
      search_backends = backends;
      modalities = none;
      workers_cancel = none;
    })
