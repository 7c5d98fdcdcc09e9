-- ===== src/Command/Build.antt =====
-- cmd/tokenroute/main.go: `buildState`.
use token_route.Base.{
  Bool, true, false, ◌||◌, Option, none, some, List, [], ◌∷◌, ◌++◌, ◌*◌, if◌then◌else◌,
}
use token_route.Base.Int.{ℤ, pos, eqb_ℤ, ltb_ℤ}
use token_route.Base.Text.{Text, codes, text_eq}
use token_route.Base.Time.{Duration, of_millis, hour}
use token_route.Base.Dict.{lookup, insert, text_key}
use token_route.RetryPolicy.Defs.{is_blank}
use token_route.Router.Defs as Router
use token_route.Router.Defs.{
  Strategy, priority, round_robin, least_latency, weighted, cost, lkgp, headroom, fusion, p2c,
  reset_aware, fill_first, auto, lowest_usage, peak_ewma, least_connections, consistent_hash,
  fusion_judge,
}
use token_route.Config.Types.{ProviderConfig, CandidateConfig, AffinityConfig, RouteConfig}
use token_route.Command.State.{
  Adapter, openai, anthropic, gemini, AdapterConfig, unknown_type, nil_provider, Result, ok, err,
  ◌>>=◌,
}

-- A limit in milliseconds, where 0 is not given.
abbrev pub given_or : ℤ → ℤ → ℤ
given_or n default = if eqb_ℤ n (pos 0) then default else n

-- The adapter of a provider's type.
unfoldable pub adapter_of : Text → Option Adapter
adapter_of kind =
    if text_eq kind (codes "openai") || is_blank kind
    then some openai
    else (if text_eq kind (codes "anthropic")
        then some anthropic
        else (if text_eq kind (codes "gemini") then some gemini else none))

-- The tables that the first loop of `buildState` fills in.
pub record Tables : Type 0 where
  pub provs : List Router.Provider
  pub adapters : List (Adapter × AdapterConfig)
  pub by_name : List (Text × Router.Provider)
  pub idle : List (Text × ℤ)
  pub types : List (Text × Text)
  pub mappings : List (Text × List (Text × Text))

abbrev pub no_tables : Tables
no_tables = record { provs = []; adapters = []; by_name = []; idle = []; types = []; mappings = [] }

abbrev or_openai : Text → Text
or_openai kind = if is_blank kind then codes "openai" else kind

-- `strategy`, by its name; the router takes a name it does not know for `priority`.
unfoldable pub strategy_table : List (Text × Strategy)
strategy_table =
    (codes "priority", priority)
    ∷ (codes "round_robin", round_robin)
    ∷ (codes "least_latency", least_latency)
    ∷ (codes "weighted", weighted)
    ∷ (codes "cost", cost)
    ∷ (codes "lkgp", lkgp)
    ∷ (codes "headroom", headroom)
    ∷ (codes "fusion", fusion)
    ∷ (codes "p2c", p2c)
    ∷ (codes "reset_aware", reset_aware)
    ∷ (codes "fill_first", fill_first)
    ∷ (codes "auto", auto)
    ∷ (codes "lowest_usage", lowest_usage)
    ∷ (codes "peak_ewma", peak_ewma)
    ∷ (codes "least_connections", least_connections)
    ∷ (codes "consistent_hash", consistent_hash)
    ∷ (codes "fusion_judge", fusion_judge)
    ∷ []

unfoldable pub strategy_of : Text → Strategy
unfolding strategy_table
strategy_of name = elim (lookup name strategy_table) [ none ↦ priority | some s ↦ s ]

abbrev pub affinity_on : Option AffinityConfig → Bool
affinity_on none = false
affinity_on (some a) = a.enabled

-- A candidate whose provider is in the table.
abbrev pub with_provider : CandidateConfig → Option Router.Provider → Option Router.Candidate
with_provider cc none = none
with_provider cc (some p) = some (record {
  provider = p;
  model = cc.model;
  weight = cc.weight;
  groups = cc.groups;
  tags = cc.tags;
})

abbrev both :
    Option Router.Candidate → Option (List Router.Candidate) → Option (List Router.Candidate)
both (some c) (some cs) = some (c ∷ cs)
both _ _ = none

-- The loop over a route's candidates; `none` when one of them has the nil provider.
unfoldable pub build_candidates :
    List (Text × Router.Provider) → List CandidateConfig → Option (List Router.Candidate)
build_candidates by_name [] = some []
build_candidates by_name (cc ∷ ccs) =
    both (with_provider cc (lookup cc.provider by_name)) (build_candidates by_name ccs)

-- `if rc.Affinity != nil && rc.Affinity.Enabled { … }`
unfoldable pub set_affinity : Option AffinityConfig → Router.Route → Router.Route
set_affinity none rt = rt
set_affinity (some a) rt =
    let on : Router.Route = record rt {
      prompt_cache_affinity = true;
      affinity_key_header = a.key_header;
      affinity_skip_retry = a.skip_retry_on_failure;
    } in
    if a.enabled
    then (if ltb_ℤ (pos 0) a.ttl_ms then record on { affinity_ttl = of_millis a.ttl_ms } else on)
    else rt

abbrev pub month : Duration
month = pos (30 * (24 * hour))

module _ {F : Type 0} where
  -- A provider with its adapter, which `build` makes.
  abbrev pub add_built : ProviderConfig F → Tables → Adapter → Tables
  add_built pc t a =
      let p : Router.Provider = record { name = pc.name; rank = pc.priority } in
      let cfg : AdapterConfig = record {
        name = pc.name;
        base_url = pc.base_url;
        api_key = pc.api_key;
        api_keys = pc.api_keys;
        priority = pc.priority;
        timeout_ms = pc.timeout_ms;
        response_header_timeout_ms = given_or pc.response_header_timeout_ms (pos 900000);
      } in
      record {
        provs = t.provs ++ (p ∷ []);
        adapters = t.adapters ++ ((a, cfg) ∷ []);
        by_name = insert pc.name p t.by_name;
        idle = insert pc.name (given_or pc.stream_idle_timeout_ms (pos 300000)) t.idle;
        types = insert pc.name (or_openai pc.kind) t.types;
        mappings = insert pc.name pc.model_mapping t.mappings;
      }

  abbrev pub add_adapter : ProviderConfig F → Tables → Option Adapter → Result Tables
  add_adapter pc t none = err (unknown_type pc.kind pc.name)
  add_adapter pc t (some a) = ok (add_built pc t a)

  -- The loop over the providers.
  unfoldable pub build_providers : List (ProviderConfig F) → Tables → Result Tables
  build_providers [] t = ok t
  build_providers (pc ∷ pcs) t = add_adapter pc t (adapter_of pc.kind) >>= build_providers pcs

  abbrev pub with_candidates : RouteConfig F → Option (List Router.Candidate) → Result Router.Route
  with_candidates rc none = err (nil_provider rc.model)
  with_candidates rc (some cs) = ok (
      set_affinity rc.affinity (record {
        model = rc.model;
        strategy = strategy_of rc.strategy;
        candidates = cs;
        fallback_routes = rc.fallback_routes;
        prompt_cache_affinity = rc.prompt_cache_affinity;
        affinity_key_header = [];
        affinity_ttl = pos 0;
        hash_on = rc.hash_on;
        affinity_skip_retry = false;
        sticky = rc.sticky;
        rr = 0;
        last_good = [];
        sticky_idx = 0;
        sticky_count = 0;
      }))

  -- The loop over the routes.
  unfoldable pub build_routes :
      List (Text × Router.Provider) → List (RouteConfig F) → Result (List Router.Route)
  unfolding build_candidates
  build_routes by_name [] = ok []
  build_routes by_name (rc ∷ rcs) = do
    rt ← with_candidates rc (build_candidates by_name rc.candidates)
    rts ← build_routes by_name rcs
    ok (rt ∷ rts)
