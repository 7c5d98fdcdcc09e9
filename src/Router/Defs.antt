-- ===== src/Router/Defs.antt =====
-- internal/router/router.go: routes, candidates and the router's own tables. Of a `Candidate` the
-- overrides of the request's body are left out, of a `Route` the multiplier and the knobs of
-- fusion_judge; a provider is its name and its priority, the two methods that the router calls.
use token_route.Base.{
  ℕ, ◌+◌, ◌%◌, Bool, false, Option, none, List, [], map, ltb, if◌then◌else◌, length,
}
use token_route.Base.Int.{ℤ, pos, leb_ℤ, ltb_ℤ}
use token_route.Base.Text.{Text}
use token_route.Base.Time.{Instant, Duration}
use token_route.Base.Dict.{text_key}
use token_route.Base.Sort.{sort_by}
use token_route.Circuit.Defs.{CircuitBreaker}
use token_route.FailureRules.Defs.{FailureRules}
use token_route.Affinity.Defs.{AffinityCache}
use token_route.Quota.Defs.{QuotaLedger, new as new_ledger}
use token_route.Prices.{PriceStore}

pub record Provider : Type 0 where
  pub name : Text
  pub rank : ℤ  -- `Priority()`

pub data Strategy : Type 0 where
  priority round_robin least_latency weighted cost lkgp headroom fusion : Strategy
  p2c reset_aware fill_first auto lowest_usage peak_ewma : Strategy
  least_connections consistent_hash fusion_judge : Strategy

pub record Candidate : Type 0 where
  pub provider : Provider
  pub model : Text
  pub weight : ℤ
  pub groups : List Text
  pub tags : List Text

pub record Route : Type 0 where
  pub model : Text
  pub strategy : Strategy
  pub candidates : List Candidate
  pub fallback_routes : List Text
  pub prompt_cache_affinity : Bool
  pub affinity_key_header : Text
  pub affinity_ttl : Duration
  pub hash_on : Text
  pub affinity_skip_retry : Bool
  pub sticky : ℤ
  pub rr : ℕ
  pub last_good : Text
  pub sticky_idx : ℕ
  pub sticky_count : ℕ

pub record LatencyState (F : Type 0) : Type 0 where
  pub ewma : F
  pub last_touched : Instant

-- `window`: the requests and tokens of a minute.
pub record Window : Type 0 where
  pub start : Instant
  pub reqs : ℕ
  pub toks : ℤ

pub record Router (F : Type 0) : Type 0 where
  pub providers : List Provider
  pub routes : List Route
  pub affinity_default : Bool
  pub circuits : List (Text × CircuitBreaker F)
  pub latency : List (Text × LatencyState F)
  pub err_rate : List (Text × F)
  pub mappings : List (Text × List (Text × Text))
  pub model_lock : List (Text × Instant)
  pub windows : List (Text × Window)
  pub inflight : List (Text × ℕ)
  pub prices : Option (PriceStore F)
  pub quota : QuotaLedger
  pub aliases : List (Text × Text)
  pub affinity : Option AffinityCache
  pub modalities : Option (Text → Option (List Text))
  pub failure_rules : Option FailureRules

-- `stickyNext`
unfoldable pub sticky_next : Route → Route × ℕ
sticky_next rt =
    let n = if ltb_ℤ rt.sticky (pos 1) then pos 1 else rt.sticky in
    let len = length rt.candidates in
    let next = rt.sticky_idx + 1 in
    let count = rt.sticky_count + 1 in
    let wrapped = if ltb 0 len then next % len else next in
    (
      if leb_ℤ n (pos count)
          then record rt { sticky_count = 0; sticky_idx = wrapped }
          else record rt { sticky_count = count },
      rt.sticky_idx,
    )

abbrev pub rank_lt : Candidate → Candidate → Bool
rank_lt a b = ltb_ℤ a.provider.rank b.provider.rank

abbrev pub default_weight : Candidate → Candidate
default_weight c = if leb_ℤ c.weight (pos 0) then record c { weight = pos 1 } else c

-- What `New` does to one route: default weights, and the candidates by priority.
unfoldable pub prepare_route : Route → Route
prepare_route rt = record rt { candidates = sort_by rank_lt (map default_weight rt.candidates) }

-- `New`. A strategy that is not given is `priority` already.
unfoldable pub new : {F : Type 0} → List Provider → List Route → Router F
unfolding prepare_route
new providers routes = record {
  providers = sort_by (λ a b. ltb_ℤ a.rank b.rank) providers;
  routes = map prepare_route routes;
  affinity_default = false;
  circuits = [];
  latency = [];
  err_rate = [];
  mappings = [];
  model_lock = [];
  windows = [];
  inflight = [];
  prices = none;
  quota = new_ledger;
  aliases = [];
  affinity = none;
  modalities = none;
  failure_rules = none;
}
