-- ===== src/Command/Install.antt =====
-- cmd/tokenroute/main.go: what `buildState` puts into the router.
use token_route.Base.{Bool, ◌||◌, ◌&&◌, any, not, Option, none, some, List, [], ◌∷◌, if◌then◌else◌}
use token_route.Base.Int.{ℤ, pos, leb_ℤ, ltb_ℤ}
use token_route.Base.Text.{Text, text_eq}
use token_route.Base.Time.{Duration, of_seconds, hour, minute}
use token_route.Base.Dict.{insert, text_key}
use token_route.Base.Float.{Float64}
use token_route.Circuit.Ops.{parse_allowed_fails}
use token_route.Circuit.Defs as Circuit
use token_route.Failure.{FailureKind}
use token_route.FailureRules.Defs as FailureRules
use token_route.RetryPolicy.Defs.{is_blank}
use token_route.Affinity.Defs as Affinity
use token_route.Quota.Defs.{QuotaLedger, set_limit}
use token_route.Prices.{PriceStore, set_price, is_some}
use token_route.Router.Defs as Router
use token_route.Router.Defs.{
  Strategy, priority, round_robin, least_latency, weighted, cost, lkgp, headroom, fusion, p2c,
  reset_aware, fill_first, auto, lowest_usage, peak_ewma, least_connections, consistent_hash,
  fusion_judge,
}
use token_route.Router.Methods.{set_failure_rules, set_aliases, set_model_mapping, set_circuit}
use token_route.Config.Types.{
  CircuitConfig, ProviderConfig, CandidateConfig, RouteConfig, FreeTierConfig, PriceConfig, Config,
}
use token_route.Command.Build.{Tables, affinity_on, month}
use token_route.Command.State.{ProviderOverride}

-- `len(m) > 0`
abbrev install_aliases : {F : Type 0} → List (Text × Text) → Router.Router F → Router.Router F
install_aliases [] r = r
install_aliases (e ∷ m) r = set_aliases (e ∷ m) r

abbrev pub or_nil : Option (List (FailureKind × ℤ)) → List (FailureKind × ℤ)
or_nil none = []
or_nil (some m) = m

-- The limits of a provider's candidate models.
unfoldable pub limit_candidates :
    Text → ℤ → Duration → List CandidateConfig → QuotaLedger → QuotaLedger
limit_candidates name limit window [] l = l
limit_candidates name limit window (cc ∷ ccs) l =
    let set = set_limit name cc.model limit window l in
    limit_candidates name limit window ccs (if text_eq cc.provider name then set else l)

-- The window of a limit: a minute, unless it is given.
abbrev pub window_of : ℤ → Duration
window_of seconds = if leb_ℤ (of_seconds seconds) (pos 0) then pos minute else of_seconds seconds

-- The loop over `free_tier`.
unfoldable pub limit_free : List FreeTierConfig → QuotaLedger → QuotaLedger
limit_free [] l = l
limit_free (ft ∷ fts) l =
    let set = set_limit ft.provider ft.model ft.monthly_tokens month l in
    limit_free fts (
      if ltb_ℤ (pos 0) ft.monthly_tokens && not (is_blank ft.provider) && not (is_blank ft.model)
      then set
      else l)

module _ {F : Type 0} where
  -- The loop over the configured prices.
  unfoldable pub seed_prices : List (Text × PriceConfig F) → PriceStore F → PriceStore F
  seed_prices [] ps = ps
  seed_prices ((m, pc) ∷ pcs) ps = seed_prices pcs (
      set_price m
        (record {
          prompt_per_1m = pc.prompt_per_1m;
          completion_per_1m = pc.completion_per_1m;
          embed_per_1m = pc.embed_per_1m;
          context_tokens = pc.context_tokens;
          pricing_expr = pc.pricing_expr;
        })
        ps)

  abbrev pub wants_affinity : RouteConfig F → Bool
  wants_affinity rc = rc.prompt_cache_affinity || affinity_on rc.affinity

  -- The pins are shared by all routes, and made when one of them, or the default, asks for them.
  unfoldable pub install_affinity : Config F → Router.Router F → Router.Router F
  install_affinity c r =
      let on = record r {
        affinity_default = c.prompt_cache_affinity;
        affinity = some (Affinity.new (pos hour));
      } in
      if c.prompt_cache_affinity || any wants_affinity c.routes
      then on
      else record r { affinity_default = c.prompt_cache_affinity }

  -- The loop over `mappings`.
  unfoldable pub install_mappings :
      List (Text × List (Text × Text)) → Router.Router F → Router.Router F
  install_mappings [] r = r
  install_mappings ((name, m) ∷ ms) r = install_mappings ms (set_model_mapping name m r)

  -- The loop that calls `SetProviderOverride`.
  unfoldable pub install_overrides :
      List (ProviderConfig F) → List (Text × ProviderOverride) → List (Text × ProviderOverride)
  install_overrides [] table = table
  install_overrides (pc ∷ pcs) table =
      let set =
        insert pc.name
          (record {
            param_set = pc.param_override;
            param_del = pc.param_delete;
            header_set = pc.header_override;
            header_pass = pc.header_pass;
          })
          table in
      install_overrides pcs (
        if is_some pc.param_override
          || is_some pc.param_delete
          || is_some pc.header_override
          || is_some pc.header_pass
        then set
        else table)

  -- The two loops that set the limits of a provider's models.
  unfoldable pub limit_routes :
      Text → ℤ → Duration → List (RouteConfig F) → QuotaLedger → QuotaLedger
  unfolding limit_candidates
  limit_routes name limit window [] l = l
  limit_routes name limit window (rc ∷ rcs) l =
      limit_routes name limit window rcs (limit_candidates name limit window rc.candidates l)

  abbrev pub limit_provider :
      List (RouteConfig F) → ProviderConfig F → Router.Router F → Router.Router F
  limit_provider rcs pc r =
      let set = record r {
        quota =
            limit_routes pc.name pc.quota_token_limit (window_of pc.quota_window_seconds) rcs
              r.quota;
      } in
      if ltb_ℤ (pos 0) pc.quota_token_limit then set else r

module _ (fl : Float64) where
  open fl use {F}

  abbrev pub breaker_config : CircuitConfig F → Circuit.CircuitConfig F
  breaker_config c = record {
    failure_threshold = c.failure_threshold;
    cooldown_ms = c.cooldown_ms;
    auto_disable_after = c.auto_disable_after;
    mode = c.mode;
    failure_percent = c.failure_percent;
    min_requests = c.min_requests;
    allowed_fails = or_nil (parse_allowed_fails c.allowed_fails);
  }

  abbrev set_breaker : Text → Option (CircuitConfig F) → Router.Router F → Router.Router F
  set_breaker name none r = r
  set_breaker name (some c) r = set_circuit fl name (breaker_config c) r

  -- The loop that sets breakers and limits.
  unfoldable pub install_limits :
      List (RouteConfig F) → List (ProviderConfig F) → Router.Router F → Router.Router F
  unfolding limit_routes
  install_limits rcs [] r = r
  install_limits rcs (pc ∷ pcs) r =
      install_limits rcs pcs (limit_provider rcs pc (set_breaker pc.name pc.circuit r))

  -- The router with everything that the configuration says of it.
  unfoldable pub install :
      Config F
      → Tables
      → List Router.Route
      → PriceStore F
      → Option FailureRules.FailureRules
      → Router.Router F
  unfolding install_affinity install_mappings install_limits limit_free
  install c t routes prices fr =
      let r₁ = record (Router.new t.provs routes) { prices = some prices } in
      let r₂ = install_aliases c.aliases (install_affinity c r₁) in
      let r₃ = install_limits c.routes c.providers (install_mappings t.mappings r₂) in
      set_failure_rules fr (record r₃ { quota = limit_free c.free_tier r₃.quota })
