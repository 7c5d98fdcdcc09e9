-- ===== src/Command/Running.antt =====
-- cmd/tokenroute/reloader.go: what holds of the process through all its reloads.
use token_route.Base.{
  ℕ, ◌<◌, Bool, true, false, ◌≡◌, refl, ap, ◌∙◌, Option, none, some, List, [], ◌∷◌, arith, map, inl,
  inr, if◌then◌else◌,
}
use token_route.Base.Text.{Text}
use token_route.Base.Float.{Float64}
use token_route.Prices.{is_some}
use token_route.Server.Cache.{RespCache, new_cache}
use token_route.Catalog.{Api}
use token_route.Config.Types.{CacheConfig, Config}
use token_route.Command.State.{Services, ServerState, BuildError, ok}
use token_route.Config.Check.{failure_rules_policy}
use token_route.Command.Build.{no_tables, build_providers, build_routes}
use token_route.Command.Assemble.{build_backends, policy_of, rules_of, build_state}
use token_route.Command.Outcomes.{Every, bind-Every, Every-ok, Result-cases}
use token_route.Command.Targets.{switched_on}
use token_route.Command.Reload.{
  Crew, Process, effective, reload_cache, cancel_crew, start_state_workers, warm, first_process,
  swap, apply, rebound, reload_signal,
}

module _ (fl : Float64) (lower : ℕ → ℕ) (disk : Text → Option Api) (services : Services) where
  open fl use {F}

  -- The states of the process after its start, through admin edits and signals to reload.
  pub data Reach : Process F → Type 0 where
    started :
        (c : Config F) (st : ServerState F)
        → build_state fl lower c none ≡ ok st
        → Reach (first_process fl lower disk c services st)
    edited :
        (c : Config F) (paths : List Text) (p : Process F)
        → Reach p
        → Reach (apply fl lower disk c (some paths) p).0
    signalled :
        (loaded : Option (Config F)) (p : Process F)
        → Reach p
        → Reach (reload_signal fl lower disk loaded p)

  pub record IsRunning (p : Process F) : Type 0 where
    pub one_crew : map (λ crew. crew.context) p.crews ≡ p.bound ∷ []
    pub owned : p.current.workers_cancel ≡ some p.bound
    pub unused : p.bound < p.next_context
    pub carried : p.current.services ≡ some services
    pub admin_key_applied : p.current.admin_key ≡ p.active.admin_key
    pub cache_applied : is_some p.current.cache ≡ p.active.cache.enabled
    pub catalog_applied : is_some p.current.modalities ≡ switched_on lower p.active.model_catalog

  cancel_crew-single :
      (n : ℕ) (crew : Crew F) (crews : List (Crew F))
      → n < crew.context
      → map (λ c. c.context) crews ≡ n ∷ []
      → cancel_crew n (crew ∷ crews) ≡ crew ∷ []
  unfolding cancel_crew
  cancel_crew-single n crew [] later h = cc
  cancel_crew-single n crew (old ∷ []) later h = ground arith
  cancel_crew-single n crew (old ∷ older ∷ crews) later h = cc

  is_some-reload_cache :
      (c : CacheConfig) (cache : Option RespCache) → is_some (reload_cache c cache) ≡ c.enabled
  unfolding reload_cache new_cache
  is_some-reload_cache c none = ground arith
  is_some-reload_cache c (some warm) = ground arith

  -- What loading the catalog leaves alone.
  ready-keeps :
      {A : Type 0} (get : ServerState F → A) (c : Config F) (st : ServerState F) (on : Bool)
      → get (warm fl lower disk c st) ≡ get st
      → get (if on then warm fl lower disk c st else st) ≡ get st
  ready-keeps get c st true h = h
  ready-keeps get c st false h = refl

  ready-modalities :
      (c : Config F) (st : ServerState F) (on : Bool)
      → st.modalities ≡ none
      → is_some (if on then warm fl lower disk c st else st).modalities ≡ on
  ready-modalities c st true h = refl
  ready-modalities c st false h = ap is_some h

  -- The state that `swap` starts the workers of.
  abbrev carried_over : Config F → ServerState F → Process F → ServerState F
  carried_over c st p = record st {
    services = p.current.services;
    admin_key = c.admin_key;
    cache = reload_cache c.cache p.current.cache;
    workers_cancel = some p.next_context;
  }

  swap-IsRunning :
      (c : Config F) (st : ServerState F) (p : Process F)
      → st.modalities ≡ none
      → IsRunning p
      → IsRunning (swap fl lower disk c st p)
  unfolding swap start_state_workers
  swap-IsRunning c st p bare h =
      let next = carried_over c st p in
      let on = switched_on lower c.model_catalog in
      record {
        one_crew = rw h.owned (
            ap (map (λ crew. crew.context))
              (cancel_crew-single p.bound _ p.crews h.unused h.one_crew));
        owned = ready-keeps (λ s. s.workers_cancel) c next on refl;
        unused = ground arith;
        carried = ready-keeps (λ s. s.services) c next on refl ∙ h.carried;
        admin_key_applied = ready-keeps (λ s. s.admin_key) c next on refl;
        cache_applied =
            ap is_some (ready-keeps (λ s. s.cache) c next on refl)
            ∙ is_some-reload_cache c.cache p.current.cache;
        catalog_applied = ready-modalities c next on bare;
      }

  build_state-bare :
      (c : Config F) (st : ServerState F)
      → build_state fl lower c none ≡ ok st
      → st.modalities ≡ none
  unfolding build_state Every
  build_state-bare c st h =
      Every-ok (λ s. s.modalities ≡ none) (build_state fl lower c none) st h
        (bind-Every _ (build_providers c.providers no_tables) _ (λ t.
          bind-Every _ (build_routes t.by_name c.routes) _ (λ routes.
            bind-Every _ (build_backends lower c.search) _ (λ backends.
              bind-Every _ (policy_of lower c.retry_policy) _ (λ policy.
                bind-Every _ (rules_of (failure_rules_policy lower c)) _ (λ rules. refl))))))

  apply-IsRunning :
      (c : Config F) (paths : Option (List Text)) (p : Process F)
      → IsRunning p
      → IsRunning (apply fl lower disk c paths p).0
  unfolding apply
  apply-IsRunning c paths p h =
      let e = effective c paths p.active in
      elim (Result-cases (build_state fl lower e none)) [
        | inl (refused, fails) ↦ rw fails h
        | inr (st, builds) ↦ rw builds (swap-IsRunning e st p (build_state-bare e st builds) h)
      ]

  rebound-IsRunning :
      (c : Config F) (result : Process F × Option BuildError)
      → IsRunning result.0
      → IsRunning (rebound fl lower disk c result)
  rebound-IsRunning c (p, some e) h = h
  rebound-IsRunning c (p, none) h = record {
    one_crew = h.one_crew;
    owned = h.owned;
    unused = h.unused;
    carried = h.carried;
    admin_key_applied = h.admin_key_applied;
    cache_applied = h.cache_applied;
    catalog_applied = h.catalog_applied;
  }

  first_process-IsRunning :
      (c : Config F) (st : ServerState F)
      → st.modalities ≡ none
      → IsRunning (first_process fl lower disk c services st)
  unfolding first_process start_state_workers new_cache
  first_process-IsRunning c st bare =
      let first : ServerState F = record st {
        services = some services;
        admin_key = c.admin_key;
        cache = new_cache c.cache.enabled c.cache.ttl_seconds;
        workers_cancel = some 0;
      } in
      let on = switched_on lower c.model_catalog in
      record {
        one_crew = refl;
        owned = ready-keeps (λ s. s.workers_cancel) c first on refl;
        unused = ground arith;
        carried = ready-keeps (λ s. s.services) c first on refl;
        admin_key_applied = ready-keeps (λ s. s.admin_key) c first on refl;
        cache_applied = ap is_some (ready-keeps (λ s. s.cache) c first on refl) ∙ ground arith;
        catalog_applied = ready-modalities c first on bare;
      }

  -- However the process is started, edited through the admin API and signalled to reload, whether the
  -- new configurations build or not: the workers of exactly one state run, the state that is served
  -- and that the gauges read; the usage log, the keys, the limiter and the metrics are those of the
  -- start; the admin key is that of the active configuration; and there is a response cache, and a
  -- model catalog, exactly when the active configuration switches it on.
  pub Reach-IsRunning : (p : Process F) → Reach p → IsRunning p
  unfolding reload_signal
  Reach-IsRunning _ (started c st h) = first_process-IsRunning c st (build_state-bare c st h)
  Reach-IsRunning _ (edited c paths p g) = apply-IsRunning c (some paths) p (Reach-IsRunning p g)
  Reach-IsRunning _ (signalled none p g) = Reach-IsRunning p g
  Reach-IsRunning _ (signalled (some c) p g) =
      rebound-IsRunning c (apply fl lower disk c none p)
        (apply-IsRunning c none p (Reach-IsRunning p g))
