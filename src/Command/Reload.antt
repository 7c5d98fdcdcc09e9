-- ===== src/Command/Reload.antt =====
-- cmd/tokenroute/reloader.go, and the part of `main` that keeps the process's state: what is served, by
-- which configuration, with which workers. Its lock makes `Apply` one step.
use token_route.Base.{ℕ, ◌+◌, Bool, Option, none, some, List, [], ◌∷◌, ◌==◌, if◌then◌else◌}
use token_route.Base.Text.{Text}
use token_route.Base.Float.{Float64}
use token_route.Server.Cache.{RespCache, new_cache}
use token_route.Catalog.{Api, new_syncer, load_cache, modalities_of}
use token_route.Config.Types.{CacheConfig, Config}
use token_route.Command.State.{Services, ServerState, BuildError, Result, ok, err, ◌>>=◌}
use token_route.Command.Assemble.{build_state}
use token_route.Command.Targets.{Worker, workers_of, switched_on}

-- The workers that run under one context, which is numbered.
pub record Crew (F : Type 0) : Type 0 where
  pub context : ℕ
  pub workers : List (Worker F)

-- `bound` is the state whose router the gauges of the metrics read, by the context of its workers;
-- `serving` is the address that `main` listens on.
pub record Process (F : Type 0) : Type 0 where
  pub current : ServerState F
  pub active : Config F
  pub crews : List (Crew F)
  pub next_context : ℕ
  pub bound : ℕ
  pub serving : Text

abbrev kept_or_new : CacheConfig → Option RespCache → Option RespCache
kept_or_new c none = new_cache Bool.true c.ttl_seconds
kept_or_new c (some warm) = some warm

-- The response cache after a reload.
unfoldable pub reload_cache : CacheConfig → Option RespCache → Option RespCache
reload_cache c cache = if c.enabled then kept_or_new c cache else none

module _ {F : Type 0} where
  -- `overlayRestartFields`
  unfoldable pub overlay_restart_fields : Config F → Config F → Config F
  overlay_restart_fields candidate active = record candidate {
    listen = active.listen;
    admin_listen = active.admin_listen;
    usage_db = active.usage_db;
    admin_key = active.admin_key;
  }

  -- The configuration that takes effect; `none` is the nil slice of a reload by signal.
  unfoldable pub effective : Config F → Option (List Text) → Config F → Config F
  unfolding overlay_restart_fields
  effective persisted none active = persisted
  effective persisted (some paths) active = overlay_restart_fields persisted active

  -- A context that is cancelled ends its workers.
  unfoldable pub cancel_crew : ℕ → List (Crew F) → List (Crew F)
  cancel_crew n [] = []
  cancel_crew n (crew ∷ crews) =
      let rest = cancel_crew n crews in if crew.context == n then rest else crew ∷ rest

  abbrev pub cancel : Option ℕ → List (Crew F) → List (Crew F)
  cancel none crews = crews
  cancel (some n) crews = cancel_crew n crews

module _ (fl : Float64) (lower : ℕ → ℕ) (disk : Text → Option Api) where
  open fl use {F}

  -- The catalog that is loaded before the state is served; the price store is shared with the router.
  abbrev pub warm : Config F → ServerState F → ServerState F
  warm c st =
      let (s, prices) = load_cache fl lower (disk c.usage_db) new_syncer st.prices in
      let known = some (modalities_of lower s) in
      record st {
        prices = prices;
        modalities = known;
        router = record st.router { prices = some prices; modalities = known };
      }

  -- `startStateWorkers`, with the number of its context; `disk` is the cache file beside the database.
  unfoldable pub start_state_workers : ℕ → Config F → ServerState F → ServerState F × Crew F
  start_state_workers n c st =
      let owned = record st { workers_cancel = some n } in
      let warmed = warm c owned in
      let ready = if switched_on lower c.model_catalog then warmed else owned in
      (ready, record { context = n; workers = workers_of fl lower c ready.router })

  -- The process that `main` starts with a state, and with the services it opens.
  unfoldable pub first_process : Config F → Services → ServerState F → Process F
  unfolding start_state_workers
  first_process c services st =
      let (ready, crew) = start_state_workers 0 c (record st {
        services = some services;
        admin_key = c.admin_key;
        cache = new_cache c.cache.enabled c.cache.ttl_seconds;
      }) in
      record {
        current = ready;
        active = c;
        crews = crew ∷ [];
        next_context = 1;
        bound = 0;
        serving = c.listen;
      }

  -- The part of `main` before it serves.
  unfoldable pub start : Config F → Services → Result (Process F)
  unfolding first_process
  start c services = do st ← build_state fl lower c none; ok (first_process c services st)

  -- `Apply` once the state is built: carry over, start the new workers, swap, cancel the old ones.
  unfoldable pub swap : Config F → ServerState F → Process F → Process F
  unfolding start_state_workers cancel_crew reload_cache
  swap c st p =
      let prev = p.current in
      let n = p.next_context in
      let (ready, crew) = start_state_workers n c (record st {
        services = prev.services;
        admin_key = c.admin_key;
        cache = reload_cache c.cache prev.cache;
      }) in
      record p {
        current = ready;
        active = c;
        crews = cancel prev.workers_cancel (crew ∷ p.crews);
        next_context = n + 1;
        bound = n;
      }

  abbrev pub swapped : Config F → Result (ServerState F) → Process F → Process F × Option BuildError
  swapped c (err e) p = (p, some e)
  swapped c (ok st) p = (swap c st p, none)

  -- `Apply`
  unfoldable pub apply : Config F → Option (List Text) → Process F → Process F × Option BuildError
  unfolding effective swap
  apply persisted restart_paths p =
      let c = effective persisted restart_paths p.active in
      swapped c (build_state fl lower c none) p

  abbrev pub refused_by : {A : Type 0} → Result A → Option BuildError
  refused_by (err e) = some e
  refused_by (ok st) = none

  -- `Validate`; disposing of the state changes no other one.
  unfoldable pub validate_apply : Config F → Option (List Text) → Process F → Option BuildError
  unfolding effective
  validate_apply persisted restart_paths p =
      refused_by (build_state fl lower (effective persisted restart_paths p.active) none)

  abbrev pub rebound : Config F → Process F × Option BuildError → Process F
  rebound c (p, some e) = p
  rebound c (p, none) = record p { serving = c.listen }

  -- The signal to reload, in `main`: what the configuration file decodes to, if it is valid. A new
  -- address is listened on at once.
  unfoldable pub reload_signal : Option (Config F) → Process F → Process F
  unfolding apply
  reload_signal none p = p
  reload_signal (some c) p = rebound c (apply c none p)
