-- ===== src/Command/Targets.antt =====
-- cmd/tokenroute/main.go and reloader.go: the background workers that a configuration asks for.
use token_route.Base.{
  ℕ, Bool, ◌&&◌, not, Option, none, some, List, [], ◌∷◌, ◌++◌, map, if◌then◌else◌, ◌*◌,
}
use token_route.Base.Int.{pos, leb_ℤ}
use token_route.Base.Text.{Text, codes, text_eq}
use token_route.Base.Time.{Duration, of_millis, minute}
use token_route.Base.Dict.{lookup, insert, text_key}
use token_route.Base.Float.{Float64}
use token_route.RetryPolicy.Defs.{is_blank}
use token_route.Router.Defs.{Provider, Router}
use token_route.Router.Methods.{first_model_for}
use token_route.Config.Types.{HealthCheckConfig, BalanceProbeConfig, ProviderConfig, Config}

-- `server.HealthTarget`
pub record HealthTarget : Type 0 where
  pub provider : Option Provider
  pub model : Text
  pub interval : Duration

-- `server.BalanceTarget`
pub record BalanceTarget (F : Type 0) : Type 0 where
  pub provider : Text
  pub url : Text
  pub api_key : Text
  pub interval : Duration
  pub min_usd : F

unfoldable pub by_names : List Provider → List (Text × Provider) → List (Text × Provider)
by_names [] table = table
by_names (p ∷ ps) table = by_names ps (insert p.name p table)

-- The block that applies to a provider: its own, or the global one when that is enabled.
abbrev pub health_block :
    Option HealthCheckConfig → Option HealthCheckConfig → Option HealthCheckConfig
health_block (some own) global = some own
health_block none none = none
health_block none (some global) = if global.enabled then some global else none

abbrev pub first_key : List Text → Text
first_key [] = []
first_key (k ∷ ks) = k

module _ {F : Type 0} where
  abbrev pub health_target :
      Router F → ProviderConfig F → Option HealthCheckConfig → List HealthTarget → List HealthTarget
  health_target r pc none rest = rest
  health_target r pc (some hc) rest =
      let model = if is_blank hc.model then first_model_for pc.name r else hc.model in
      if hc.enabled && not (is_blank model)
      then record {
        provider = lookup pc.name (by_names r.providers []);
        model = model;
        interval = of_millis hc.interval_ms;
      }
        ∷ rest
      else rest

  -- `healthTargets`
  unfoldable pub health_targets :
      Option HealthCheckConfig → Router F → List (ProviderConfig F) → List HealthTarget
  unfolding by_names
  health_targets global r [] = []
  health_targets global r (pc ∷ pcs) =
      health_target r pc (health_block pc.health_check global) (health_targets global r pcs)

-- The key that probes a provider's balance.
abbrev pub probe_key : {F : Type 0} → ProviderConfig F → Text
probe_key pc = if is_blank pc.api_key then first_key pc.api_keys else pc.api_key

module _ (fl : Float64) where
  open fl use {F, of_int, div, le}

  abbrev pub balance_target :
      ProviderConfig F
      → Option (BalanceProbeConfig F)
      → List (BalanceTarget F)
      → List (BalanceTarget F)
  balance_target pc none rest = rest
  balance_target pc (some bp) rest =
      let interval = of_millis bp.interval_ms in
      let cent = div (of_int (pos 1)) (of_int (pos 100)) in
      if is_blank bp.url
      then rest
      else record {
        provider = pc.name;
        url = bp.url;
        api_key = probe_key pc;
        interval = if leb_ℤ interval (pos 0) then pos (5 * minute) else interval;
        min_usd = if le bp.min_usd (of_int (pos 0)) then cent else bp.min_usd;
      }
        ∷ rest

  -- `balanceTargets`
  unfoldable pub balance_targets : List (ProviderConfig F) → List (BalanceTarget F)
  balance_targets [] = []
  balance_targets (pc ∷ pcs) = balance_target pc pc.balance_probe (balance_targets pcs)

-- A goroutine that `startStateWorkers` starts.
pub data Worker (F : Type 0) : Type 0 where
  catalog_sync pricing_sync : Worker F
  health_check : HealthTarget → Worker F
  balance_probe : BalanceTarget F → Worker F

-- `!strings.EqualFold(setting, "off")`
abbrev pub switched_on : (ℕ → ℕ) → Text → Bool
switched_on lower setting = not (text_eq (map lower setting) (codes "off"))

module _ (fl : Float64) where
  open fl use {F}

  abbrev one_if : Bool → Worker F → List (Worker F)
  one_if on w = if on then w ∷ [] else []

  -- The workers that `startStateWorkers` starts.
  unfoldable pub workers_of : (ℕ → ℕ) → Config F → Router F → List (Worker F)
  unfolding health_targets balance_targets
  workers_of lower c r =
      one_if (switched_on lower c.model_catalog) catalog_sync
      ++ (one_if (switched_on lower c.pricing_sync) pricing_sync
          ++ (map health_check (health_targets c.health_check r c.providers)
              ++ map balance_probe (balance_targets fl c.providers)))
