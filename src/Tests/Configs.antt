-- ===== src/Tests/Configs.antt =====
-- Configurations, the state that one is built into and its reloads, at concrete inputs.
use token_route.Base.{◌≡◌, refl, Bool, true, false, ◌&&◌, Option, none, some, [], ◌∷◌}
use token_route.Base.Int.{pos}
use token_route.Base.Text.{Text, codes}
use token_route.Prices.{is_some}
use token_route.Base.{if◌then◌else◌}
use token_route.Catalog.{Api}
use token_route.Config.Types.{ProviderConfig, RouteConfig, CandidateConfig, Config}
use token_route.Config.Check.{validate, ◌⨾◌, refuse_if, check_all, failure_rules_policy}
use token_route.FailureRules.Defs as FailureRules
use token_route.Base.Dict.{lookup, insert}
use token_route.Command.Build.{adapter_of}
use token_route.Config.Spec.{ConfigSound}
use token_route.Config.Sound.{validate-Sound}
use token_route.Command.State.{Services, ServerState, ok, is_ok}
use token_route.Command.Assemble.{build_state}
use token_route.Command.Resolve.{types_known, backends_known, build_state-validate}
use token_route.Command.Outcomes.{is_ok-value}
use token_route.Command.Reload.{
  Process, first_process, apply, validate_apply, reload_signal, effective,
}
use token_route.Command.Running.{IsRunning, Reach-IsRunning, started, edited, signalled}
use token_route.Command.Restart.{bootstrap, run_edits, apply-validate_apply, run_edits-bootstrap}
use token_route.Tests.Floats.{whole, ascii_lower}

abbrev local : ProviderConfig whole.F
local = record {
  name = codes "local";
  kind = codes "openai";
  base_url = codes "http://localhost";
  api_key = [];
  api_keys = [];
  priority = pos 1;
  timeout_ms = pos 0;
  response_header_timeout_ms = pos 0;
  stream_idle_timeout_ms = pos 0;
  model_mapping = [];
  circuit = none;
  quota_token_limit = pos 0;
  quota_window_seconds = pos 0;
  health_check = none;
  param_override = none;
  param_delete = none;
  header_override = none;
  header_pass = none;
  balance_probe = none;
}

abbrev small : CandidateConfig
small = record {
  provider = codes "local";
  model = codes "small";
  weight = pos 1;
  groups = [];
  tags = [];
  param_override = none;
}

abbrev chat : RouteConfig whole.F
chat = record {
  model = codes "chat";
  strategy = codes "cost";
  multiplier = pos 1;
  candidates = small ∷ [];
  fallback_routes = [];
  prompt_cache_affinity = false;
  affinity = none;
  hash_on = [];
  sticky = pos 0;
  fusion_judge = none;
}

abbrev gateway : Config whole.F
gateway = record {
  listen = codes ":8400";
  admin_listen = [];
  usage_db = codes "usage.db";
  admin_key = codes "secret";
  max_body_mb = pos 10;
  cache = record { enabled = true; ttl_seconds = pos 60 };
  model_catalog = codes "off";
  pricing_sync = codes "off";
  search = [];
  providers = local ∷ [];
  routes = chat ∷ [];
  prices = [];
  free_tier = [];
  aliases = [];
  prompt_cache_affinity = false;
  health_check = none;
  retry_policy = none;
  group_ratio = [];
  failure_rules = [];
}

-- Another listen address, another key and no cache.
abbrev moved : Config whole.F
moved = record gateway {
  listen = codes ":9000";
  admin_key = codes "other";
  cache = record { enabled = false; ttl_seconds = pos 60 };
}

abbrev compiles_none : Text → Bool
compiles_none e = false

abbrev no_file : Text → Option Api
no_file path = none

abbrev services : Services
services = record { usage = 1; keys = 2; limiter = 3; metrics = 4 }

gateway_valid : validate whole ascii_lower compiles_none gateway ≡ none
unfolding validate ◌⨾◌ refuse_if check_all FailureRules.new
gateway_valid = refl

validate-Sound_example : ConfigSound whole ascii_lower compiles_none gateway
validate-Sound_example = (validate-Sound whole ascii_lower compiles_none gateway).0 gateway_valid

build_state-validate_example :
    is_ok (build_state whole ascii_lower gateway none)
    ≡ (types_known gateway.providers && backends_known ascii_lower gateway.search)
build_state-validate_example =
    build_state-validate whole ascii_lower compiles_none gateway none gateway_valid

gateway_builds : is_ok (build_state whole ascii_lower gateway none) ≡ true
unfolding build_state adapter_of lookup insert failure_rules_policy FailureRules.new
gateway_builds = refl

abbrev built : (st : ServerState whole.F) × (build_state whole ascii_lower gateway none ≡ ok st)
built = is_ok-value (build_state whole ascii_lower gateway none) gateway_builds

abbrev first : Process whole.F
first = first_process whole ascii_lower no_file gateway services built.0

-- Started, edited through the admin API, and signalled.
Reach-IsRunning_example : IsRunning whole ascii_lower no_file services (
    reload_signal whole ascii_lower no_file
      (some moved)
      (apply whole ascii_lower no_file moved (some []) first).0)
Reach-IsRunning_example =
    Reach-IsRunning whole ascii_lower no_file services _
      (signalled (some moved) _ (edited moved [] _ (started gateway built.0 built.1)))

apply-validate_apply_example :
    ((apply whole ascii_lower no_file moved none first).1
      ≡ validate_apply whole ascii_lower no_file moved none first)
    × ((apply whole ascii_lower no_file moved none first).0 ≡ (
        if is_some (validate_apply whole ascii_lower no_file moved none first)
        then first
        else (apply whole ascii_lower no_file moved none first).0))
    × ((apply whole ascii_lower no_file moved none first).0.active ≡ (
        if is_some (validate_apply whole ascii_lower no_file moved none first)
        then first.active
        else effective moved none first.active))
apply-validate_apply_example = apply-validate_apply whole ascii_lower no_file moved none first

run_edits-bootstrap_example :
    bootstrap whole ascii_lower no_file
      (run_edits whole ascii_lower no_file ((moved, []) ∷ []) first)
    ≡ bootstrap whole ascii_lower no_file first
run_edits-bootstrap_example = run_edits-bootstrap whole ascii_lower no_file ((moved, []) ∷ []) first
