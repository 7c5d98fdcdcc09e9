-- ===== src/Tests/Requests.antt =====
-- Requests and fallback routes at concrete inputs.
use token_route.Base.{◌≡◌, refl, Bool, true, false, Option, none, some, [], ◌∷◌}
use token_route.Base.Int.{ℤ, pos}
use token_route.Base.Text.{codes}
use token_route.Base.Dict.{lookup, insert, text_key}
use token_route.Tags.Defs.{match_tags}
use token_route.Prices.{is_some, get_price}
use token_route.Circuit.Ops.{allow as ask_breaker}
use token_route.RateLimit.Bucket.{new_bucket, refill, allow, remaining}
use token_route.RateLimit.Registry.{
  Registry, new as new_registry, ensure, get, allow_rpm, rpm_remaining, tpm_remaining,
}
use token_route.Router.Defs.{Router, Route, priority}
use token_route.Router.Lookups.{map_model, resolve, resolve_alias, find_route, is_model_locked}
use token_route.Router.Select.{admit, ask, circuit_allow}
use token_route.Router.Order.{arrange, order_candidates_caps}
use token_route.Router.Caps.{reorder_by_modalities}
use token_route.Server.Replies.{Setup, Pass}
use token_route.Server.Failover.{failover_loop, try_candidate, too_long, failover_pass}
use token_route.Server.Fallback.{Request, route_pin, next_route, add_pass}
use token_route.Server.Rounds.{World, pass, run_route}
use token_route.Server.Hops.{run_route-ends}
use token_route.Server.Empty.{run_route-empty_fallback}
use token_route.Server.Keys.{ApiKey, check_key, limit_request, limit_identity}
use token_route.Server.Prepare.{Prepared, Ready, refused, ready, prepare_request}
use token_route.Server.Granted.{Granted, prepare_request-Granted}
use token_route.Tests.Floats.{whole, ascii_lower}
use token_route.Tests.Routing.{groq, mistral, route, router}
use token_route.Tests.Serving.{setup, always_busy, draws}

abbrev spare : Route
spare = record route { model = codes "spare"; strategy = priority; candidates = mistral ∷ [] }

abbrev main : Route
main = record route {
  strategy = priority;
  candidates = groq ∷ [];
  fallback_routes = codes "spare" ∷ [];
}

abbrev backed : Router ℤ
backed = record router { routes = main ∷ spare ∷ [] }

abbrev world : World ℤ
world = record {
  clock = λ n. 100;
  draws = λ n. draws;
  upstream = always_busy;
  swapped = λ n. false;
  judge_run = λ rt cs r. failover_pass whole setup always_busy (pos 9) cs r;
}

abbrev request : Request
request = record {
  header = [];
  key = [];
  selector = none;
  required = [];
  prefix_hash = 7;
  stream = false;
  tokens = pos 9;
}

run_route-ends_example :
    is_some (run_route whole setup world request (codes "chat") (groq ∷ []) priority backed) ≡ true
run_route-ends_example =
    run_route-ends whole setup world request (codes "chat") (groq ∷ []) priority backed

-- A model of four tokens, which the request exceeds.
abbrev small_model : Setup ℤ
small_model = record setup {
  prices = some (
      (
        codes "llama",
        record {
          prompt_per_1m = pos 1;
          completion_per_1m = pos 1;
          embed_per_1m = pos 0;
          context_tokens = pos 4;
          pricing_expr = [];
        },
      )
      ∷ []);
}

run_route-empty_fallback_example :
    (p : Pass ℤ) × (run_route whole small_model world request
        (codes "chat")
        (groq ∷ [])
        priority
        backed
      ≡ some p)
    × (p.cand ≡ none)
unfolding pass failover_pass failover_loop try_candidate too_long lookup get_price route_pin resolve
    find_route next_route order_candidates_caps admit ask circuit_allow is_model_locked match_tags
    arrange reorder_by_modalities map_model add_pass
run_route-empty_fallback_example =
    run_route-empty_fallback whole small_model world request (codes "chat") (codes "spare")
      (groq ∷ []) priority backed spare refl refl refl refl refl

abbrev key : ApiKey ℤ
key = record {
  id = pos 4;
  enabled = true;
  expires_at = none;
  allowed_models = codes "chat" ∷ [];
  groups = codes "free" ∷ [];
  quota_tokens = pos 1000;
  spent_tokens = pos 10;
  budget_usd = pos 0;
  spent_usd = pos 2;
  daily_quota = pos 0;
  daily_used = pos 0;
  rpm = pos 60;
  model_rpm = pos 0;
  tpm = pos 0;
  limit_by_header = [];
}

abbrev limiter : Option (Registry ℤ)
limiter = some new_registry

-- Two candidates of which the key shares a group with the first.
abbrev split : Router ℤ
split = record router {
  routes =
      record main {
        candidates =
            record groq { groups = codes "paid" ∷ codes "free" ∷ [] }
            ∷ record mistral { model = codes "large"; groups = codes "paid" ∷ [] }
            ∷ [];
      }
      ∷ [];
  aliases = (codes "gpt", codes "chat") ∷ [];
}

abbrev prepared : Prepared ℤ
prepared =
    prepare_request whole ascii_lower 600 draws request (codes "gpt") (some key) limiter split

abbrev is_ready : Prepared ℤ → Bool
is_ready (refused refusal l counted) = false
is_ready (ready p) = true

is_ready-value : (x : Prepared ℤ) → is_ready x ≡ true → (p : Ready ℤ) × (x ≡ ready p)
is_ready-value (refused refusal l counted) h = cc
is_ready-value (ready p) h = (p, refl)

lets_through : is_ready prepared ≡ true
unfolding prepare_request check_key resolve_alias lookup insert limit_request limit_identity
    allow_rpm rpm_remaining tpm_remaining ensure get allow remaining new_bucket refill new_registry
    find_route resolve order_candidates_caps admit ask circuit_allow is_model_locked match_tags
    arrange reorder_by_modalities map_model ask_breaker
lets_through = refl

abbrev granted : (p : Ready ℤ) × (prepared ≡ ready p)
granted = is_ready-value prepared lets_through

prepare_request-Granted_example :
    Granted whole (resolve_alias (codes "gpt") split) (some key) granted.0
prepare_request-Granted_example =
    prepare_request-Granted whole ascii_lower 600 draws request (codes "gpt") (some key) limiter
      split granted.0 granted.1
