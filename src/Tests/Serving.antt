-- ===== src/Tests/Serving.antt =====
-- The path of a request at concrete inputs.
use mathlib.Core.List.{Perm}
use token_route.Base.{
  zero, suc, ◌≡◌, refl, true, not, any, ◌||◌, Option, none, some, List, [], ◌∷◌, ◌*◌, arith, map,
  if◌then◌else◌,
}
use token_route.Base.Int.{ℤ, pos}
use token_route.Base.Text.{Text, codes, text_eq}
use token_route.Base.Time.{second}
use token_route.Base.Dict.{lookup, text_key}
use token_route.Router.Defs.{Router, Route, Candidate, least_latency}
use token_route.Router.Lookups.{inflight_of, map_model}
use token_route.Router.Select.{admit}
use token_route.Router.Order.{Draws, Demand, order_candidates_caps}
use token_route.Router.Complete.{order_candidates_caps-perm}
use token_route.Router.Caps.{reorder_by_modalities}
use token_route.Router.Tiers.{tiers, accepts, reorder_by_modalities-tiers}
use token_route.Router.Pin.{pin_by_affinity, record_affinity_ttl}
use token_route.Router.Pinned.{serves, first_serves, pin_by_affinity-record_affinity_ttl}
use token_route.Server.Headers.{TimeParsers, retryable_status}
use token_route.Server.Replies.{Setup, Response, Attempt, Upstream, answered}
use token_route.Server.Failover.{too_long, failover_pass}
use token_route.Server.Answers.{chosen, first_answer, failover_pass-first_answer}
use token_route.Server.Balance.{closed, failover_pass-balanced}
use token_route.Tests.Floats.{whole, ascii_lower}
use token_route.Tests.Routing.{groq, mistral, route, router}

abbrev pub parsers : TimeParsers
parsers = record { http_time = λ v. none; go_duration = λ v. none }

abbrev pub setup : Setup ℤ
setup = record { prices = none; retry_policy = none; parsers = parsers; lower = ascii_lower }

abbrev pub overloaded : Response
overloaded = record {
  status = 429;
  header = (codes "Retry-After", codes "20") ∷ [];
  text = codes "slow down";
}

abbrev fine : Response
fine = record { status = 200; header = []; text = codes "hello" }

abbrev at_once : Response → Attempt
at_once att = record { instant = 100; latency = pos 5; reply = answered att }

-- The first call is refused, and the others are answered.
abbrev pub busy_then_fine : Upstream
busy_then_fine zero name model = at_once overloaded
busy_then_fine (suc n) name model = at_once fine

abbrev pub always_busy : Upstream
always_busy n name model = at_once overloaded

abbrev pub pair : List Candidate
pair = groq ∷ mistral ∷ []

failover_pass-first_answer_example :
    (
      (failover_pass whole setup busy_then_fine (pos 9) pair router).attempts,
      chosen (failover_pass whole setup busy_then_fine (pos 9) pair router),
    )
    ≡ first_answer whole setup busy_then_fine (pos 9) router 0 pair
failover_pass-first_answer_example =
    failover_pass-first_answer whole setup busy_then_fine (pos 9) pair router

second_answers :
    first_answer whole setup busy_then_fine (pos 9) router 0 pair ≡ (2, some (mistral, fine))
unfolding first_answer too_long retryable_status map_model lookup
second_answers = refl

failover_pass-balanced_example :
    inflight_of
      (codes "groq")
      (closed (failover_pass whole setup busy_then_fine (pos 9) pair router))
    ≡ inflight_of (codes "groq") router
failover_pass-balanced_example =
    failover_pass-balanced whole setup busy_then_fine (pos 9) pair router (codes "groq")

abbrev pub draws : Draws
draws = record { i = 0; j = 0; n = pos 0 }

abbrev demand : Demand
demand = record { selector = none; hash_value = []; required = codes "image" ∷ [] }

abbrev by_latency_route : Route
by_latency_route = record route { strategy = least_latency }

order_candidates_caps-perm_example :
    Perm
      (order_candidates_caps whole ascii_lower 600 draws demand by_latency_route router).2
      (map (λ p. p.1) (admit 600 none 0 pair router).1)
order_candidates_caps-perm_example =
    order_candidates_caps-perm whole ascii_lower 600 draws demand by_latency_route router

abbrev sighted : Text → Option (List Text)
sighted model = if text_eq model (codes "small") then some (codes "image" ∷ []) else some []

abbrev seeing : Router ℤ
seeing = record router { modalities = some sighted }

reorder_by_modalities-tiers_example :
    (reorder_by_modalities ascii_lower seeing (codes "image" ∷ []) pair
      ≡ tiers (λ c. accepts ascii_lower (some sighted) (codes "image" ∷ []) c.model) pair)
    × (reorder_by_modalities ascii_lower seeing [] pair ≡ pair)
    × (reorder_by_modalities ascii_lower
          (record seeing { modalities = none })
          (codes "image" ∷ [])
          pair
        ≡ pair)
reorder_by_modalities-tiers_example =
    reorder_by_modalities-tiers ascii_lower seeing (codes "image" ∷ []) pair

abbrev remembering : Router ℤ
remembering = record router { affinity = some (record { pins = []; ttl = pos (5 * second) }) }

pin_by_affinity-record_affinity_ttl_example :
    let recorded =
      record_affinity_ttl 100 7 (codes "mistral") (codes "small") (pos 0) remembering in
    let (out, hit) = (pin_by_affinity 200 7 pair recorded).1 in
    (hit ≡ any (serves (codes "mistral") (codes "small")) pair)
    × Perm out pair
    × ((not hit || first_serves (codes "mistral") (codes "small") out) ≡ true)
pin_by_affinity-record_affinity_ttl_example =
    pin_by_affinity-record_affinity_ttl 100 200 7 (codes "mistral") (codes "small") (pos 0)
      (record { pins = []; ttl = pos (5 * second) }) pair remembering refl (ground arith) refl refl
