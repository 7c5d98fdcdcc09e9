-- ===== src/Server/Prepare.antt =====
-- internal/server/server.go: `prepareRequest`. Of the body it reads the name of the model, which is a
-- parameter; the multiplier of the route's cost is left out.
use token_route.Base.{
  ℕ, Bool, true, false, any, Option, none, some, List, [], ◌∷◌, map, length, ◌==◌, if◌then◌else◌,
}
use token_route.Base.Int.{pos, ltb_ℤ}
use token_route.Base.Text.{Text, text_eq}
use token_route.Base.Time.{Instant}
use token_route.Base.Float.{Float64}
use token_route.RateLimit.Registry.{Registry}
use token_route.Router.Defs.{Router, Route, Candidate, Strategy, Provider}
use token_route.Router.Lookups.{resolve, resolve_alias}
use token_route.Router.Order.{Draws, Demand, order_candidates_caps}
use token_route.Server.Fallback.{Request, hash_ring_value, put_route}
use token_route.Server.Keys.{
  ApiKey, Refusal, missing_model, no_provider, group_forbidden, check_key,
}

-- What a granted request goes on with; `counted` tells that the key's daily count goes up by one.
pub record Ready (F : Type 0) : Type 0 where
  pub model : Text
  pub candidates : List Candidate
  pub strategy : Option Strategy
  pub router : Router F
  pub limiter : Option (Registry F)
  pub counted : Bool

pub data Prepared (F : Type 0) : Type 0 where
  refused : Refusal → Option (Registry F) → Bool → Prepared F
  ready : Ready F → Prepared F

-- `groupsIntersect`: an empty side is a wildcard.
unfoldable pub groups_intersect : List Text → List Text → Bool
groups_intersect [] b = true
groups_intersect (g ∷ a) [] = true
groups_intersect (g ∷ a) (h ∷ b) = any (λ x. any (text_eq x) (h ∷ b)) (g ∷ a)

-- The loop over the candidates for a key with groups.
unfoldable pub filter_groups : List Text → List Candidate → List Candidate
unfolding groups_intersect
filter_groups groups [] = []
filter_groups groups (c ∷ cs) =
    let rest = filter_groups groups cs in
    if groups_intersect groups c.groups then c ∷ rest else rest

-- A request without a route goes to every provider under its own model.
abbrev passthrough : Text → Provider → Candidate
passthrough model p = record { provider = p; model = model; weight = pos 0; groups = []; tags = [] }

module _ {F : Type 0} where
  abbrev pub key_groups : Option (ApiKey F) → List Text
  key_groups none = []
  key_groups (some k) = k.groups

  abbrev key_daily : Option (ApiKey F) → Bool
  key_daily none = false
  key_daily (some k) = ltb_ℤ (pos 0) k.daily_quota

  abbrev pub in_groups : Ready F → List Candidate → Prepared F
  in_groups p [] = refused group_forbidden p.limiter p.counted
  in_groups p (c ∷ cs) = ready (record p { candidates = c ∷ cs })

  abbrev pub of_groups : List Text → Ready F → Prepared F
  of_groups [] p = ready p
  of_groups (g ∷ groups) p = in_groups p (filter_groups (g ∷ groups) p.candidates)

  -- The end of the function: some candidate is left, and the key's groups allow one of them.
  unfoldable pub with_access : List Text → Ready F → Prepared F
  unfolding filter_groups
  with_access groups p =
      if length p.candidates == 0
      then refused no_provider p.limiter p.counted
      else of_groups groups p

module _ (fl : Float64) (lower : ℕ → ℕ) (now : Instant) (d : Draws) (q : Request) where
  open fl use {F}

  abbrev demand_of : Route → Demand
  demand_of rt = record {
    selector = q.selector;
    hash_value = hash_ring_value rt q.header q.key;
    required = q.required;
  }

  abbrev ordered : Text → Route → Router F × Route × List Candidate → Ready F → Ready F
  ordered model rt (r, rt', cs) p = record p {
    candidates = cs;
    strategy = some rt.strategy;
    router = record r { routes = put_route model rt' r.routes };
  }

  abbrev pub candidates_of : Option Route → Ready F → Ready F
  candidates_of none p = record p { candidates = map (passthrough p.model) p.router.providers }
  candidates_of (some rt) p =
      ordered p.model rt (order_candidates_caps fl lower now d (demand_of rt) rt p.router) p

  -- The candidates of the model's route, or of all providers.
  unfoldable pub find_candidates : Ready F → Ready F
  unfolding resolve
  find_candidates p = candidates_of (resolve p.model p.router) p

  abbrev pub checked :
      Text → Option (ApiKey F) → Router F → Option (Registry F) × Option Refusal → Prepared F
  checked model key r (l, some refusal) = refused refusal l false
  checked model key r (l, none) = with_access (key_groups key) (
      find_candidates (record {
        model = model;
        candidates = [];
        strategy = none;
        router = r;
        limiter = l;
        counted = key_daily key;
      }))

  abbrev pub key_check :
      Text → Option (ApiKey F) → Option (Registry F) → Option (Registry F) × Option Refusal
  key_check model none limiter = (limiter, none)
  key_check model (some k) limiter = check_key fl now q.header model k limiter

  -- `prepareRequest`, for the name of a model that the body gives; an empty one is missing.
  unfoldable pub prepare_request :
      Text → Option (ApiKey F) → Option (Registry F) → Router F → Prepared F
  unfolding with_access find_candidates
  prepare_request [] key limiter r = refused missing_model limiter false
  prepare_request (x ∷ name) key limiter r =
      let model = resolve_alias (x ∷ name) r in checked model key r (key_check model key limiter)
