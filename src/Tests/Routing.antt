-- ===== src/Tests/Routing.antt =====
-- Routes and the router at concrete inputs.
use token_route.Base.{ℕ, ◌≡◌, refl, false, none, List, [], ◌∷◌, map}
use token_route.Base.Int.{ℤ, pos}
use token_route.Base.Dict.{lookup, text_key}
use token_route.Base.Text.{codes}
use token_route.Tags.Defs.{match_tags}
use token_route.Router.Defs.{Router, Route, Candidate, lkgp}
use token_route.Router.Select.{admit}
use token_route.Router.Filter.{eligible, admit_steady}
use token_route.Router.Orders.{by_weight, total_weight}
use token_route.Router.Weighted.{by_weight_intervals}
use token_route.Tests.Breakers.{rested, opened}

abbrev pub groq : Candidate
groq = record {
  provider = record { name = codes "groq"; rank = pos 1 };
  model = codes "llama";
  weight = pos 3;
  groups = [];
  tags = codes "fast" ∷ [];
}

abbrev pub mistral : Candidate
mistral = record {
  provider = record { name = codes "mistral"; rank = pos 2 };
  model = codes "small";
  weight = pos 2;
  groups = [];
  tags = [];
}

abbrev pub route : Route
route = record {
  model = codes "chat";
  strategy = lkgp;
  candidates = groq ∷ mistral ∷ [];
  fallback_routes = [];
  prompt_cache_affinity = false;
  affinity_key_header = [];
  affinity_ttl = pos 0;
  hash_on = [];
  affinity_skip_retry = false;
  sticky = pos 2;
  rr = 0;
  last_good = [];
  sticky_idx = 0;
  sticky_count = 0;
}

abbrev pub router : Router ℤ
router = record {
  providers = groq.provider ∷ mistral.provider ∷ [];
  routes = route ∷ [];
  affinity_default = false;
  circuits = (codes "groq", rested) ∷ [];
  latency = [];
  err_rate = [];
  mappings = [];
  model_lock = (codes "mistral|small", 500) ∷ [];
  windows = (codes "groq", record { start = 0; reqs = 4; toks = pos 90 }) ∷ [];
  inflight = (codes "groq", 1) ∷ [];
  prices = none;
  quota = record { rows = []; balance_low = [] };
  aliases = [];
  affinity = none;
  modalities = none;
  failure_rules = none;
}

abbrev probing : Router ℤ
probing = record router { circuits = (codes "groq", opened) ∷ [] }

admit_steady_example :
    map (λ p. p.1) (admit 100 none 0 (groq ∷ mistral ∷ []) router).1
    ≡ eligible 100 none router (groq ∷ mistral ∷ [])
unfolding lookup
admit_steady_example = admit_steady 100 none 0 (groq ∷ mistral ∷ []) router (refl, (refl, _))

only_groq : eligible 100 none router (groq ∷ mistral ∷ []) ≡ groq ∷ []
unfolding lookup match_tags
only_groq = refl

abbrev admitted : List (ℕ × Candidate)
admitted = (0, groq) ∷ (1, mistral) ∷ []

abbrev candidates : List Candidate
candidates = groq ∷ mistral ∷ []

by_weight_intervals_example : by_weight (pos 4) (groq ∷ mistral ∷ []) ≡ mistral ∷ groq ∷ []
unfolding total_weight
by_weight_intervals_example = by_weight_intervals (groq ∷ []) [] mistral 1 (refl, _) refl
