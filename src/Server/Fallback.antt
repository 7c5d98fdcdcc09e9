-- ===== src/Server/Fallback.antt =====
-- internal/server/server.go: the variables of `runRoute`, the keys of its pins and its search for a
-- fallback route.
use token_route.Base.{
  ℕ, ◌+◌, Bool, true, false, ◌||◌, ◌&&◌, not, any, Option, none, some, List, [], ◌∷◌, ◌==◌,
  if◌then◌else◌, drop,
}
use token_route.Base.Int.{ℤ, pos}
use token_route.Base.Text.{Text, codes, text_eq, has_prefix}
use token_route.Base.Time.{Instant, Duration}
use token_route.Tags.Defs.{TagSelector}
use token_route.Affinity.Defs.{header_key_hash}
use token_route.RetryPolicy.Defs.{is_blank}
use token_route.Router.Defs.{
  Router, Route, Candidate, Strategy, fusion, fusion_judge, consistent_hash,
}
use token_route.Router.Lookups.{resolve}
use token_route.Router.Pin.{pin_by_affinity}
use token_route.Server.Headers.{Header, get_header}
use token_route.Server.Replies.{Pass}

-- What the request brings. The hash is `CachePrefixHash` of its body.
pub record Request : Type 0 where
  pub header : Header
  pub key : Text
  pub selector : Option TagSelector
  pub required : List Text
  pub prefix_hash : ℕ
  pub stream : Bool
  pub tokens : ℤ

pub data KeySource : Type 0 where
  no_key header_key prefix_key : KeySource

-- `affinityOn`, `pinHash`, `pinTTL`, `skipRetry` and `affinityInfo`.
pub record Pin : Type 0 where
  pub on : Bool
  pub hash : ℕ
  pub ttl : Duration
  pub skip_retry : Bool
  pub source : KeySource
  pub hit : Bool

-- The variables of the loop; `total` holds the results.
pub record Run (F : Type 0) : Type 0 where
  pub total : Pass F
  pub candidates : List Candidate
  pub strategy : Strategy
  pub current : Option Route
  pub visited : List Text
  pub pin : Pin

abbrev pub is_fusion : Strategy → Bool
is_fusion fusion = true
is_fusion _ = false

abbrev pub is_judge : Strategy → Bool
is_judge fusion_judge = true
is_judge _ = false

abbrev is_ring : Strategy → Bool
is_ring consistent_hash = true
is_ring _ = false

-- `hashRingValueHdr`
unfoldable pub hash_ring_value : Route → Header → Text → Text
hash_ring_value rt h key =
    let name = drop 7 rt.hash_on in
    if is_ring rt.strategy
    then (if has_prefix rt.hash_on (codes "header:") && not (is_blank name)
        then get_header name h
        else (if text_eq rt.hash_on (codes "key") then key else []))
    else []

-- The key of a route's pins for a request, and where it comes from.
abbrev pin_key : Request → Bool → Route → ℕ × KeySource
pin_key q on rt =
    let v = get_header rt.affinity_key_header q.header in
    if not (is_blank rt.affinity_key_header)
    then (if is_blank v then (0, no_key) else (header_key_hash v, header_key))
    else (if on then (q.prefix_hash, prefix_key) else (0, no_key))

-- `affinityOn`
abbrev pub affinity_on : {F : Type 0} → Route → Router F → Bool
affinity_on rt r =
    rt.prompt_cache_affinity || r.affinity_default || not (is_blank rt.affinity_key_header)

-- The pin of a route before its candidates are looked at. Of a route without affinity the time to
-- live and `skipRetry` are kept as well, and nothing reads them.
unfoldable pub route_pin : {F : Type 0} → Request → Route → Router F → Pin
route_pin q rt r =
    let on = affinity_on rt r in
    let (hash, source) = pin_key q on rt in
    record {
      on = on;
      hash = hash;
      ttl = rt.affinity_ttl;
      skip_retry = rt.affinity_skip_retry;
      source = source;
      hit = false;
    }

abbrev pub no_pin : Pin
no_pin = record {
  on = false;
  hash = 0;
  ttl = pos 0;
  skip_retry = false;
  source = no_key;
  hit = false;
}

abbrev pub pinning : Pin → Bool
pinning p = p.on && not (p.hash == 0)

-- `r.routes` after the strategy has moved the route's own counters.
unfoldable pub put_route : Text → Route → List Route → List Route
put_route name rt [] = []
put_route name rt (x ∷ xs) =
    let rest = put_route name rt xs in if text_eq x.model name then rt ∷ xs else x ∷ rest

-- The first fallback route that was not visited and exists.
unfoldable pub next_route : {F : Type 0} → List Text → List Text → Router F → Option (Text × Route)
unfolding resolve
next_route [] visited r = none
next_route (name ∷ names) visited r =
    let rest = next_route names visited r in
    if any (text_eq name) visited
    then rest
    else elim (resolve name r) [ none ↦ rest | some rt ↦ some (name, rt) ]

abbrev pub or_else {ℓ} : {A : Type ℓ} → Option A → Option A → Option A
or_else none o = o
or_else (some a) o = some a

-- The results so far, and those of one more pass.
unfoldable pub add_pass : {F : Type 0} → Pass F → Pass F → Pass F
add_pass total p = record p {
  last_fail = or_else p.last_fail total.last_fail;
  last_err = or_else p.last_err total.last_err;
  attempts = total.attempts + p.attempts;
}

-- `candidates = …` and its pin; a hit brings the pinned candidate forward.
abbrev pub with_candidates :
    {F : Type 0} → Instant → List Candidate → Pin → Router F → Run F → Run F
with_candidates now cs p r run =
    let (r', (out, hit)) = pin_by_affinity now p.hash cs r in
    if pinning p
    then record run {
      total = record (run.total) { router = r' };
      candidates = out;
      pin = record p { hit = hit };
    }
    else record run { total = record (run.total) { router = r }; candidates = cs; pin = p }
