-- ===== src/Server/Rounds.antt =====
-- internal/server/server.go: `runRoute`, which passes over a route's candidates and, when all of them
-- fail, over those of its fallback routes. The run of internal/server/fusionjudge.go is a parameter,
-- as are the clock, the random draws, the upstreams and which arm of a race answers first.
use token_route.Base.{
  ℕ, zero, suc, ◌+◌, Bool, ◌||◌, ◌&&◌, not, Option, none, some, List, [], ◌∷◌, ltb, leb, ◌==◌,
  if◌then◌else◌, length, take,
}
use token_route.Base.Text.{Text}
use token_route.Base.Time.{Instant}
use token_route.Base.Float.{Float64}
use token_route.Prices.{is_some}
use token_route.Router.Defs.{Router, Route, Candidate, Strategy}
use token_route.Router.Lookups.{resolve}
use token_route.Router.Order.{Draws, Demand, order_candidates_caps}
use token_route.Router.Pin.{record_affinity_ttl}
use token_route.Server.Replies.{Setup, Response, Upstream, Pass, start_pass}
use token_route.Server.Failover.{failover_pass}
use token_route.Server.Fusion.{fusion_run}
use token_route.Server.Fallback.{
  Request, Pin, Run, is_fusion, is_judge, hash_ring_value, route_pin, no_pin, pinning, put_route,
  next_route, add_pass, with_candidates,
}

-- What a round leads to: the results, or one more round.
pub data Round (F : Type 0) : Type 0 where
  finished : Pass F → Round F
  again : Run F → Round F

-- What happens around a round: the time, the draws, the upstreams by the number of the call, and
-- whether the second arm of a race answers first.
pub record World (F : Type 0) : Type 0 where
  pub clock : ℕ → Instant
  pub draws : ℕ → Draws
  pub upstream : Upstream
  pub swapped : ℕ → Bool
  pub judge_run : Option Route → List Candidate → Router F → Pass F

module _ (fl : Float64) (s : Setup fl.F) (w : World fl.F) (q : Request) where
  open fl use {F}

  abbrev is_hit : Pin → Bool
  is_hit p = p.hit && p.skip_retry

  -- The candidates that a pass may try: on a hit with `skip_retry` only the pinned one.
  abbrev pub tried_candidates : Run F → List Candidate
  tried_candidates run = if is_hit run.pin then take 1 run.candidates else run.candidates

  -- `s.fusionRun(ctx, hdr, body, candidates[:2])`, which is called with two candidates or more.
  abbrev pub race : Upstream → Bool → List Candidate → Router F → Pass F
  race call swapped [] r = start_pass r
  race call swapped (c ∷ []) r = start_pass r
  race call swapped (c ∷ d ∷ cs) r = fusion_run fl s call swapped c d r

  -- The run of one round, by the strategy.
  unfoldable pub pass : Run F → Pass F
  unfolding fusion_run
  pass run =
      let r = run.total.router in
      let many = ltb 1 (length run.candidates) in
      if is_fusion run.strategy && not q.stream && many
      then race (λ n. w.upstream (run.total.attempts + n)) (w.swapped run.total.attempts)
          run.candidates r
      else (if is_judge run.strategy && is_some run.current && many
          then w.judge_run run.current run.candidates r
          else failover_pass fl s (λ n. w.upstream (run.total.attempts + n)) q.tokens
              (tried_candidates run) r)

  abbrev pin_served : Instant → Pin → Option Candidate → Response → Router F → Router F
  pin_served now p none att r = r
  pin_served now p (some c) att r =
      if pinning p && ltb att.status 500
      then record_affinity_ttl now p.hash c.provider.name c.model p.ttl r
      else r

  -- The provider and the model that served the request are pinned.
  unfoldable pub note_served : Instant → Pin → Response → Pass F → Pass F
  note_served now p att total = record total {
    router = pin_served now p total.cand att total.router;
  }

  abbrev pub demand_of : Route → Demand
  demand_of rt = record {
    selector = q.selector;
    hash_value = hash_ring_value rt q.header q.key;
    required = q.required;
  }

  -- The round with the candidates of a fallback route. One without usable candidates takes its place
  -- as the current route, and the others of the loop's variables stay.
  abbrev pub enter : ℕ → Text → Route → Run F → Router F × Route × List Candidate → Run F
  enter n name rt run (r, rt', cs) =
      let r' = record r { routes = put_route name rt' r.routes } in
      let moved = record run {
        total = record (run.total) { router = r' };
        current = some rt;
        visited = name ∷ run.visited;
      } in
      if length cs == 0
      then record moved { candidates = [] }
      else with_candidates (w.clock n) cs (route_pin q rt r') r'
          (record moved { strategy = rt.strategy })

  unfoldable pub fall_back : ℕ → Text → Route → Run F → Run F
  fall_back n name rt run =
      enter n name rt run (
        order_candidates_caps fl s.lower (w.clock n) (w.draws n) (demand_of rt) rt run.total.router)

  abbrev pub go_on : ℕ → Option (Text × Route) → Run F → Round F
  go_on n none run = finished run.total
  go_on n (some (name, rt)) run = again (fall_back n name rt run)

  abbrev pub fallbacks : Option Route → List Text
  fallbacks none = []
  fallbacks (some rt) = rt.fallback_routes

  -- Whether the loop ends without looking for a fallback route.
  abbrev pub is_last : ℕ → Run F → Bool
  is_last n run = not (is_some run.current) || leb 3 n || is_hit run.pin

  abbrev pub after_failure : ℕ → Run F → Round F
  after_failure n run =
      if is_last n run
      then finished run.total
      else go_on n (next_route (fallbacks run.current) run.visited run.total.router) run

  abbrev pub after_pass : ℕ → Option Response → Run F → Round F
  after_pass n none run = after_failure n run
  after_pass n (some att) run = finished (note_served (w.clock n) run.pin att run.total)

  -- The body of the loop, in the round with the number `n`.
  unfoldable pub round : ℕ → Run F → Round F
  unfolding pass note_served fall_back next_route add_pass
  round n run =
      let total = add_pass run.total (pass run) in
      after_pass n total.resp (record run { total = total })

  abbrev pub rest_of : (Run F → Option (Pass F)) → Round F → Option (Pass F)
  rest_of loop (finished total) = some total
  rest_of loop (again run) = loop run

  -- The loop, with the rounds counted; `none` is a loop that has not ended yet.
  unfoldable pub rounds : ℕ → ℕ → Run F → Option (Pass F)
  unfolding round
  rounds zero n run = none
  rounds (suc fuel) n run = rest_of (rounds fuel (n + 1)) (round n run)

  -- The variables as the loop starts.
  abbrev pub start_run : Text → List Candidate → Strategy → Router F → Run F
  start_run model cs strategy r =
      let run : Run F = record {
        total = start_pass r;
        candidates = cs;
        strategy = strategy;
        current = resolve model r;
        visited = model ∷ [];
        pin = no_pin;
      } in
      elim (resolve model r) [
        | none ↦ run
        | some rt ↦ with_candidates (w.clock 0) cs (route_pin q rt r) r run
      ]

  -- `runRoute`; its loop runs four times at most.
  unfoldable pub run_route : Text → List Candidate → Strategy → Router F → Option (Pass F)
  unfolding rounds
  run_route model cs strategy r = rounds 4 0 (start_run model cs strategy r)
