-- ===== src/Server/Hops.antt =====
-- internal/server/server.go: that `runRoute` ends, and how.
use token_route.Base.{ℕ, zero, suc, ◌+◌, ◌≡◌, refl, ap, arith, true, Option, none, some, List, leb}
use token_route.Base.Text.{Text}
use token_route.Base.Float.{Float64}
use token_route.Prices.{is_some}
use token_route.Router.Defs.{Router, Candidate, Strategy}
use token_route.Server.Replies.{Setup, Response, Pass}
use token_route.Server.Fallback.{Request, Run, add_pass}
use token_route.Server.Rounds.{
  World, Round, finished, again, pass, round, rounds, rest_of, after_pass, note_served, start_run,
  run_route,
}

module _ (fl : Float64) (s : Setup fl.F) (w : World fl.F) (q : Request) where
  open fl use {F}

  -- In the fourth round the loop ends, whatever it would do in another one.
  last_round :
      (n : ℕ) (o : Option Response) (run : Run F) (loop : Run F → Option (Pass F))
      → leb 3 n ≡ true
      → is_some (rest_of fl s w q loop (after_pass fl s w q n o run)) ≡ true
  last_round n none run loop h = ground arith
  last_round n (some att) run loop h = refl

  rest_of-is_some :
      (loop : Run F → Option (Pass F)) (x : Round F)
      → ((run : Run F) → is_some (loop run) ≡ true)
      → is_some (rest_of fl s w q loop x) ≡ true
  rest_of-is_some loop (finished total) h = refl
  rest_of-is_some loop (again run) h = h run

  rounds-is_some :
      (fuel n : ℕ) (run : Run F)
      → leb 3 (n + fuel) ≡ true
      → is_some (rounds fl s w q (suc fuel) n run) ≡ true
  unfolding rounds round
  rounds-is_some zero n run h =
      let total = add_pass run.total (pass fl s w q run) in
      last_round n total.resp (record run { total = total }) (λ x. none) (ground arith)
  rounds-is_some (suc fuel) n run h =
      rest_of-is_some (rounds fl s w q (suc fuel) (n + 1)) (round fl s w q n run)
        (λ next. rounds-is_some fuel (n + 1) next (ground arith))

  -- `runRoute` ends after four rounds at most, whatever the upstreams answer and however the fallback
  -- routes refer to each other.
  pub run_route-ends :
      (model : Text) (cs : List Candidate) (strategy : Strategy) (r : Router F)
      → is_some (run_route fl s w q model cs strategy r) ≡ true
  unfolding run_route
  run_route-ends model cs strategy r =
      rounds-is_some 3 0 (start_run fl s w q model cs strategy r) refl

  -- When the first pass of `runRoute` yields an answer, the answer is relayed, after as many attempts
  -- as that pass made, and no fallback route is looked at: the only change after the pass is the
  -- affinity pin of the candidate that served.
  pub run_route-answer :
      (model : Text) (cs : List Candidate) (strategy : Strategy) (r : Router F) (att : Response)
      → let run = start_run fl s w q model cs strategy r in
        (pass fl s w q run).resp ≡ some att
        → run_route fl s w q model cs strategy r
          ≡ some (
              note_served fl s w q (w.clock 0) run.pin att (add_pass run.total (pass fl s w q run)))
  unfolding run_route rounds round add_pass
  run_route-answer model cs strategy r att h =
      let run = start_run fl s w q model cs strategy r in
      let done = record run { total = add_pass run.total (pass fl s w q run) } in
      ap (λ o. rest_of fl s w q (rounds fl s w q 3 1) (after_pass fl s w q 0 o done)) h
