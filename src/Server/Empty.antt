-- ===== src/Server/Empty.antt =====
-- internal/server/server.go: `runRoute` with a fallback route whose candidates are all refused.
use token_route.Base.{
  ℕ, ◌+◌, ◌≡◌, refl, ◌∙◌, ap, arith, Bool, true, false, Bool-cases, ◌&&◌, not, none, some, List, [],
  inl, inr, if◌then◌else◌,
}
use token_route.Base.Text.{Text}
use token_route.Base.Float.{Float64}
use token_route.Prices.{is_some}
use token_route.Router.Defs.{Router, Route, Candidate, Strategy}
use token_route.Router.Order.{order_candidates_caps}
use token_route.Server.Replies.{Setup, Pass, start_pass}
use token_route.Server.Failover.{failover_loop, failover_pass}
use token_route.Server.Answers.{if_true, if_false}
use token_route.Server.Fallback.{Request, Run, is_fusion, is_judge, add_pass, next_route}
use token_route.Server.Rounds.{
  World, finished, pass, round, rounds, rest_of, after_pass, after_failure, go_on, is_last,
  fallbacks, fall_back, enter, demand_of, start_run, run_route,
}

never {ℓ} : {A : Type ℓ} (a b : Bool) (x y : A) → (if a && b && false then x else y) ≡ y
never a b x y = ground arith

module _ (fl : Float64) (s : Setup fl.F) (w : World fl.F) (q : Request) where
  open fl use {F}

  loop_empty :
      (b : Bool) (run : Run F)
      → failover_loop fl s
          (λ n. w.upstream (run.total.attempts + n))
          q.tokens
          (if b then [] else [])
          (start_pass run.total.router)
        ≡ start_pass run.total.router
  unfolding failover_loop
  loop_empty true run = refl
  loop_empty false run = refl

  -- A round without candidates leaves no candidate and no answer.
  pass_empty : (run : Run F) → run.candidates ≡ [] → pass fl s w q run ≡ start_pass run.total.router
  unfolding pass failover_pass
  pass_empty run h = rw h (
      never (is_fusion run.strategy) (not q.stream) _ _
      ∙ never (is_judge run.strategy) (is_some run.current) _ _
      ∙ loop_empty (run.pin.hit && run.pin.skip_retry) run)

  after_failure-dead :
      (n : ℕ) (run : Run F)
      → fallbacks fl s w q run.current ≡ []
      → after_failure fl s w q n run ≡ finished run.total
  unfolding next_route
  after_failure-dead n run h = elim (Bool-cases (is_last fl s w q n run)) [
    | inl e ↦ if_true _ _ _ e
    | inr e ↦
        if_false _ _ _ e
        ∙ ap (λ names. go_on fl s w q n (next_route names run.visited run.total.router) run) h
  ]

  round_empty :
      (n : ℕ) (run : Run F)
      → run.candidates ≡ []
      → fallbacks fl s w q run.current ≡ []
      → round fl s w q n run ≡ finished (add_pass run.total (start_pass run.total.router))
  unfolding round add_pass
  round_empty n run h f =
      let ended = λ (p : Pass F).
        after_pass fl s w q n (add_pass run.total p).resp
          (record run { total = add_pass run.total p }) in
      ap ended (pass_empty run h)
      ∙ after_failure-dead n
          (record run { total = add_pass run.total (start_pass run.total.router) }) f

  enter_empty :
      (n : ℕ) (name : Text) (rt : Route) (run : Run F) (x : Router F × Route × List Candidate)
      → x.2 ≡ []
      → ((enter fl s w q n name rt run x).candidates ≡ [])
        × ((enter fl s w q n name rt run x).current ≡ some rt)
  enter_empty n name rt run (r, rt', cs) h = rw h (refl, refl)

  -- `runRoute` forgets which candidate it tried when it goes on to a fallback route that has no usable
  -- candidate and no further fallback route: if the first pass fails, its results name no candidate
  -- at all, although the first pass had tried some.
  pub run_route-empty_fallback :
      (model name : Text) (cs : List Candidate) (strategy : Strategy) (r : Router F) (next : Route)
      → let run = start_run fl s w q model cs strategy r in
        let done = record run { total = add_pass run.total (pass fl s w q run) } in
        (pass fl s w q run).resp ≡ none
        → is_last fl s w q 0 done ≡ false
        → next_route (fallbacks fl s w q run.current) done.visited done.total.router
          ≡ some (name, next)
        → (order_candidates_caps fl s.lower
            (w.clock 0)
            (w.draws 0)
            (demand_of fl s w q next)
            next
            done.total.router).2
          ≡ []
        → next.fallback_routes ≡ []
        → (p : Pass F) × (run_route fl s w q model cs strategy r ≡ some p) × (p.cand ≡ none)
  unfolding run_route rounds round add_pass fall_back
  run_route-empty_fallback model name cs strategy r next e l n o f =
      let run = start_run fl s w q model cs strategy r in
      let done = record run { total = add_pass run.total (pass fl s w q run) } in
      let moved = fall_back fl s w q 0 name next done in
      let (no_candidates, current) = enter_empty 0 name next done _ o in
      let first =
        ap (λ o. after_pass fl s w q 0 o done) e
        ∙ if_false _ _ _ l
        ∙ ap (λ o. go_on fl s w q 0 o done) n in
      let second = round_empty 1 moved no_candidates (ap (fallbacks fl s w q) current ∙ f) in
      (
        add_pass moved.total (start_pass moved.total.router),
        ap (rest_of fl s w q (rounds fl s w q 3 1)) first
            ∙ ap (rest_of fl s w q (rounds fl s w q 2 2)) second,
        refl,
      )
