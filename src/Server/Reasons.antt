-- ===== src/Server/Reasons.antt =====
-- internal/server/server.go: what the loop over the candidates reports.
use token_route.Base.{◌≡◌, ◌∙◌, ap, arith, Bool, true, ◌||◌, Bool-cases, List, ◌∷◌, inl, inr}
use token_route.Base.Int.{ℤ}
use token_route.Base.Dict.{text_key}
use token_route.Base.Float.{Float64}
use token_route.Prices.{is_some}
use token_route.Router.Defs.{Router, Candidate}
use token_route.Router.Lookups.{map_model}
use token_route.Server.Headers.{retryable_status}
use token_route.Server.Replies.{
  start_pass, Setup, Reply, transport_error, answered, Attempt, Upstream, Pass,
}
use token_route.Server.Failover.{
  skipped, started, too_long, on_reply, attempt, try_candidate, failover_loop, failover_pass,
}
use token_route.Server.Answers.{if_true, if_false, failed_with, relayed_with}
use token_route.Server.Balance.{if-holds, failover_loop-invariant}

-- The loop's variables hold an answer, a failing response or an error.
abbrev pub explained : {F : Type 0} → Pass F → Bool
explained p = is_some p.resp || (is_some p.last_fail || is_some p.last_err)

module _ (fl : Float64) (s : Setup fl.F) where
  open fl use {F}

  module _ (call : Upstream) (est : ℤ) where
    on_reply-explained :
        (a : Attempt) (y : Reply) (c : Candidate) (st : Pass F)
        → explained (on_reply fl s a y c st) ≡ true
    unfolding on_reply
    on_reply-explained a (transport_error message) c st = ground arith
    on_reply-explained a (answered att) c st =
        let again = retryable_status s.retry_policy att.status in
        let lost = failed_with fl s a att c st in
        let won = relayed_with fl s a att c st in
        elim (Bool-cases again) [
          | inl e ↦ ap explained (if_true again lost won e) ∙ ground arith
          | inr e ↦ ap explained (if_false again lost won e)
        ]

    try_candidate-explained :
        (c : Candidate) (st : Pass F) → explained (try_candidate fl s call est c st) ≡ true
    unfolding try_candidate attempt
    try_candidate-explained c st =
        let guard = too_long fl s est c in
        let passed = skipped fl s call est c st in
        let asked = attempt fl s call est c st in
        let a = call st.attempts c.provider.name (map_model c.provider.name c.model st.router) in
        elim (Bool-cases guard) [
          | inl e ↦ ap explained (if_true guard passed asked e) ∙ ground arith
          | inr e ↦
              ap explained (if_false guard passed asked e)
              ∙ on_reply-explained a a.reply c (started fl s call est c st)
        ]

    -- With at least one candidate, `failoverPass` returns an answer, a failing response or an error:
    -- a request never fails without a reason that can be reported.
    pub failover_pass-explained :
        (c : Candidate) (cs : List Candidate) (r : Router F)
        → explained (failover_pass fl s call est (c ∷ cs) r) ≡ true
    unfolding failover_pass failover_loop
    failover_pass-explained c cs r =
        let tried = try_candidate fl s call est c (start_pass r) in
        if-holds (λ p. explained p ≡ true) tried.resp tried _
          (try_candidate-explained c (start_pass r))
          (λ k.
            failover_loop-invariant fl s call est (λ p. explained p ≡ true)
              (λ d st h i. try_candidate-explained d st) cs tried k
              (try_candidate-explained c (start_pass r)))
