-- ===== src/Server/Bound.antt =====
-- internal/server/server.go: how many calls the loop over the candidates makes.
use token_route.Base.{ℕ, suc, ◌+◌, ◌≤◌, ap, arith, Bool-cases, List, [], ◌∷◌, inl, inr, length}
use token_route.Base.Int.{ℤ}
use token_route.Base.Float.{Float64}
use token_route.Router.Defs.{Router, Candidate}
use token_route.Server.Replies.{Setup, Reply, transport_error, answered, Upstream}
use token_route.Server.Failover.{too_long, upstream_candidate, failover_pass}
-- The candidate that answered, with its answer.
use token_route.Server.Answers.{Outcome, outcome_of, first_answer, failover_pass-first_answer}

module _ (fl : Float64) (s : Setup fl.F) where
  open fl use {F}

  module _ (call : Upstream) (est : ℤ) where
    outcome_of-bound :
        (x : Reply) (up : Candidate) (n k : ℕ) (failed : Outcome)
        → n ≤ k
        → failed.0 ≤ k
        → (outcome_of fl s x up n failed).0 ≤ k
    outcome_of-bound (transport_error message) up n k failed h m = m
    outcome_of-bound (answered att) up n k failed h m = ground arith

    first_answer-bound :
        (r : Router F) (n : ℕ) (cs : List Candidate)
        → (first_answer fl s call est r n cs).0 ≤ n + length cs
    unfolding first_answer
    first_answer-bound r n [] = omega arith
    first_answer-bound r n (c ∷ cs) =
        let up = upstream_candidate fl s r c in
        let called =
          outcome_of-bound (call n c.provider.name up.model).reply up (n + 1) (n + suc (length cs))
            (first_answer fl s call est r (n + 1) cs) (omega arith)
            (omega (arith, first_answer-bound r (n + 1) cs)) in
        let passed = first_answer-bound r n cs in
        elim (Bool-cases (too_long fl s est c)) [
          | inl e ↦ rw e (omega (arith, passed))
          | inr e ↦ rw e called
        ]

    -- `failoverPass` makes at most one call for each candidate.
    pub failover_pass-bound :
        (cs : List Candidate) (r : Router F)
        → (failover_pass fl s call est cs r).attempts ≤ length cs
    failover_pass-bound cs r =
        let same = ap (λ o. o.0) (failover_pass-first_answer fl s call est cs r) in
        omega (arith, same, first_answer-bound r 0 cs)
