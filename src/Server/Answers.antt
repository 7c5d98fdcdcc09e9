-- ===== src/Server/Answers.antt =====
-- internal/server/server.go: which candidate's answer the loop over the candidates relays.
use token_route.Base.{
  ℕ, ◌+◌, ◌≡◌, refl, sym, ◌∙◌, ap, Bool, true, false, Bool-cases, Option, none, some, List, [], ◌∷◌,
  inl, inr, if◌then◌else◌, ltb,
}
use token_route.Base.Int.{ℤ}
use token_route.Base.Text.{Text}
use token_route.Base.Float.{Float64}
use token_route.Prices.{is_some}
use token_route.Router.Defs.{Router, Candidate}
use token_route.Router.Lookups.{map_model, inc_inflight, dec_inflight, inflight_of}
use token_route.Server.Headers.{retryable_status, observe_upstream_quota}
use token_route.Server.Replies.{
  Setup, Response, Reply, transport_error, answered, Attempt, Upstream, Pass,
}
use token_route.Server.Failover.{
  skipped, started, too_long, upstream_candidate, on_reply, attempt, try_candidate, failover_loop,
  failover_pass, on_failure, on_answer,
}
use token_route.Server.Frames.{
  IsFrame, on_transport_error-IsFrame, on_failure-IsFrame, observe_upstream_quota-IsFrame,
}

-- The candidate that answered, with its answer.
abbrev chosen_of : Option Response → Option Candidate → Option (Candidate × Response)
chosen_of none o = none
chosen_of (some att) none = none
chosen_of (some att) (some c) = some (c, att)

abbrev pub chosen : {F : Type 0} → Pass F → Option (Candidate × Response)
chosen p = chosen_of p.resp p.cand

pub if_true {ℓ} : {A : Type ℓ} (b : Bool) (x y : A) → b ≡ true → (if b then x else y) ≡ x
if_true b x y e = rw e refl

pub if_false {ℓ} : {A : Type ℓ} (b : Bool) (x y : A) → b ≡ false → (if b then x else y) ≡ y
if_false b x y e = rw e refl

-- The calls that are made, and the answer that is relayed.
abbrev pub Outcome : Type 0
Outcome = ℕ × Option (Candidate × Response)

module _ (fl : Float64) (s : Setup fl.F) where
  open fl use {F}

  -- An answer that is not retried is the outcome; after a failure it is that of the others.
  abbrev pub outcome_of : Reply → Candidate → ℕ → Outcome → Outcome
  outcome_of (transport_error message) up n failed = failed
  outcome_of (answered att) up n failed =
      if retryable_status s.retry_policy att.status then failed else (n, some (up, att))

  inc_inflight-mappings : (name : Text) (r : Router F) → (inc_inflight name r).mappings ≡ r.mappings
  unfolding inc_inflight
  inc_inflight-mappings name r = refl

  dec_inflight-mappings : (name : Text) (r : Router F) → (dec_inflight name r).mappings ≡ r.mappings
  unfolding dec_inflight
  dec_inflight-mappings name r = elim (Bool-cases (ltb 0 (inflight_of name r))) [
    | inl e ↦ rw e refl
    | inr e ↦ rw e refl
  ]

  abbrev pub seen_by : Attempt → Response → Candidate → Pass F → Router F
  seen_by a att c st =
      observe_upstream_quota s.parsers a.instant c.provider.name
        (map_model c.provider.name c.model st.router) att.header st.router

  pub seen_by-IsFrame :
      (a : Attempt) (att : Response) (c : Candidate) (st : Pass F)
      → IsFrame st.router (seen_by a att c st)
  seen_by-IsFrame a att c st = observe_upstream_quota-IsFrame _ _ _ _ _ _

  upstream_candidate-mappings :
      (c : Candidate) (r r' : Router F)
      → r'.mappings ≡ r.mappings
      → upstream_candidate fl s r' c ≡ upstream_candidate fl s r c
  unfolding map_model
  upstream_candidate-mappings c r r' h = rw h refl

  -- What an answer leaves when its status is retried, and when it is relayed.
  abbrev pub failed_with : Attempt → Response → Candidate → Pass F → Pass F
  failed_with a att c st = record st {
    router = on_failure fl s a att c.provider.name c.model (seen_by a att c st);
    last_fail = some att;
    last_err = none;
  }

  abbrev pub relayed_with : Attempt → Response → Candidate → Pass F → Pass F
  relayed_with a att c st = record st {
    router = on_answer fl s a att c.provider.name c.model (seen_by a att c st);
    resp = some att;
  }

  failed_with-mappings :
      (a : Attempt) (att : Response) (c : Candidate) (st : Pass F)
      → (failed_with a att c st).router.mappings ≡ st.router.mappings
  failed_with-mappings a att c st =
      (on_failure-IsFrame fl s a att c.provider.name c.model _).mappings_kept
      ∙ dec_inflight-mappings c.provider.name _
      ∙ (seen_by-IsFrame a att c st).mappings_kept

  module _ (call : Upstream) (est : ℤ) where
    -- How many calls are made, the first with the number `n`, and the first answer that is relayed. A
    -- candidate whose context window is too small is not called, and one that fails is passed over.
    unfoldable pub first_answer : Router F → ℕ → List Candidate → Outcome
    first_answer r n [] = (n, none)
    first_answer r n (c ∷ cs) =
        let up = upstream_candidate fl s r c in
        let skipped = first_answer r n cs in
        let failed = first_answer r (n + 1) cs in
        if too_long fl s est c
        then skipped
        else outcome_of ((call n c.provider.name up.model).reply) up (n + 1) failed

    abbrev resumed : List Candidate → Pass F → Pass F
    resumed cs tried =
        let rest = failover_loop fl s call est cs tried in
        if is_some tried.resp then tried else rest

    abbrev outcome : Pass F → Outcome
    outcome p = (p.attempts, chosen p)

    resumed-none :
        (cs : List Candidate) (p : Pass F)
        → p.resp ≡ none
        → resumed cs p ≡ failover_loop fl s call est cs p
    resumed-none cs p h = if_false (is_some p.resp) _ _ (ap is_some h)

    resumed-some :
        (cs : List Candidate) (p : Pass F) (att : Response) → p.resp ≡ some att → resumed cs p ≡ p
    resumed-some cs p att h = if_true (is_some p.resp) _ _ (ap is_some h)

    -- After a reply the loop goes on with the others, or ends.
    outcome-resumed :
        (a : Attempt) (x : Reply) (c up : Candidate) (cs : List Candidate) (st : Pass F)
        (failed : Outcome)
        → st.resp ≡ none
        → st.cand ≡ some up
        → ((tried : Pass F)
            → tried.resp ≡ none
            → tried.router.mappings ≡ st.router.mappings
            → tried.attempts ≡ st.attempts
            → outcome (failover_loop fl s call est cs tried) ≡ failed)
        → outcome (resumed cs (on_reply fl s a x c st)) ≡ outcome_of x up st.attempts failed
    unfolding on_reply
    outcome-resumed a (transport_error message) c up cs st failed h k ih =
        let kept =
          (on_transport_error-IsFrame fl s a c.provider.name message st.router).mappings_kept in
        ap outcome (resumed-none cs _ h)
        ∙ ih _ h (kept ∙ dec_inflight-mappings c.provider.name st.router) refl
    outcome-resumed a (answered att) c up cs st failed h k ih =
        let again = retryable_status s.retry_policy att.status in
        let lost = failed_with a att c st in
        let won = relayed_with a att c st in
        elim (Bool-cases again) [
          | inl e ↦
              ap (λ p. outcome (resumed cs p)) (if_true again lost won e)
              ∙ ap outcome (resumed-none cs lost h)
              ∙ ih lost h (failed_with-mappings a att c st) refl
              ∙ sym (if_true again _ _ e)
          | inr e ↦
              ap (λ p. outcome (resumed cs p)) (if_false again lost won e)
              ∙ ap outcome (resumed-some cs won att refl)
              ∙ ap (λ o. (st.attempts, chosen_of (some att) o)) k
              ∙ sym (if_false again _ _ e)
        ]

    failover_loop-first_answer :
        (cs : List Candidate) (r : Router F) (st : Pass F)
        → st.resp ≡ none
        → st.router.mappings ≡ r.mappings
        → outcome (failover_loop fl s call est cs st) ≡ first_answer r st.attempts cs
    unfolding failover_loop first_answer try_candidate attempt
    failover_loop-first_answer [] r st h m = ap (λ o. (st.attempts, chosen_of o st.cand)) h
    failover_loop-first_answer (c ∷ cs) r st h m =
        let up = upstream_candidate fl s st.router c in
        let a = call st.attempts c.provider.name up.model in
        let tried = started fl s call est c st in
        let called : Candidate → Outcome = λ u.
          outcome_of (call st.attempts c.provider.name u.model).reply u (st.attempts + 1)
            (first_answer r (st.attempts + 1) cs) in
        let passed = skipped fl s call est c st in
        let asked = attempt fl s call est c st in
        elim (Bool-cases (too_long fl s est c)) [
          | inl e ↦
              ap (λ p. outcome (resumed cs p)) (if_true (too_long fl s est c) passed asked e)
              ∙ ap outcome (resumed-none cs passed h)
              ∙ failover_loop-first_answer cs r passed h m
              ∙ sym (if_true _ _ _ e)
          | inr e ↦
              ap (λ p. outcome (resumed cs p)) (if_false (too_long fl s est c) passed asked e)
              ∙ outcome-resumed a a.reply c up cs tried _ h refl (λ p hr hm ha.
                failover_loop-first_answer cs r p hr
                  (hm ∙ inc_inflight-mappings c.provider.name st.router ∙ m)
                ∙ ap (λ n. first_answer r n cs) ha)
              ∙ ap called (upstream_candidate-mappings c r st.router m)
              ∙ sym (if_false _ _ _ e)
        ]

    -- `failoverPass` relays the answer that an independent description picks, and calls as many
    -- upstreams: it takes the candidates in their order, passes over those whose context window is
    -- too small and over those that fail with a transport error or with a status that is retried, and
    -- stops at the first other answer, under the candidate with the upstream's name of its model.
    -- Whatever the circuits, locks, quotas and failure rules note on the way changes nothing of it.
    pub failover_pass-first_answer :
        (cs : List Candidate) (r : Router F)
        → ((failover_pass fl s call est cs r).attempts, chosen (failover_pass fl s call est cs r))
          ≡ first_answer r 0 cs
    unfolding failover_pass
    failover_pass-first_answer cs r = failover_loop-first_answer cs r _ refl refl
