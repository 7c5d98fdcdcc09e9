-- ===== src/Server/Failover.antt =====
-- internal/server/server.go: `failoverPass`, the loop over the candidates of one route. What an
-- upstream answers is a parameter. The overrides of the request's body and headers are left out:
-- they change what is sent, and nothing of what follows.
use token_route.Base.{
  ℕ, ◌+◌, ◌*◌, Bool, true, false, ◌&&◌, not, Option, none, some, List, [], ◌∷◌, leb, ◌==◌,
  if◌then◌else◌,
}
use token_route.Base.Int.{ℤ, pos, ltb_ℤ}
use token_route.Base.Text.{Text, codes}
use token_route.Base.Time.{Instant, Duration, second, minute}
use token_route.Base.Float.{Float64}
use token_route.Failure.{FailureKind, unknown, auth, quota_exhausted, kind_eq}
use token_route.Prices.{PriceStore, Price, get_price, is_some}
use token_route.Classify.Defs.{classify_failure}
use token_route.RetryPolicy.Defs.{RetryPolicy, classify_keyword, disable_status}
use token_route.Router.Defs.{Router, Candidate}
use token_route.Router.Lookups.{map_model, inc_inflight, dec_inflight, lock_model}
use token_route.Router.Methods.{failure_cooldown, open_circuit_for}
use token_route.Router.Record.{record_result_kind, record_result}
use token_route.Server.Headers.{
  Header, get_header, rate_limit_reset, parse_retry_after, observe_upstream_quota, retryable_status,
}
use token_route.Server.Replies.{
  Response, Reply, transport_error, answered, Attempt, Upstream, context_exceeded, transport, Pass,
  start_pass, Setup,
}

-- `QuotaExhaustedCooldown` of internal/router/failure.go.
abbrev pub quota_exhausted_cooldown : ℕ
quota_exhausted_cooldown = 15 * minute

module _ (fl : Float64) (s : Setup fl.F) where
  open fl use {F}

  abbrev exceeds : ℤ → Option (Price F) → Bool
  exceeds est none = false
  exceeds est (some p) = ltb_ℤ (pos 0) p.context_tokens && ltb_ℤ p.context_tokens est

  abbrev price_of : Text → Option (PriceStore F) → Option (Price F)
  price_of model none = none
  price_of model (some ps) = get_price model ps

  -- The guard of the context window.
  unfoldable pub too_long : ℤ → Candidate → Bool
  too_long est c = ltb_ℤ (pos 0) est && exceeds est (price_of c.model s.prices)

  -- The candidate with the upstream's name of its model.
  abbrev pub upstream_candidate : Router F → Candidate → Candidate
  upstream_candidate r c = record c { model = map_model c.provider.name c.model r }

  abbrev policy_kind : RetryPolicy → FailureKind × Bool → ℕ → FailureKind → FailureKind
  policy_kind p (kind, ok) status old =
      if ok then kind else (if disable_status p (pos status) then auth else old)

  -- The kind of a failing answer: the keywords, then the statuses that disable, then the classifier.
  unfoldable pub failure_kind : Response → FailureKind
  failure_kind att =
      let classified = (classify_failure s.lower att.status att.text none).kind in
      elim (s.retry_policy) [
        | none ↦ classified
        | some p ↦ policy_kind p (classify_keyword s.lower (some p) att.text) att.status classified
      ]

  -- How long a 429 locks the model.
  unfoldable pub lock_duration : Instant → FailureKind → Header → Duration
  lock_duration now kind h =
      let reset = rate_limit_reset s.parsers now h in
      let wait = parse_retry_after s.parsers now (get_header (codes "Retry-After") h) in
      if ltb_ℤ (pos 0) reset
      then reset
      else (if ltb_ℤ (pos 0) wait
          then wait
          else (if kind_eq kind quota_exhausted
              then pos quota_exhausted_cooldown
              else pos (30 * second)))

  -- The branch for a 429.
  unfoldable pub on_limited : Instant → Text → Text → FailureKind → Header → Router F → Router F
  unfolding lock_duration
  on_limited now name model kind h r =
      let wait = parse_retry_after s.parsers now (get_header (codes "Retry-After") h) in
      let locked = lock_model now name model (lock_duration now kind h) r in
      if ltb_ℤ (pos 0) wait && not (kind_eq kind quota_exhausted)
      then open_circuit_for now name wait locked
      else locked

  abbrev pub cooled : Instant → Text → Router F × Option Duration → Router F
  cooled now name (r, none) = r
  cooled now name (r, some d) = open_circuit_for now name d r

  -- The failure rules: a rule that matches sets the cooldown.
  unfoldable pub apply_rules : Instant → Text → ℕ → Text → Router F → Router F
  apply_rules now name status text r =
      cooled now name (failure_cooldown s.lower name (pos status) text r)

  -- A transport error.
  unfoldable pub on_transport_error : Attempt → Text → Text → Router F → Router F
  on_transport_error a name message r =
      let kind = (classify_failure s.lower 0 [] (some message)).kind in
      record_result_kind fl a.instant name a.latency false kind (not (kind_eq kind unknown))
        (dec_inflight name r)

  -- A status that is retried.
  unfoldable pub on_failure : Attempt → Response → Text → Text → Router F → Router F
  unfolding failure_kind on_limited apply_rules
  on_failure a att name model r =
      let kind = failure_kind att in
      let noted =
        record_result_kind fl a.instant name a.latency false kind true (dec_inflight name r) in
      let limited =
        if att.status == 429
        then on_limited a.instant name model kind att.header noted
        else noted in
      apply_rules a.instant name att.status att.text limited

  -- An answer that is relayed.
  unfoldable pub on_answer : Attempt → Response → Text → Text → Router F → Router F
  unfolding apply_rules
  on_answer a att name model r =
      let locked =
        if att.status == 404 then lock_model a.instant name model (pos (30 * second)) r else r in
      let noted = record_result fl a.instant name a.latency true locked in
      if leb 400 att.status then apply_rules a.instant name att.status [] noted else noted

  -- What follows a call, by its reply. The lock is on the route's name of the model, the
  -- observation of the quota on the upstream's.
  unfoldable pub on_reply : Attempt → Reply → Candidate → Pass F → Pass F
  unfolding on_transport_error on_failure on_answer
  on_reply a (transport_error message) c st = record st {
    router = on_transport_error a c.provider.name message st.router;
    last_err = some (transport message);
    last_fail = none;
  }
  on_reply a (answered att) c st =
      let name = c.provider.name in
      let seen =
        observe_upstream_quota s.parsers a.instant name (map_model name c.model st.router)
          att.header st.router in
      if retryable_status s.retry_policy att.status
      then record st {
        router = on_failure a att name c.model seen;
        last_fail = some att;
        last_err = none;
      }
      else record st { router = on_answer a att name c.model seen; resp = some att }

  module _ (call : Upstream) (est : ℤ) where
    -- The variables after a candidate that is not called, and when a call starts.
    abbrev pub skipped : Candidate → Pass F → Pass F
    skipped c st = record st {
      cand = some (upstream_candidate st.router c);
      last_err = some context_exceeded;
    }

    abbrev pub started : Candidate → Pass F → Pass F
    started c st = record st {
      cand = some (upstream_candidate st.router c);
      router = inc_inflight c.provider.name st.router;
      attempts = st.attempts + 1;
    }

    -- The call, with the upstream's name of the model, and what follows it.
    unfoldable pub attempt : Candidate → Pass F → Pass F
    unfolding on_reply
    attempt c st =
        let name = c.provider.name in
        let a = call st.attempts name (map_model name c.model st.router) in
        on_reply a a.reply c (started c st)

    -- The body of the loop.
    unfoldable pub try_candidate : Candidate → Pass F → Pass F
    unfolding attempt too_long
    try_candidate c st = if too_long est c then skipped c st else attempt c st

    -- The loop, which ends with the first answer.
    unfoldable pub failover_loop : List Candidate → Pass F → Pass F
    unfolding try_candidate
    failover_loop [] st = st
    failover_loop (c ∷ cs) st =
        let tried = try_candidate c st in
        let rest = failover_loop cs tried in if is_some tried.resp then tried else rest

    -- `failoverPass`
    unfoldable pub failover_pass : List Candidate → Router F → Pass F
    unfolding failover_loop
    failover_pass cs r = failover_loop cs (start_pass r)

-- What `inflightBody` does when the relayed body is closed.
unfoldable pub close_body : {F : Type 0} → Candidate → Router F → Router F
close_body c r = dec_inflight c.provider.name r
