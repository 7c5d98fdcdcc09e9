-- ===== src/Server/Balance.antt =====
-- internal/server/server.go: the counts of live requests.
use token_route.Base.{
  ◌+◌, ◌-◌, ◌≡◌, refl, sym, ◌∙◌, ap, arith, Bool-cases, Option, none, some, List, [], ◌∷◌, inl, inr,
  if◌then◌else◌,
}
use token_route.Base.Int.{ℤ}
use token_route.Base.Text.{Text}
use token_route.Base.Dict.{lookup, lookup-insert, text_key}
use token_route.Base.Float.{Float64}
use token_route.Prices.{is_some}
use token_route.Router.Defs.{Router, Candidate}
use token_route.Router.Lookups.{map_model, inc_inflight, dec_inflight, inflight_of, count_or_zero}
use token_route.Server.Headers.{retryable_status}
use token_route.Server.Replies.{
  Setup, Response, Reply, transport_error, answered, Attempt, Upstream, Pass,
}
use token_route.Server.Failover.{
  skipped, started, too_long, upstream_candidate, on_reply, attempt, try_candidate, failover_loop,
  failover_pass, close_body,
}
use token_route.Server.Frames.{
  IsFrame, IsFrame-refl, IsFrame-trans, on_transport_error-IsFrame, on_failure-IsFrame,
  on_answer-IsFrame,
}
use token_route.Server.Answers.{
  if_true, if_false, failed_with, relayed_with, seen_by, seen_by-IsFrame,
}

-- The router once the body that a pass relays, if any, is closed.
abbrev closed_of : {F : Type 0} → Option Response → Option Candidate → Router F → Router F
closed_of none o r = r
closed_of (some att) none r = r
closed_of (some att) (some c) r = close_body c r

abbrev pub closed : {F : Type 0} → Pass F → Router F
closed p = closed_of p.resp p.cand p.router

pub if-holds {ℓ κ} :
    {A : Type ℓ} {P : Type κ} (holds : P → Type 0) (o : Option A) (p q : P)
    → holds p
    → (o ≡ none → holds q)
    → holds (if is_some o then p else q)
if-holds holds none p q i j = j refl
if-holds holds (some a) p q i j = i

module _ {F : Type 0} where
  inflight_of-inflight :
      (x : Text) (r r' : Router F) → r'.inflight ≡ r.inflight → inflight_of x r' ≡ inflight_of x r
  unfolding inflight_of
  inflight_of-inflight x r r' h = rw h refl

  inflight_of-inc :
      (x name : Text) (r : Router F)
      → inflight_of x (inc_inflight name r)
        ≡ (if text_key.same name x then inflight_of name r + 1 else inflight_of x r)
  unfolding inflight_of inc_inflight
  inflight_of-inc x name r =
      ground (arith, lookup-insert name x (count_or_zero (lookup name r.inflight) + 1) r.inflight)

  inflight_of-dec :
      (x name : Text) (r : Router F)
      → inflight_of x (dec_inflight name r)
        ≡ (if text_key.same name x then inflight_of name r - 1 else inflight_of x r)
  unfolding inflight_of dec_inflight
  inflight_of-dec x name r = ground (
    arith,
    text_key.same_iff name x,
    lookup-insert name x (count_or_zero (lookup name r.inflight) - 1) r.inflight,
  )

  -- The end of a request undoes its start, whatever happens to the rest of the router in between.
  inflight_of-dec_inc :
      (x name : Text) (r r' : Router F)
      → r'.inflight ≡ (inc_inflight name r).inflight
      → inflight_of x (dec_inflight name r') ≡ inflight_of x r
  inflight_of-dec_inc x name r r' h = ground (
    arith,
    text_key.same_iff name x,
    text_key.same_iff name name,
    inflight_of-dec x name r',
    inflight_of-inflight x (inc_inflight name r) r' h,
    inflight_of-inflight name (inc_inflight name r) r' h,
    inflight_of-inc x name r,
    inflight_of-inc name name r,
  )

module _ (fl : Float64) (s : Setup fl.F) where
  open fl use {F}

  -- The counts, once the body is closed, are those of a router.
  abbrev IsBalanced : Router F → Pass F → Type 0
  IsBalanced r p = (x : Text) → inflight_of x (closed p) ≡ inflight_of x r

  -- The end of a failed call undoes its start.
  ended :
      (x name : Text) (r r' : Router F) (p : Pass F)
      → p.resp ≡ none
      → IsFrame (inc_inflight name r) r'
      → IsFrame (dec_inflight name r') p.router
      → inflight_of x (closed p) ≡ inflight_of x r
  ended x name r r' p h k m =
      ap (λ o. inflight_of x (closed_of o p.cand p.router)) h
      ∙ inflight_of-inflight x (dec_inflight name r') p.router m.inflight_kept
      ∙ inflight_of-dec_inc x name r r' k.inflight_kept

  on_reply-IsBalanced :
      (a : Attempt) (y : Reply) (c : Candidate) (r : Router F) (st : Pass F)
      → st.resp ≡ none
      → st.cand ≡ some (upstream_candidate fl s r c)
      → IsFrame (inc_inflight c.provider.name r) st.router
      → IsBalanced r (on_reply fl s a y c st)
  unfolding on_reply close_body
  on_reply-IsBalanced a (transport_error message) c r st h k e x =
      let m = on_transport_error-IsFrame fl s a c.provider.name message st.router in
      ended x c.provider.name r st.router (on_reply fl s a (transport_error message) c st) h e m
  on_reply-IsBalanced a (answered att) c r st h k e x =
      let name = c.provider.name in
      let again = retryable_status s.retry_policy att.status in
      let lost = failed_with fl s a att c st in
      let won = relayed_with fl s a att c st in
      let seen = IsFrame-trans e (seen_by-IsFrame fl s a att c st) in
      elim (Bool-cases again) [
        | inl y ↦
            ap (λ p. inflight_of x (closed p)) (if_true again lost won y)
            ∙ ended x name r (seen_by fl s a att c st) lost h seen
                (on_failure-IsFrame fl s a att name c.model _)
        | inr n ↦
            ap (λ p. inflight_of x (closed p)) (if_false again lost won n)
            ∙ ap (λ o. inflight_of x (closed_of (some att) o won.router)) k
            ∙ inflight_of-dec_inc x name r won.router
                (IsFrame-trans seen (on_answer-IsFrame fl s a att name c.model _)).inflight_kept
      ]

  module _ (call : Upstream) (est : ℤ) where
    try_candidate-IsBalanced :
        (c : Candidate) (st : Pass F)
        → st.resp ≡ none
        → IsBalanced st.router (try_candidate fl s call est c st)
    unfolding try_candidate attempt
    try_candidate-IsBalanced c st h x =
        let name = c.provider.name in
        let guard = too_long fl s est c in
        let passed = skipped fl s call est c st in
        let asked = attempt fl s call est c st in
        let a = call st.attempts name (map_model name c.model st.router) in
        elim (Bool-cases guard) [
          | inl e ↦
              ap (λ p. inflight_of x (closed p)) (if_true guard passed asked e)
              ∙ ap (λ o. inflight_of x (closed_of o passed.cand st.router)) h
          | inr e ↦
              ap (λ p. inflight_of x (closed p)) (if_false guard passed asked e)
              ∙ on_reply-IsBalanced a a.reply c st.router (started fl s call est c st) h refl
                  (IsFrame-refl _) x
        ]

    -- What holds of the loop's variables and is kept by a round that begins without an answer holds
    -- at the end.
    pub failover_loop-invariant :
        (holds : Pass F → Type 0)
        → ((c : Candidate) (st : Pass F)
            → st.resp ≡ none
            → holds st
            → holds (try_candidate fl s call est c st))
        → (cs : List Candidate) (st : Pass F) → st.resp ≡ none
        → holds st
        → holds (failover_loop fl s call est cs st)
    unfolding failover_loop
    failover_loop-invariant holds step [] st h i = i
    failover_loop-invariant holds step (c ∷ cs) st h i =
        let tried = try_candidate fl s call est c st in
        let j = step c st h i in
        if-holds holds tried.resp tried _ j (λ k. failover_loop-invariant holds step cs tried k j)

    -- Once the body that `failoverPass` relays is closed, if it relays one, the count of live requests
    -- of every provider is what it was before: no failed or refused attempt leaks a count.
    pub failover_pass-balanced :
        (cs : List Candidate) (r : Router F) (x : Text)
        → inflight_of x (closed (failover_pass fl s call est cs r)) ≡ inflight_of x r
    unfolding failover_pass
    failover_pass-balanced cs r x =
        failover_loop-invariant (λ p. inflight_of x (closed p) ≡ inflight_of x r)
          (λ c st h i.
            try_candidate-IsBalanced c st h x
            ∙ sym (ap (λ o. inflight_of x (closed_of o st.cand st.router)) h)
            ∙ i)
          cs _ refl refl
