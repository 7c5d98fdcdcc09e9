-- ===== src/Server/Fusion.antt =====
-- internal/server/fusion.go: the race of the first two candidates. Their calls run at the same time;
-- their replies are handled in either order, each as one step.
use token_route.Base.{◌*◌, Bool, true, false, ◌&&◌, Option, none, some, ◌==◌, if◌then◌else◌}
use token_route.Base.Int.{pos, ltb_ℤ}
use token_route.Base.Text.{Text, codes}
use token_route.Base.Time.{Instant, second}
use token_route.Base.Float.{Float64}
use token_route.Prices.{Price, PriceStore, get_price}
use token_route.Router.Defs.{Router, Candidate}
use token_route.Router.Lookups.{inc_inflight, dec_inflight, lock_model}
use token_route.Router.Methods.{open_circuit_for}
use token_route.Router.Record.{record_result}
use token_route.Server.Headers.{
  Header, get_header, parse_retry_after, observe_upstream_quota, retryable_status,
}
use token_route.Server.Replies.{
  Response, Reply, transport_error, answered, transport, Attempt, Upstream, Pass, PassError, Setup,
}
use token_route.Server.Failover.{close_body}

-- `fusionResult`
pub record FusionResult : Type 0 where
  pub resp : Option Response
  pub fail_resp : Option Response
  pub err : Option PassError

abbrev pub or_first {ℓ} : {A : Type ℓ} → Option A → Option A → Option A
or_first none o = o
or_first (some a) o = some a

abbrev pub is_200 : Option Response → Bool
is_200 none = false
is_200 (some att) = att.status == 200

module _ (fl : Float64) (s : Setup fl.F) where
  open fl use {F, of_int, add, lt}

  abbrev cost_in : Text → Option (PriceStore F) → Option (Price F)
  cost_in model none = none
  cost_in model (some ps) = get_price model ps

  -- `fusionCost`; an unknown price is 1e18.
  unfoldable pub fusion_cost : Text → F
  fusion_cost model = elim (cost_in model s.prices) [
    | none ↦ of_int (pos 1000000000000000000)
    | some p ↦ add p.prompt_per_1m p.completion_per_1m
  ]

  -- The branch for a 429.
  unfoldable pub arm_limited : Instant → Candidate → Header → Router F → Router F
  arm_limited now c h r =
      let name = c.provider.name in
      let wait = parse_retry_after s.parsers now (get_header (codes "Retry-After") h) in
      let locked = lock_model now name c.model (pos (30 * second)) r in
      if ltb_ℤ (pos 0) wait then open_circuit_for now name wait locked else locked

  -- What an arm does with its reply. The model is the route's name of it throughout.
  unfoldable pub on_arm : Attempt → Reply → Candidate → Router F → Router F × FusionResult
  unfolding arm_limited
  on_arm a (transport_error message) c r =
      let name = c.provider.name in
      (
        record_result fl a.instant name a.latency false (dec_inflight name r),
        record { resp = none; fail_resp = none; err = some (transport message) },
      )
  on_arm a (answered att) c r =
      let name = c.provider.name in
      let seen = observe_upstream_quota s.parsers a.instant name c.model att.header r in
      let noted = record_result fl a.instant name a.latency false (dec_inflight name seen) in
      let locked =
        if att.status == 404
        then lock_model a.instant name c.model (pos (30 * second)) seen
        else seen in
      if retryable_status s.retry_policy att.status
      then (
        if att.status == 429 then arm_limited a.instant c att.header noted else noted,
        record { resp = none; fail_resp = some att; err = none },
      )
      else (
        record_result fl a.instant name a.latency true locked,
        record { resp = some att; fail_resp = none; err = none },
      )

  -- The body of the response that is not relayed is closed.
  abbrev pub discard : Candidate → Option Response → Router F → Router F
  discard c none r = r
  discard c (some att) r = close_body c r

  abbrev relay : Candidate → Option Response → Router F → Pass F
  relay c resp r = record {
    router = r;
    cand = some c;
    resp = resp;
    last_fail = none;
    last_err = none;
    attempts = 2;
  }

  abbrev all_failed : Candidate → FusionResult → FusionResult → Router F → Pass F
  all_failed d x y r =
      let fail = or_first y.fail_resp x.fail_resp in
      record {
        router = r;
        cand = some d;
        resp = none;
        last_fail = fail;
        last_err = elim fail [ none ↦ or_first y.err x.err | some att ↦ none ];
        attempts = 2;
      }

  abbrev one_of : Bool → Candidate → Candidate → FusionResult → FusionResult → Router F → Pass F
  one_of second_wins c d x y r =
      if second_wins
      then relay d y.resp (discard c x.resp r)
      else relay c x.resp (discard d y.resp r)

  abbrev any_answer :
      Option Response
      → Option Response
      → Candidate
      → Candidate
      → FusionResult
      → FusionResult
      → Router F
      → Pass F
  any_answer (some att) o c d x y r = one_of false c d x y r
  any_answer none (some att) c d x y r = one_of true c d x y r
  any_answer none none c d x y r = all_failed d x y r

  -- Which result is relayed: a 200, the cheaper of two, else the first answer, else a failure.
  unfoldable pub choose : Candidate → Candidate → FusionResult → FusionResult → Router F → Pass F
  unfolding fusion_cost
  choose c d x y r =
      if is_200 x.resp
      then one_of (is_200 y.resp && lt (fusion_cost d.model) (fusion_cost c.model)) c d x y r
      else (if is_200 y.resp then one_of true c d x y r else any_answer x.resp y.resp c d x y r)

  -- `fusionRun`; `swapped` tells that the second arm's reply is handled first.
  unfoldable pub fusion_run : Upstream → Bool → Candidate → Candidate → Router F → Pass F
  unfolding on_arm choose
  fusion_run call swapped c d r =
      let started = inc_inflight d.provider.name (inc_inflight c.provider.name r) in
      let a = call 0 c.provider.name c.model in
      let b = call 1 d.provider.name d.model in
      let (r₁, x) = on_arm a a.reply c started in
      let (r₂, y) = on_arm b b.reply d r₁ in
      let (s₁, v) = on_arm b b.reply d started in
      let (s₂, u) = on_arm a a.reply c s₁ in
      if swapped then choose c d u v s₂ else choose c d x y r₂
