-- ===== src/Router/Order.antt =====
-- internal/router/router.go: `OrderCandidatesCaps` as a whole.
use token_route.Base.{ℕ, Option, List, map}
use token_route.Base.Int.{ℤ}
use token_route.Base.Text.{Text}
use token_route.Base.Time.{Instant}
use token_route.Base.Float.{Float64}
use token_route.Quota.Defs.{QuotaLedger}
use token_route.Tags.Defs.{TagSelector}
use token_route.Router.Defs.{
  Router, Route, Candidate, Strategy, priority, round_robin as strategy_round_robin, least_latency,
  weighted, cost, lkgp, headroom, fusion, p2c, reset_aware, fill_first, auto, lowest_usage,
  peak_ewma, least_connections, consistent_hash, fusion_judge,
}
use token_route.Router.Select.{admit}
use token_route.Router.Orders.{
  by_headroom, by_lowest_usage, by_last_good, by_weight, by_two_choices, round_robin,
  by_connections,
}
use token_route.Router.Signals.{latency_snapshot}
use token_route.Router.Strategies.{
  by_hash, by_reset, by_latency, by_peak, by_cost, by_fill, by_auto,
}
use token_route.Router.Caps.{reorder_by_modalities}

-- What the random source returns: two indices and a number below the total weight.
pub record Draws : Type 0 where
  pub i : ℕ
  pub j : ℕ
  pub n : ℤ

-- What the request brings: the selector of its tags, the value that is hashed, its media.
pub record Demand : Type 0 where
  pub selector : Option TagSelector
  pub hash_value : Text
  pub required : List Text

module _ (fl : Float64) where
  open fl use {F}

  -- The router and the route afterwards, and the candidates in their order.
  abbrev pub Ordering : Type 0
  Ordering = Router F × Route × List Candidate

  abbrev with_ledger : Router F → Route → QuotaLedger × List Candidate → Ordering
  with_ledger r rt (l, cs) = (record r { quota = l }, rt, cs)

  abbrev with_route : Router F → Route × List Candidate → Ordering
  with_route r (rt, cs) = (r, rt, cs)

  -- The `switch` over the strategy. The strategies `priority`, `fusion` and `fusion_judge` keep the
  -- order by priority.
  unfoldable pub arrange :
      Strategy → Instant → Draws → Text → Route → Router F → List (ℕ × Candidate) → Ordering
  arrange strategy now d hash rt r allowed =
      let cs = map (λ p. p.1) allowed in
      elim strategy [
        | lkgp ↦ (r, rt, by_last_good rt.last_good cs)
        | strategy_round_robin ↦ with_route r (round_robin rt allowed)
        | least_latency ↦ (r, rt, by_latency fl (latency_snapshot fl now r) cs)
        | weighted ↦ (r, rt, by_weight d.n cs)
        | cost ↦ (r, rt, by_cost fl r cs)
        | headroom ↦ (r, rt, by_headroom r.windows cs)
        | lowest_usage ↦ (r, rt, by_lowest_usage r.windows cs)
        | p2c ↦ (r, rt, by_two_choices r.windows d.i d.j cs)
        | peak_ewma ↦ (r, rt, by_peak fl (latency_snapshot fl now r) d.i d.j cs)
        | least_connections ↦ (r, rt, by_connections fl r.inflight cs)
        | consistent_hash ↦ (r, rt, by_hash hash cs)
        | reset_aware ↦ with_ledger r rt (by_reset now cs r.quota)
        | fill_first ↦ with_ledger r rt (by_fill fl now cs r.quota)
        | auto ↦ with_ledger r rt (by_auto fl now r (latency_snapshot fl now r) cs r.quota)
        | priority ↦ (r, rt, cs)
        | fusion ↦ (r, rt, cs)
        | fusion_judge ↦ (r, rt, cs)
      ]

  module _ (lower : ℕ → ℕ) where
    abbrev reordered : List Text → Ordering → Ordering
    reordered required (r, rt, cs) = (r, rt, reorder_by_modalities lower r required cs)

    -- `OrderCandidatesCaps`
    unfoldable pub order_candidates_caps : Instant → Draws → Demand → Route → Router F → Ordering
    unfolding arrange
    order_candidates_caps now d demand rt r =
        let (r', allowed) = admit now demand.selector 0 rt.candidates r in
        reordered demand.required (arrange rt.strategy now d demand.hash_value rt r' allowed)
