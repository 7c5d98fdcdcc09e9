-- ===== src/Server/Earliest.antt =====
-- internal/server/server.go: the hint of `earliestReset` is the earliest instant.
use token_route.Base.{
  ◌≡◌, refl, sym, ap, ◌∙◌, arith, true, Bool-cases, inl, inr, ◌&&◌, all, List, [], ◌∷◌, ◌++◌,
  if◌then◌else◌,
}
use token_route.Base.Text.{Text}
use token_route.Base.Time.{Instant}
use token_route.Base.Float.{Float64}
use token_route.Router.Defs.{Router, Candidate}
use token_route.Base.Int.{pos, leb_ℤ}
use token_route.Quota.Defs.{QuotaLedger, Budget, remaining, window_reset}
use token_route.Quota.Readings.{
  Alike, remaining-Alike, remaining_unchanged, window_reset-Alike, window_reset_unchanged,
  Alike-trans,
}
use token_route.Router.Lookups.{resolve, model_lock_until}
use token_route.Router.Methods.{circuit_open_until}
use token_route.Router.Readings.{
  Same, Same-refl, Same-trans, quota-Same, model_lock_until-Same, model_lock_until_unchanged,
  circuit_open_until_unchanged,
}
use token_route.Server.Observed.{
  bounds, occurs, observe_all-bounds, observe_all-occurs, observe_all-append,
}
use token_route.Server.Hints.{
  ResetHint, ResetSource, from_upstream, from_quota, from_circuit, no_hint, observe, observe_all,
  candidate_resets, reset_loop, hinted_candidates, earliest_reset, with_quota,
}

module _ (now : Instant) where
  module _ (fl : Float64) where
    open fl use {F}

    -- The end of the window of a budget that is known and spent; 0 is no instant.
    abbrev pub spent_until : Candidate → Router F → Instant
    spent_until c r =
        let b = (remaining fl now c.provider.name c.model r.quota).1 in
        if b.known && leb_ℤ b.remaining (pos 0)
        then (window_reset now c.provider.name c.model r.quota).1
        else 0

    -- What the router answers about one candidate: the end of the model's lock, the end of a spent
    -- budget's window and the end of the open breaker's cooldown.
    abbrev pub resets_of : Candidate → Router F → List (Instant × ResetSource)
    resets_of c r =
        ((model_lock_until now c.provider.name c.model r).1, from_upstream)
        ∷ (spent_until c r, from_quota)
        ∷ (circuit_open_until c.provider.name r, from_circuit)
        ∷ []

    -- The same for all candidates, each asked of the router as it is at the start.
    unfoldable pub all_resets : List Candidate → Router F → List (Instant × ResetSource)
    all_resets [] r = []
    all_resets (c ∷ cs) r = resets_of c r ++ all_resets cs r

    -- The questions about the budget, in a router `s` and for the ledger and the budget `lb` that
    -- `remaining` gives there.
    record Spent (c : Candidate) (r s : Router F) (lb : QuotaLedger × Budget fl) : Type 0 where
      same : Same now r (with_quota fl now c.provider.name c.model s lb).0
      seen :
          (h : ResetHint) (rest : List (Instant × ResetSource))
          → observe_all now h ((with_quota fl now c.provider.name c.model s lb).1 ++ rest)
            ≡ observe_all now (observe now h (spent_until c r, from_quota)) rest

    spent :
        (c : Candidate) (r s : Router F) (lb : QuotaLedger × Budget fl)
        → Same now r s
        → Alike now s.quota lb.0
        → lb.1 ≡ (remaining fl now c.provider.name c.model r.quota).1
        → Spent c r s lb
    unfolding observe_all observe
    spent c r s (l, b) a kept same_budget =
        let from_r = Alike-trans now r.quota s.quota l a.quota kept in
        let rolled = window_reset-Alike now c.provider.name c.model l in
        let l' = (window_reset now c.provider.name c.model l).0 in
        elim (Bool-cases (b.known && leb_ℤ b.remaining (pos 0))) [
          | inl e ↦ record {
            same = rw e (
                Same-trans now r s (record s { quota = l' }) a
                  (quota-Same now l' s (Alike-trans now s.quota l l' kept rolled)));
            seen = λ h rest.
                rw
                  (
                    e,
                    ← same_budget,
                    e,
                    window_reset_unchanged now c.provider.name c.model r.quota l from_r,
                  )
                  refl;
          }
          | inr e ↦ record {
            same = rw e (Same-trans now r s (record s { quota = l }) a (quota-Same now l s kept));
            seen = λ h rest. rw (e, ← same_budget, e) refl;
          }
        ]

    -- One round of the loop, in a router that gives the same answers as the one at the start.
    record Round (c : Candidate) (r r' : Router F) (h : ResetHint) : Type 0 where
      same : Same now r (candidate_resets fl now c r').0
      seen : observe_all now h (candidate_resets fl now c r').1 ≡ observe_all now h (resets_of c r)

    round : (c : Candidate) (r r' : Router F) (h : ResetHint) → Same now r r' → Round c r r' h
    unfolding candidate_resets observe_all
    round c r r' h a =
        let name = c.provider.name in
        let s = (model_lock_until now name c.model r').0 in
        let in_s = Same-trans now r r' s a (model_lock_until-Same now name c.model r') in
        let lb = remaining fl now name c.model s.quota in
        let asked =
          spent c r s lb in_s (remaining-Alike now fl name c.model s.quota)
            (remaining_unchanged now fl name c.model r.quota s.quota in_s.quota) in
        let t = (with_quota fl now name c.model s lb).0 in
        record {
          same = asked.same;
          seen =
              asked.seen _ _
              ∙ rw
                  (
                    model_lock_until_unchanged now name c.model r r' a,
                    circuit_open_until_unchanged now name r t asked.same,
                  )
                  refl;
        }

    reset_loop-observe_all :
        (cs : List Candidate) (r r' : Router F) (h : ResetHint)
        → Same now r r'
        → (reset_loop fl now cs r' h).1 ≡ observe_all now h (all_resets cs r)
    unfolding reset_loop all_resets
    reset_loop-observe_all [] r r' h a = refl
    reset_loop-observe_all (c ∷ cs) r r' h a =
        let first = round c r r' h a in
        let (next, xs) = candidate_resets fl now c r' in
        reset_loop-observe_all cs r next (observe_all now h xs) first.same
        ∙ ap (λ g. observe_all now g (all_resets cs r)) first.seen
        ∙ sym (observe_all-append now (resets_of c r) (all_resets cs r) h)

    -- The hint of `earliestReset` is the first of the future instants that the router, asked at the
    -- start, gives for the candidates of the route, or for the tried ones where there is no route: no
    -- later than any end of a lock, of a spent budget's window or of an open breaker's cooldown, and
    -- one of these; it is unset only if there is none. That the questions change the router on the way
    -- does not matter. A candidate may be held up beyond the hint by another of its own instants.
    pub earliest_reset-earliest :
        (model : Text) (tried : List Candidate) (r : Router F)
        → let cs = hinted_candidates fl (resolve model r) tried in
          let h = (earliest_reset fl now model tried r).1 in
          (all (bounds now h) (all_resets cs r) ≡ true) × (occurs now h (all_resets cs r) ≡ true)
    unfolding earliest_reset
    earliest_reset-earliest model tried r =
        let cs = hinted_candidates fl (resolve model r) tried in
        let xs = all_resets cs r in
        let low = observe_all-bounds now xs no_hint in
        let one = observe_all-occurs now xs no_hint in
        rw (reset_loop-observe_all cs r r no_hint (Same-refl now r)) (low, ground arith)
