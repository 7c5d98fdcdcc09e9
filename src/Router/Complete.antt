-- ===== src/Router/Complete.antt =====
-- internal/router/router.go: the order of a route loses no admitted candidate.
use mathlib.Core.List.{Perm}
use mathlib.Core.List.Perm
use token_route.Base.{
  ℕ, ◌≡◌, refl, Bool, true, false, List, [], ◌∷◌, map, ap, ltb, length, if◌then◌else◌,
}
use token_route.Base.Text.{Text}
use token_route.Base.Time.{Instant}
use token_route.Base.Float.{Float64}
use token_route.Base.Sort.{pull, sort_by-perm, rotate-perm, pull-perm}
use token_route.Quota.Defs.{QuotaLedger}
use token_route.Router.Defs.{
  Router, Route, Candidate, Strategy, priority, round_robin as strategy_round_robin, least_latency,
  weighted, cost, lkgp, headroom, fusion, p2c, reset_aware, fill_first, auto, lowest_usage,
  peak_ewma, least_connections, consistent_hash, fusion_judge,
}
use token_route.Router.Select.{admit}
use token_route.Router.Orders.{by_headroom, by_lowest_usage, by_connections}
use token_route.Router.Rearrange.{
  if-perm, by_last_good-perm, by_weight-perm, by_two_choices-perm, round_robin-perm, two_first-perm,
}
use token_route.Router.Signals.{Snapshot}
use token_route.Router.Strategies.{
  score_all, sort_scored, by_hash, by_reset, by_latency, by_peak, by_cost, by_fill, by_auto,
  ring_before,
}
use token_route.Router.Caps.{reorder_by_modalities}
use token_route.Router.Order.{Draws, Demand, arrange, order_candidates_caps}

module _ {ℓ} {A : Type ℓ} where
  score_all-keys :
      (score : Candidate → QuotaLedger → QuotaLedger × A) (cs : List Candidate) (l : QuotaLedger)
      → map (λ p. p.0) (score_all score cs l).1 ≡ cs
  unfolding score_all
  score_all-keys score [] l = refl
  score_all-keys score (c ∷ cs) l = ap (◌∷◌ c) (score_all-keys score cs (score c l).0)

  sort_scored-perm :
      (less : A → A → Bool) (score : Candidate → QuotaLedger → QuotaLedger × A)
      (cs : List Candidate) (l : QuotaLedger)
      → Perm (sort_scored less (score_all score cs l)).1 cs
  unfolding sort_scored
  sort_scored-perm less score cs l =
      let scored = (score_all score cs l).1 in
      let sorted =
        Perm.map (λ (p : Candidate × A). p.0) (sort_by-perm (λ p q. less p.1 q.1) scored) in
      rw (score_all-keys score cs l) at sorted

by_hash-perm : (value : Text) (cs : List Candidate) → Perm (by_hash value cs) cs
unfolding by_hash
by_hash-perm value cs =
    if-perm _ _ cs cs (Perm.trans (rotate-perm _ _) (sort_by-perm ring_before cs)) Perm.rfl

if-snd :
    (b : Bool) (x y : QuotaLedger × List Candidate) (cs : List Candidate)
    → Perm x.1 cs
    → Perm y.1 cs
    → Perm ((if b then x else y).1) cs
if-snd true x y cs h k = h
if-snd false x y cs h k = k

by_reset-perm :
    (now : Instant) (cs : List Candidate) (l : QuotaLedger) → Perm (by_reset now cs l).1 cs
unfolding by_reset
by_reset-perm now cs l = if-snd (ltb 1 (length cs)) _ _ cs (sort_scored-perm _ _ cs l) Perm.rfl

module _ (fl : Float64) where
  open fl use {F}

  by_latency-perm : (s : Snapshot fl) (cs : List Candidate) → Perm (by_latency fl s cs) cs
  unfolding by_latency
  by_latency-perm s cs = if-perm s.has_data _ cs cs (sort_by-perm _ cs) Perm.rfl

  by_peak-perm : (s : Snapshot fl) (i j : ℕ) (cs : List Candidate) → Perm (by_peak fl s i j cs) cs
  unfolding by_peak
  by_peak-perm s i j cs =
      if-perm _ _ cs cs (two_first-perm _ j cs (pull i cs) (pull-perm i cs)) Perm.rfl

  by_fill-perm :
      (now : Instant) (cs : List Candidate) (l : QuotaLedger) → Perm (by_fill fl now cs l).1 cs
  unfolding by_fill
  by_fill-perm now cs l = if-snd (ltb 1 (length cs)) _ _ cs (sort_scored-perm _ _ cs l) Perm.rfl

  arrange-perm :
      (strategy : Strategy) (now : Instant) (d : Draws) (hash : Text) (rt : Route) (r : Router F)
      (allowed : List (ℕ × Candidate))
      → Perm (arrange fl strategy now d hash rt r allowed).2 (map (λ p. p.1) allowed)
  unfolding arrange by_cost by_headroom by_lowest_usage by_connections by_auto
  arrange-perm lkgp now d hash rt r allowed = by_last_good-perm _ _
  arrange-perm strategy_round_robin now d hash rt r allowed = round_robin-perm rt allowed
  arrange-perm least_latency now d hash rt r allowed = by_latency-perm _ _
  arrange-perm weighted now d hash rt r allowed = by_weight-perm _ _
  arrange-perm cost now d hash rt r allowed = sort_by-perm _ _
  arrange-perm headroom now d hash rt r allowed = sort_by-perm _ _
  arrange-perm lowest_usage now d hash rt r allowed = sort_by-perm _ _
  arrange-perm p2c now d hash rt r allowed = by_two_choices-perm _ _ _ _
  arrange-perm peak_ewma now d hash rt r allowed = by_peak-perm _ _ _ _
  arrange-perm least_connections now d hash rt r allowed = sort_by-perm _ _
  arrange-perm consistent_hash now d hash rt r allowed = by_hash-perm _ _
  arrange-perm reset_aware now d hash rt r allowed = by_reset-perm now _ _
  arrange-perm fill_first now d hash rt r allowed = by_fill-perm now _ _
  arrange-perm auto now d hash rt r allowed = sort_scored-perm _ _ _ _
  arrange-perm priority now d hash rt r allowed = Perm.rfl
  arrange-perm fusion now d hash rt r allowed = Perm.rfl
  arrange-perm fusion_judge now d hash rt r allowed = Perm.rfl

  reorder_by_modalities-perm :
      (lower : ℕ → ℕ) (r : Router F) (required : List Text) (cs : List Candidate)
      → Perm (reorder_by_modalities lower r required cs) cs
  unfolding reorder_by_modalities
  reorder_by_modalities-perm lower r required cs = if-perm _ cs _ cs Perm.rfl (sort_by-perm _ cs)

  -- Under every strategy, whatever was drawn and hashed and whatever media the request brings,
  -- `OrderCandidatesCaps` returns the candidates that its loop admits, each as often as it was
  -- admitted: the strategy and the capabilities decide on the order alone.
  pub order_candidates_caps-perm :
      (lower : ℕ → ℕ) (now : Instant) (d : Draws) (demand : Demand) (rt : Route) (r : Router F)
      → Perm
          (order_candidates_caps fl lower now d demand rt r).2
          (map (λ p. p.1) (admit now demand.selector 0 rt.candidates r).1)
  unfolding order_candidates_caps
  order_candidates_caps-perm lower now d demand rt r =
      let (r', allowed) = admit now demand.selector 0 rt.candidates r in
      Perm.trans (reorder_by_modalities-perm lower _ demand.required _)
        (arrange-perm rt.strategy now d demand.hash_value rt r' allowed)
