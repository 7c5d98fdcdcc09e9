-- ===== src/Router/Strategies.antt =====
-- internal/router/router.go: the strategies that compare floats, quotas or keys. The clock is read
-- once for a whole sort.
use token_route.Base.{
  ℕ, ◌%◌, Bool, true, false, ◌&&◌, not, List, [], ◌∷◌, ◌++◌, map, length, ltb, if◌then◌else◌,
}
use token_route.Base.Int.{pos, leb_ℤ}
use token_route.Base.Text.{Text, codes}
use token_route.Base.Time.{Instant, before, is_zero}
use token_route.Base.Float.{Float64}
use token_route.Base.Hash.{fnv32a}
use token_route.Base.Sort.{sort_by, rotate, pull}
use token_route.Quota.Defs.{QuotaLedger, Budget, remaining, window_reset}
use token_route.Router.Defs.{Router, Candidate}
use token_route.Router.Orders.{two_first}
use token_route.Router.Signals.{Snapshot, latency_of, peak_score, cost_key, auto_score}

-- `<` on strings.
unfoldable pub text_lt : Text → Text → Bool
text_lt s [] = false
text_lt [] (d ∷ t) = true
text_lt (c ∷ s) (d ∷ t) = if ltb c d then true else (if ltb d c then false else text_lt s t)

abbrev pub ring_key : Candidate → Text
ring_key c = c.provider.name ++ (codes "|" ++ c.model)

abbrev pub ring_before : Candidate → Candidate → Bool
ring_before a b = text_lt (ring_key a) (ring_key b)

abbrev is_empty : Text → Bool
is_empty [] = true
is_empty (_ ∷ _) = false

-- The case `StrategyConsistentHash`
unfoldable pub by_hash : Text → List Candidate → List Candidate
unfolding text_lt
by_hash value cs =
    let ring = sort_by ring_before cs in
    if ltb 1 (length cs) && not (is_empty value)
    then rotate (fnv32a value % length ring) ring
    else cs

-- Values that are computed for each candidate in turn, with the ledger passed on.
unfoldable pub score_all {ℓ} :
    {A : Type ℓ}
    → (Candidate → QuotaLedger → QuotaLedger × A)
    → List Candidate
    → QuotaLedger
    → QuotaLedger × List (Candidate × A)
score_all score [] l = (l, [])
score_all score (c ∷ cs) l =
    let (l', a) = score c l in let (l'', rest) = score_all score cs l' in (l'', (c, a) ∷ rest)

-- A stable sort by those values.
unfoldable pub sort_scored {ℓ} :
    {A : Type ℓ}
    → (A → A → Bool)
    → QuotaLedger × List (Candidate × A)
    → QuotaLedger × List Candidate
sort_scored less (l, scored) = (l, map (λ p. p.0) (sort_by (λ p q. less p.1 q.1) scored))

-- `sort.SliceStable` asks nothing about fewer than two candidates.
abbrev compared :
    List Candidate → QuotaLedger → QuotaLedger × List Candidate → QuotaLedger × List Candidate
compared cs l sorted = if ltb 1 (length cs) then sorted else (l, cs)

-- The test of `StrategyResetAware`; the zero time is an unknown reset.
abbrev pub resets_before : Instant → Instant → Bool
resets_before ri rj = if is_zero ri then false else (if is_zero rj then true else before ri rj)

-- The case `StrategyResetAware`
unfoldable pub by_reset : Instant → List Candidate → QuotaLedger → QuotaLedger × List Candidate
unfolding score_all sort_scored
by_reset now cs l =
    compared cs l
      (sort_scored resets_before (score_all (λ c. window_reset now c.provider.name c.model) cs l))

module _ (fl : Float64) where
  open fl use {F, lt}

  -- The case `StrategyLeastLatency`
  unfoldable pub by_latency : Snapshot fl → List Candidate → List Candidate
  by_latency s cs =
      if s.has_data then sort_by (λ a b. lt (latency_of fl s a) (latency_of fl s b)) cs else cs

  -- The case `StrategyPeakEWMA`, for the draws `i` and `j`, as in `by_two_choices`.
  unfoldable pub by_peak : Snapshot fl → ℕ → ℕ → List Candidate → List Candidate
  by_peak s i j cs =
      if ltb 1 (length cs) && s.has_data
      then two_first (λ a b. lt (peak_score fl s a) (peak_score fl s b)) j cs (pull i cs)
      else cs

  -- The case `StrategyCost`
  unfoldable pub by_cost : Router F → List Candidate → List Candidate
  by_cost r cs = sort_by (λ a b. lt (cost_key fl r a) (cost_key fl r b)) cs

  -- `ki && ri <= 0`
  abbrev is_exhausted : Budget fl → Bool
  is_exhausted b = b.known && leb_ℤ b.remaining (pos 0)

  abbrev exhaustion : Instant → Candidate → QuotaLedger → QuotaLedger × Bool
  exhaustion now c l =
      let (l', b) = remaining fl now c.provider.name c.model l in (l', is_exhausted b)

  -- The case `StrategyFillFirst`
  unfoldable pub by_fill : Instant → List Candidate → QuotaLedger → QuotaLedger × List Candidate
  unfolding score_all sort_scored
  by_fill now cs l =
      compared cs l (sort_scored (λ ei ej. not ei && ej) (score_all (exhaustion now) cs l))

  -- The case `StrategyAuto`: the highest score first.
  unfoldable pub by_auto :
      Instant → Router F → Snapshot fl → List Candidate → QuotaLedger → QuotaLedger × List Candidate
  unfolding score_all sort_scored auto_score
  by_auto now r s cs l = sort_scored (λ si sj. lt sj si) (score_all (auto_score fl now s r) cs l)
