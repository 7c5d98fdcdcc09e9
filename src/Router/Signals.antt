-- ===== src/Router/Signals.antt =====
-- internal/router/router.go: prices, latencies and scores that the strategies compare.
use token_route.Base.{Bool, true, false, Option, none, some, List, [], ◌∷◌, length, if◌then◌else◌}
use token_route.Base.Int.{ℤ, pos, leb_ℤ}
use token_route.Base.Text.{Text}
use token_route.Base.Time.{Instant, sub_time}
use token_route.Base.Dict.{lookup, text_key}
use token_route.Base.Float.{Float64, half}
use token_route.Prices.{Price, PriceStore, get_price}
use token_route.Quota.Defs.{QuotaLedger, Budget, remaining}
use token_route.Router.Defs.{Router, Candidate, LatencyState}
use token_route.Router.Lookups.{count_or_zero}
use token_route.Router.Record.{decay_weight}

module _ (fl : Float64) where
  open fl use {F, of_int, add, sub, mul, div, lt, le}

  abbrev one : F
  one = of_int (pos 1)

  abbrev zero_f : F
  zero_f = of_int (pos 0)

  -- `clamp01`
  unfoldable pub clamp01 : F → F
  clamp01 v = if lt v zero_f then zero_f else (if lt one v then one else v)

  -- `minF`
  unfoldable pub min_f : F → F → F
  min_f a b = if lt a b then a else b

  abbrev price_in : Text → Option (PriceStore F) → Option (Price F)
  price_in model none = none
  price_in model (some ps) = get_price model ps

  -- `price`
  unfoldable pub price : Text → Router F → Option (Price F)
  unfolding get_price
  price model r = price_in model r.prices

  abbrev both_prices : Price F → F
  both_prices p = add p.prompt_per_1m p.completion_per_1m

  -- `costKey`; an unknown price is 1e18.
  unfoldable pub cost_key : Router F → Candidate → F
  unfolding price
  cost_key r c = elim (price c.model r) [
    | none ↦ of_int (pos 1000000000000000000)
    | some p ↦ both_prices p
  ]

  abbrev decayed : Instant → LatencyState F → F
  decayed now st = mul st.ewma (decay_weight fl (sub_time now st.last_touched))

  -- `decayedEWMA`
  unfoldable pub decayed_ewma : Text → Instant → Router F → Option F
  unfolding decay_weight
  decayed_ewma name now r = elim (lookup name r.latency) [
    | none ↦ none
    | some st ↦ some (decayed now st)
  ]

  abbrev or_zero : Option F → F
  or_zero none = zero_f
  or_zero (some v) = v

  -- `LatencyMs`
  unfoldable pub latency_ms : Text → Instant → Router F → F
  unfolding decayed_ewma
  latency_ms name now r = or_zero (decayed_ewma name now r)

  -- The loop of `latencySnapshot`, in the order of the table: the decayed latencies and their sum.
  unfoldable pub decay_all : Instant → List (Text × LatencyState F) → F → List (Text × F) × F
  decay_all now [] sum = ([], sum)
  decay_all now ((name, st) ∷ table) sum =
      let v = decayed now st in
      let (lat, total) = decay_all now table (add sum v) in ((name, v) ∷ lat, total)

  pub record Snapshot : Type 0 where
    pub lat : List (Text × F)
    pub seed : F
    pub has_data : Bool

  abbrev snapshot_of : List (Text × F) × F → Snapshot
  snapshot_of ([], sum) = record { lat = []; seed = zero_f; has_data = false }
  snapshot_of (v ∷ vs, sum) = record {
    lat = v ∷ vs;
    seed = div sum (of_int (pos (length (v ∷ vs))));
    has_data = true;
  }

  -- `latencySnapshot`
  unfoldable pub latency_snapshot : Instant → Router F → Snapshot
  unfolding decay_all decay_weight
  latency_snapshot now r = snapshot_of (decay_all now r.latency zero_f)

  -- `lat[name]`, or the seed for a provider that was not seen.
  unfoldable pub latency_of : Snapshot → Candidate → F
  latency_of s c = elim (lookup c.provider.name s.lat) [ none ↦ s.seed | some v ↦ v ]

  abbrev positive_weight : Candidate → ℤ
  positive_weight c = if leb_ℤ c.weight (pos 0) then pos 1 else c.weight

  -- `score` of peak_ewma.
  unfoldable pub peak_score : Snapshot → Candidate → F
  unfolding latency_of
  peak_score s c = div (latency_of s c) (of_int (positive_weight c))

  abbrev or_seed : Snapshot → Option F → F
  or_seed s (some v) = v
  or_seed s none = if s.has_data then s.seed else zero_f

  abbrev cost_factor : Option (Price F) → F
  cost_factor none = one
  cost_factor (some p) = sub one (clamp01 (div (both_prices p) (of_int (pos 10))))

  abbrev quota_factor : Budget fl → F
  quota_factor b =
      if b.known
      then (if le b.ratio zero_f
          then zero_f
          else clamp01 (mul b.ratio (div (of_int (pos 13)) (of_int (pos 10)))))
      else one

  -- The score of one candidate under the strategy auto; `Remaining` may roll a window.
  unfoldable pub auto_score :
      Instant → Snapshot → Router F → Candidate → QuotaLedger → QuotaLedger × F
  unfolding clamp01 min_f price
  auto_score now s r c ledger =
      let name = c.provider.name in
      let health = sub one (clamp01 (or_zero (lookup name r.err_rate))) in
      let l = or_seed s (lookup name s.lat) in
      let latency_factor =
        if lt zero_f l
        then sub one (min_f (div l (of_int (pos 50000))) (div (of_int (pos 6)) (of_int (pos 10))))
        else one in
      let cost = cost_factor (price c.model r) in
      let (ledger', b) = remaining fl now name c.model ledger in
      let load = of_int (pos (count_or_zero (lookup name r.inflight))) in
      let inflight_factor = add (half fl) (div (half fl) (add one load)) in
      (ledger', mul (mul (mul (mul health latency_factor) cost) (quota_factor b)) inflight_factor)
