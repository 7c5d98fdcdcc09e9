-- ===== src/Quota/Defs.antt =====
-- internal/router/quota.go.
use token_route.Base.{ℕ, ◌*◌, Bool, true, false, Option, none, some, List, [], ◌++◌, if◌then◌else◌}
use token_route.Base.Int.{ℤ, pos, wrap64, leb_ℤ, ltb_ℤ, ◌+ℤ◌, ◌-ℤ◌}
use token_route.Base.Text.{Text, codes}
use token_route.Base.Time.{Instant, Duration, sub_time, add_time, is_zero, second, minute}
use token_route.Base.Dict.{lookup, insert, delete, text_key}
use token_route.Base.Float.{Float64}

pub record UpstreamObs : Type 0 where
  pub remaining : ℤ
  pub reset_at : Instant
  pub observed_at : Instant

pub record ProviderQuota : Type 0 where
  pub token_limit : ℤ
  pub window : Duration
  pub tokens_used : ℤ
  pub window_start : Instant
  pub obs : Option UpstreamObs

abbrev pub observed_fresh : ℕ
observed_fresh = 60 * second

pub record QuotaLedger : Type 0 where
  pub rows : List (Text × ProviderQuota)
  pub balance_low : List (Text × Bool)

-- `NewQuotaLedger`
unfoldable pub new : QuotaLedger
new = record { rows = []; balance_low = [] }

-- `SetBalanceLow`
unfoldable pub set_balance_low : Text → Bool → QuotaLedger → QuotaLedger
set_balance_low provider low l =
    if low
    then record l { balance_low = insert provider true l.balance_low }
    else record l { balance_low = delete provider l.balance_low }

-- `BalanceLow`
unfoldable pub is_balance_low : Text → QuotaLedger → Bool
is_balance_low provider l = elim (lookup provider l.balance_low) [ none ↦ false | some b ↦ b ]

-- `quotaKey`
abbrev pub quota_key : Text → Text → Text
quota_key provider model = provider ++ (codes "|" ++ model)

abbrev pub zero_quota : ProviderQuota
zero_quota = record {
  token_limit = pos 0;
  window = pos 0;
  tokens_used = pos 0;
  window_start = 0;
  obs = none;
}

abbrev row_or_zero : Option ProviderQuota → ProviderQuota
row_or_zero none = zero_quota
row_or_zero (some q) = q

-- `SetLimit`
unfoldable pub set_limit : Text → Text → ℤ → Duration → QuotaLedger → QuotaLedger
set_limit provider model limit window l =
    let k = quota_key provider model in
    let q = row_or_zero (lookup k l.rows) in
    record l { rows = insert k (record q { token_limit = limit; window = window }) l.rows }

-- `ObserveUpstream`
unfoldable pub observe_upstream : Instant → Text → Text → ℤ → Duration → QuotaLedger → QuotaLedger
observe_upstream now provider model remaining reset_in l =
    let k = quota_key provider model in
    let q = row_or_zero (lookup k l.rows) in
    let o : UpstreamObs = record {
      remaining = remaining;
      reset_at = add_time now reset_in;
      observed_at = now;
    } in
    record l { rows = insert k (record q { obs = some o }) l.rows }

abbrev if_fresh : Instant → UpstreamObs → Option UpstreamObs
if_fresh now o = if leb_ℤ (pos observed_fresh) (sub_time now o.observed_at) then none else some o

-- `observed`
unfoldable pub observed : Instant → ProviderQuota → Option UpstreamObs
observed now q = elim (q.obs) [ none ↦ none | some o ↦ if_fresh now o ]

-- `if q.Window <= 0 { q.Window = time.Minute }`
abbrev pub with_window : ProviderQuota → ProviderQuota
with_window q = if leb_ℤ q.window (pos 0) then record q { window = pos minute } else q

-- `rollWindow`
unfoldable pub roll_window : Instant → ProviderQuota → ProviderQuota
roll_window now q₀ =
    let q = with_window q₀ in
    if is_zero q.window_start
    then record q { window_start = now }
    else (if leb_ℤ q.window (sub_time now q.window_start)
        then record q { window_start = now; tokens_used = pos 0 }
        else q)

abbrev pub at_least_zero : ℤ → ℤ
at_least_zero n = if ltb_ℤ n (pos 0) then pos 0 else n

module _ (fl : Float64) where
  open fl use {F, of_int, div, lt}

  -- `clampF`
  unfoldable pub clamp_f : F → F
  clamp_f v =
      if lt v (of_int (pos 0))
      then of_int (pos 0)
      else (if lt (of_int (pos 1)) v then of_int (pos 1) else v)

  -- The results of `Remaining`: what is left, its ratio, and whether it is known.
  pub record Budget : Type 0 where
    pub remaining : ℤ
    pub ratio : F
    pub known : Bool

  abbrev budget : ℤ → F → Bool → Budget
  budget n r k = record { remaining = n; ratio = r; known = k }

  -- A fresh observation of the upstream.
  unfoldable pub observed_budget : ProviderQuota → UpstreamObs → Budget
  unfolding clamp_f
  observed_budget q o =
      let rem = at_least_zero o.remaining in
      if ltb_ℤ (pos 0) q.token_limit
      then budget rem (clamp_f (div (of_int rem) (of_int q.token_limit))) true
      else (if ltb_ℤ (pos 0) rem
          then budget rem (of_int (pos 1)) true
          else budget (pos 0) (of_int (pos 0)) true)

  -- The window's own accounting.
  unfoldable pub window_budget : ProviderQuota → Budget
  window_budget q =
      let rem = at_least_zero (wrap64 (q.token_limit -ℤ q.tokens_used)) in
      budget rem (div (of_int rem) (of_int q.token_limit)) true

  abbrev pub unknown_budget : Budget
  unknown_budget = budget (pos 0) (of_int (pos 1)) false

  abbrev row_budget :
      Instant → Text → ProviderQuota → Option UpstreamObs → QuotaLedger → QuotaLedger × Budget
  row_budget now k q (some o) l = (l, observed_budget q o)
  row_budget now k q none l =
      let rolled = roll_window now q in
      if leb_ℤ q.token_limit (pos 0)
      then (l, unknown_budget)
      else (record l { rows = insert k rolled l.rows }, window_budget rolled)

  abbrev keyed_budget : Instant → Text → Option ProviderQuota → QuotaLedger → QuotaLedger × Budget
  keyed_budget now k none l = (l, unknown_budget)
  keyed_budget now k (some q) l = row_budget now k q (observed now q) l

  -- `Remaining`
  unfoldable pub remaining : Instant → Text → Text → QuotaLedger → QuotaLedger × Budget
  remaining now provider model l =
      let k = quota_key provider model in
      let found = keyed_budget now k (lookup k l.rows) l in
      if is_balance_low provider l then (l, budget (pos 0) (of_int (pos 0)) true) else found

  -- `Affordable`
  unfoldable pub affordable : Instant → Text → Text → ℤ → QuotaLedger → QuotaLedger × Bool
  affordable now provider model est l =
      let (l', b) = remaining now provider model l in
      (l', if b.known then leb_ℤ est b.remaining else true)

abbrev charge : Instant → ℤ → ProviderQuota → ProviderQuota
charge now tokens q₀ =
    let q = roll_window now q₀ in record q { tokens_used = wrap64 (q.tokens_used +ℤ tokens) }

abbrev charged : Instant → Text → ℤ → Option ProviderQuota → QuotaLedger → QuotaLedger
charged now k tokens none l = l
charged now k tokens (some q) l = record l { rows = insert k (charge now tokens q) l.rows }

-- `Record`
unfoldable pub record_usage : Instant → Text → Text → ℤ → QuotaLedger → QuotaLedger
record_usage now provider model tokens l =
    let k = quota_key provider model in
    let done = charged now k tokens (lookup k l.rows) l in if leb_ℤ tokens (pos 0) then l else done

abbrev row_reset :
    Instant → Text → ProviderQuota → Option UpstreamObs → QuotaLedger → QuotaLedger × Instant
row_reset now k q (some o) l = (l, o.reset_at)
row_reset now k q none l =
    let rolled = roll_window now q in
    if leb_ℤ q.token_limit (pos 0)
    then (l, 0)
    else (record l { rows = insert k rolled l.rows }, add_time rolled.window_start rolled.window)

abbrev keyed_reset : Instant → Text → Option ProviderQuota → QuotaLedger → QuotaLedger × Instant
keyed_reset now k none l = (l, 0)
keyed_reset now k (some q) l = row_reset now k q (observed now q) l

-- `WindowReset`; 0 is the zero time.
unfoldable pub window_reset : Instant → Text → Text → QuotaLedger → QuotaLedger × Instant
window_reset now provider model l =
    let k = quota_key provider model in keyed_reset now k (lookup k l.rows) l
