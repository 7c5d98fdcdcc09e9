-- ===== src/Quota/Windows.antt =====
-- internal/router/quota.go: the accounting of a window, without a signal of the upstream.
use token_route.Base.{
  ℕ, suc, ◌∙◌, ltb, ◌+◌, ◌-◌, ◌≤◌, ◌<◌, ◌≡◌, true, false, none, some, arith, refl, if◌then◌else◌,
}
use token_route.Base.Int.{
  ℤ, pos, two63, wrap64, wrap64_small, ◌+ℤ◌, ◌-ℤ◌, wrap64_small_negative, leb_ℤ,
}
use token_route.Base.Text.{Text}
use token_route.Base.Time.{Instant}
use token_route.Base.Dict.{lookup, text_key, lookup-insert_self}
use token_route.Base.Float.{Float64}
use token_route.Quota.Defs.{
  QuotaLedger, ProviderQuota, quota_key, is_balance_low, observed, roll_window, remaining,
  record_usage, window_budget, at_least_zero,
}

-- The tokens that count in the window at this moment.
abbrev pub in_window : Instant → Instant → ℕ → ℕ → ℕ
in_window now start window used = if ltb (now - start) window then used else 0

not_free : (t : ℕ) → leb_ℤ (pos (suc t)) (pos 0) ≡ false
not_free t = ground arith

observed-none : (now : Instant) (q : ProviderQuota) → q.obs ≡ none → observed now q ≡ none
unfolding observed
observed-none now q h = ground arith

left_over :
    (a u : ℕ) → a < two63 → u < two63 → at_least_zero (wrap64 (pos a -ℤ pos u)) ≡ pos (a - u)
left_over a u h k = ground (arith, wrap64_small (a - u), wrap64_small_negative (u - a - 1))

is_balance_low-record_usage :
    (now : Instant) (provider model : Text) (t : ℤ) (l : QuotaLedger)
    → is_balance_low provider (record_usage now provider model t l) ≡ is_balance_low provider l
unfolding record_usage is_balance_low
is_balance_low-record_usage now provider model t l = ground arith

module _ (fl : Float64) where
  window_budget-known : (q : ProviderQuota) → (window_budget fl q).known ≡ true
  unfolding window_budget
  window_budget-known q = refl

  window_budget-remaining :
      (q : ProviderQuota) (limit used : ℕ)
      → q.token_limit ≡ pos limit
      → q.tokens_used ≡ pos used
      → limit < two63
      → used < two63
      → (window_budget fl q).remaining ≡ pos (limit - used)
  unfolding window_budget
  window_budget-remaining q limit used h k a b = rw (h, k) (left_over limit used a b)

  -- A row that uses its own accounting: no observation, a limit, a window that has begun.
  pub record Tracks (k : Text) (l : QuotaLedger) (limit window used : ℕ) (start : Instant)
      : Type 0 where
    pub row : ProviderQuota
    pub found : lookup k l.rows ≡ some row
    pub unobserved : row.obs ≡ none
    pub limited : row.token_limit ≡ pos limit
    pub limit_pos : 0 < limit
    pub limit_range : limit < two63
    pub windowed : row.window ≡ pos window
    pub window_pos : 0 < window
    pub window_range : window < two63
    pub began : row.window_start ≡ start
    pub start_pos : 0 < start
    pub counted : row.tokens_used ≡ pos used

  -- The start of the window at this moment.
  abbrev pub window_start : Instant → Instant → ℕ → Instant
  window_start now start window = if ltb (now - start) window then start else now

  -- The row after `rollWindow`.
  record Rolled (limit window used : ℕ) (start : Instant) (now : Instant) (q : ProviderQuota)
      : Type 0 where
    unobserved : q.obs ≡ none
    limited : q.token_limit ≡ pos limit
    windowed : q.window ≡ pos window
    began : q.window_start ≡ window_start now start window
    counted : q.tokens_used ≡ pos (in_window now start window used)

  roll_window-Rolled :
      {k : Text} {l : QuotaLedger} {limit window used : ℕ} {start : Instant} (now : Instant)
      (h : Tracks k l limit window used start)
      → start ≤ now
      → Rolled limit window used start now (roll_window now h.row)
  unfolding roll_window
  roll_window-Rolled now h s = ground arith

  record_usage-Tracks :
      (now : Instant) (provider model : Text) (t limit window used : ℕ) (start : Instant)
      (l : QuotaLedger)
      → Tracks (quota_key provider model) l limit window used start
      → start ≤ now
      → in_window now start window used + suc t < two63
      → Tracks
          (quota_key provider model)
          (record_usage now provider model (pos (suc t)) l)
          limit
          window
          (in_window now start window used + suc t)
          (window_start now start window)
  unfolding record_usage
  record_usage-Tracks now provider model t limit window used start l h s b =
      let r = roll_window-Rolled now h s in
      let q = roll_window now h.row in
      let k = quota_key provider model in
      let total = in_window now start window used + suc t in
      let w = wrap64_small total b in
      record {
        row = record q { tokens_used = wrap64 (q.tokens_used +ℤ pos (suc t)) };
        found =
            rw (h.found, not_free t)
              (lookup-insert_self k
                (record q { tokens_used = wrap64 (q.tokens_used +ℤ pos (suc t)) }) l.rows);
        unobserved = r.unobserved;
        limited = r.limited;
        limit_pos = h.limit_pos;
        limit_range = h.limit_range;
        windowed = r.windowed;
        window_pos = h.window_pos;
        window_range = h.window_range;
        began = r.began;
        start_pos = ground (arith, h.start_pos);
        counted = ground (arith, r.counted);
      }

  remaining-Tracks :
      (now : Instant) (provider model : Text) (limit window used : ℕ) (start : Instant)
      (l : QuotaLedger)
      → Tracks (quota_key provider model) l limit window used start
      → start ≤ now
      → in_window now start window used < two63
      → is_balance_low provider l ≡ false
      → ((remaining fl now provider model l).1.remaining
          ≡ pos (limit - in_window now start window used))
        × ((remaining fl now provider model l).1.known ≡ true)
  unfolding remaining
  remaining-Tracks now provider model limit window used start l h s b low =
      let r = roll_window-Rolled now h s in
      ground (
        arith,
        observed-none now h.row h.unobserved,
        window_budget-known (roll_window now h.row),
        window_budget-remaining (roll_window now h.row) limit (in_window now start window used),
      )

  -- In a row with its own accounting, of a provider whose balance is not marked low, what was
  -- recorded is taken from what remains: tokens recorded at `now`, at least one, reduce the remaining
  -- budget at any later time in the same window, down to 0; once the window has passed, the whole
  -- limit remains again. The counted tokens stay below 2 ^ 63.
  pub remaining-record_usage :
      (now later : Instant) (provider model : Text) (t limit window used : ℕ) (start : Instant)
      (l : QuotaLedger)
      → Tracks (quota_key provider model) l limit window used start
      → start ≤ now
      → now ≤ later
      → used + suc t < two63
      → is_balance_low provider l ≡ false
      → let total = in_window now start window used + suc t in
        let began = window_start now start window in
        (remaining fl later provider model
          (record_usage now provider model (pos (suc t)) l)).1.remaining
        ≡ pos (limit - in_window later began window total)
  remaining-record_usage now later provider model t limit window used start l h s m b low =
      let total = in_window now start window used + suc t in
      let fits : total < two63 = ground arith in
      let began = window_start now start window in
      let tr = record_usage-Tracks now provider model t limit window used start l h s fits in
      let low' = is_balance_low-record_usage now provider model (pos (suc t)) l ∙ low in
      (remaining-Tracks later provider model limit window total began
        (record_usage now provider model (pos (suc t)) l) tr (ground arith) (ground arith) low').0
