-- ===== src/Server/Hints.antt =====
-- internal/server/server.go: `resetHint`, `earliestReset` and the header that `relayAllFailed` sets.
use token_route.Base.{
  ℕ, ◌+◌, ◌/◌, Bool, true, ◌||◌, ◌&&◌, not, Option, none, some, List, [], ◌∷◌, ◌++◌, ltb, ◌==◌,
  if◌then◌else◌,
}
use token_route.Base.Int.{ℤ, pos, leb_ℤ, ltb_ℤ, pos_part}
use token_route.Base.Text.{Text, codes, format_int}
use token_route.Base.Time.{Instant, sub_time, is_zero, before, after, second}
use token_route.Base.Dict.{insert, text_key}
use token_route.Base.Float.{Float64}
use token_route.Quota.Defs.{QuotaLedger, Budget, remaining, window_reset}
use token_route.Router.Defs.{Router, Route, Candidate}
use token_route.Router.Lookups.{resolve, model_lock_until}
use token_route.Router.Methods.{circuit_open_until}
use token_route.Server.Headers.{get_header, parse_int64}
use token_route.Server.Replies.{Response}

pub data ResetSource : Type 0 where
  no_source from_upstream from_quota from_circuit : ResetSource

pub record ResetHint : Type 0 where
  pub at : Instant
  pub source : ResetSource

abbrev pub no_hint : ResetHint
no_hint = record { at = 0; source = no_source }

-- `observe`
unfoldable pub observe : Instant → ResetHint → Instant × ResetSource → ResetHint
observe now h (at, source) =
    if is_zero at || not (after at now)
    then h
    else (if is_zero h.at || before at h.at then record { at = at; source = source } else h)

unfoldable pub observe_all : Instant → ResetHint → List (Instant × ResetSource) → ResetHint
unfolding observe
observe_all now h [] = h
observe_all now h (x ∷ xs) = observe_all now (observe now h x) xs

-- `seconds`; below some weeks the whole seconds of `d.Seconds()` are exact.
unfoldable pub hint_seconds : Instant → ResetHint → ℕ
hint_seconds now h =
    let d = sub_time h.at now in
    if is_zero h.at || leb_ℤ d (pos 0) then 0 else pos_part d / second + 1

-- What `resp.Header.Get("Retry-After")` says in whole seconds, where it is a number above 0.
abbrev shorter : ℕ → Option ℤ → Bool
shorter secs none = true
shorter secs (some cur) = leb_ℤ cur (pos 0) || ltb_ℤ (pos secs) cur

module _ (fl : Float64) where
  open fl use {F}

  abbrev pub with_quota :
      Instant
      → Text
      → Text
      → Router F
      → QuotaLedger × Budget fl
      → Router F × List (Instant × ResetSource)
  with_quota now name model r (l, b) =
      let (l', at) = window_reset now name model l in
      if b.known && leb_ℤ b.remaining (pos 0)
      then (record r { quota = l' }, (at, from_quota) ∷ [])
      else (record r { quota = l }, [])

  -- The instants that one candidate contributes, in their order.
  unfoldable pub candidate_resets :
      Instant → Candidate → Router F → Router F × List (Instant × ResetSource)
  candidate_resets now c r =
      let name = c.provider.name in
      let (r', locked) = model_lock_until now name c.model r in
      let (r'', spent) = with_quota now name c.model r' (remaining fl now name c.model r'.quota) in
      (r'', (locked, from_upstream) ∷ (spent ++ ((circuit_open_until name r'', from_circuit) ∷ [])))

  -- The loop of `earliestReset`.
  unfoldable pub reset_loop : Instant → List Candidate → Router F → ResetHint → Router F × ResetHint
  unfolding candidate_resets observe_all
  reset_loop now [] r h = (r, h)
  reset_loop now (c ∷ cs) r h =
      let (r', xs) = candidate_resets now c r in reset_loop now cs r' (observe_all now h xs)

  abbrev pub hinted_candidates : Option Route → List Candidate → List Candidate
  hinted_candidates none tried = tried
  hinted_candidates (some rt) tried = rt.candidates

  -- `earliestReset`
  unfoldable pub earliest_reset : Instant → Text → List Candidate → Router F → Router F × ResetHint
  unfolding reset_loop
  earliest_reset now model tried r =
      reset_loop now (hinted_candidates (resolve model r) tried) r no_hint

  -- What `relayAllFailed` does to the last failing response before it is relayed.
  unfoldable pub hint_response :
      Instant → Text → List Candidate → Response → Router F → Router F × Response
  unfolding earliest_reset
  hint_response now model tried att r =
      let (r', h) = earliest_reset now model tried r in
      let secs = hint_seconds now h in
      let cur = parse_int64 (get_header (codes "Retry-After") att.header) in
      if att.status == 429
      then (
        r',
        if ltb 0 secs && shorter secs cur
            then record att {
              header = insert (codes "Retry-After") (format_int (pos secs)) att.header;
            }
            else att,
      )
      else (r, att)
