-- ===== src/Server/Headers.antt =====
-- internal/server/server.go: what the server reads in the headers of an upstream's answer, and the
-- statuses that it retries.
use token_route.Base.{
  ℕ, ◌+◌, ◌-◌, ◌*◌, Bool, ◌||◌, Option, none, some, List, [], ◌∷◌, ltb, leb, ◌==◌, if◌then◌else◌,
}
use token_route.Base.Int.{ℤ, pos, negsuc, two63, leb_ℤ, ltb_ℤ, pos_part, neg_part}
use token_route.Base.Text.{Text, codes, trim_space, atoi}
use token_route.Base.Time.{Instant, Duration, sub_time, second, hour, of_seconds}
use token_route.Base.Dict.{lookup, text_key}
use token_route.Quota.Defs.{observe_upstream}
use token_route.RetryPolicy.Defs.{RetryPolicy, retryable, is_blank}
use token_route.Router.Defs.{Router}

-- The first value under each canonical name.
abbrev pub Header : Type 0
Header = List (Text × Text)

abbrev or_empty : Option Text → Text
or_empty none = []
or_empty (some v) = v

-- `h.Get(name)`
abbrev pub get_header : Text → Header → Text
get_header name h = or_empty (lookup name h)

-- `http.ParseTime` and `time.ParseDuration`
pub record TimeParsers : Type 0 where
  pub http_time : Text → Option Instant
  pub go_duration : Text → Option Duration

abbrev in_range : Option ℤ → Option ℤ
in_range none = none
in_range (some n) =
    if ltb (pos_part n) two63 then (if leb (neg_part n) two63 then some n else none) else none

-- `strconv.ParseInt(v, 10, 64)` and `strconv.Atoi(v)`, which refuse what an int64 does not hold.
abbrev pub parse_int64 : Text → Option ℤ
parse_int64 v = in_range (atoi v)

-- The seconds from the zero `Time` to the Unix epoch.
abbrev unix_epoch : ℕ
unix_epoch = 62135596800

-- `time.Until(time.Unix(n, 0))`, where the seconds of a far future wrap to a far past.
abbrev until_unix : Instant → ℕ → Duration
until_unix now n =
    if ltb (n + unix_epoch) two63
    then sub_time ((n + unix_epoch) * second) now
    else negsuc (two63 - 1)

-- `maxRateLimitReset`
abbrev pub max_rate_limit_reset : ℕ
max_rate_limit_reset = 24 * hour

-- The names that `rateLimitReset` tries.
abbrev reset_names : List Text
reset_names =
    codes "X-Ratelimit-Reset-Requests"
    ∷ codes "X-Ratelimit-Reset"
    ∷ codes "X-Ratelimit-Reset-Tokens"
    ∷ []

module _ (ps : TimeParsers) where
  abbrev until_time : Instant → Option Instant → Duration
  until_time now none = pos 0
  until_time now (some t) = sub_time t now

  abbrev number_reset : Instant → Text → Option ℤ → Duration
  number_reset now v none = until_time now (ps.http_time v)
  number_reset now v (some n) =
      if leb_ℤ n (pos 0)
      then until_time now (ps.http_time v)
      else (if ltb 1000000000 (pos_part n) then until_unix now (pos_part n) else of_seconds n)

  -- The loop of `rateLimitReset`.
  unfoldable pub first_reset : Instant → List Text → Header → Duration
  first_reset now [] h = pos 0
  first_reset now (name ∷ names) h =
      let v = trim_space (get_header name h) in
      let d = number_reset now v (parse_int64 v) in
      let rest = first_reset now names h in
      if is_blank v
      then rest
      else (if ltb_ℤ (pos max_rate_limit_reset) d
          then pos max_rate_limit_reset
          else (if ltb_ℤ (pos 0) d then d else rest))

  -- `rateLimitReset`
  unfoldable pub rate_limit_reset : Instant → Header → Duration
  unfolding first_reset
  rate_limit_reset now h = first_reset now reset_names h

  abbrev positive_or_zero : Duration → Duration
  positive_or_zero d = if ltb_ℤ (pos 0) d then d else pos 0

  abbrev number_after : Instant → Text → Option ℤ → Duration
  number_after now v none = positive_or_zero (until_time now (ps.http_time v))
  number_after now v (some n) = if leb_ℤ n (pos 0) then pos 0 else of_seconds n

  -- `parseRetryAfter`
  unfoldable pub parse_retry_after : Instant → Text → Duration
  parse_retry_after now v =
      if is_blank v then pos 0 else number_after now v (parse_int64 (trim_space v))

  abbrev duration_or_zero : Option Duration → Duration
  duration_or_zero none = pos 0
  duration_or_zero (some d) = positive_or_zero d

  abbrev number_duration : Text → Option ℤ → Duration
  number_duration v none = duration_or_zero (ps.go_duration v)
  number_duration v (some n) = if leb_ℤ n (pos 0) then pos 0 else of_seconds n

  -- `parseOIDuration`
  unfoldable pub parse_oi_duration : Text → Duration
  parse_oi_duration raw =
      let v = trim_space raw in if is_blank v then pos 0 else number_duration v (parse_int64 v)

  -- `headerInt`
  unfoldable pub header_int : Header → Text → Option ℤ
  header_int h name =
      let v = trim_space (get_header name h) in if is_blank v then none else parse_int64 v

  abbrev or_else : Option ℤ → Option ℤ → Option ℤ
  or_else none o = o
  or_else (some n) o = some n

  -- What `observeUpstreamQuota` reads: the tokens that remain, and the time to their reset.
  unfoldable pub observation : Header → Option (ℤ × Duration)
  unfolding header_int parse_oi_duration
  observation h =
      let own = parse_oi_duration (get_header (codes "X-Ratelimit-Reset-Tokens") h) in
      let other = parse_oi_duration (get_header (codes "Anthropic-Ratelimit-Reset-Tokens") h) in
      elim (or_else (header_int h (codes "X-Ratelimit-Remaining-Tokens"))
        (header_int h (codes "Anthropic-Ratelimit-Remaining-Tokens"))) [
          | none ↦ none
          | some n ↦ some (n, if ltb_ℤ (pos 0) own then own else other)
        ]

  abbrev pub note_observation :
      {F : Type 0} → Instant → Text → Text → Option (ℤ × Duration) → Router F → Router F
  note_observation now name model none r = r
  note_observation now name model (some (n, reset)) r = record r {
    quota = observe_upstream now name model n reset r.quota;
  }

  -- `observeUpstreamQuota`
  unfoldable pub observe_upstream_quota :
      {F : Type 0} → Instant → Text → Text → Header → Router F → Router F
  unfolding observation
  observe_upstream_quota now name model h r = note_observation now name model (observation h) r

-- The built-in set of `retryableStatus`.
unfoldable pub builtin_retryable : ℕ → Bool
builtin_retryable code = code == 429 || code == 500 || code == 502 || code == 503 || code == 504

-- `retryableStatus`
unfoldable pub retryable_status : Option RetryPolicy → ℕ → Bool
unfolding builtin_retryable
retryable_status none code = builtin_retryable code
retryable_status (some p) code = retryable p (pos code)
