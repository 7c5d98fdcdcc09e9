-- ===== src/Server/Keys.antt =====
-- internal/server/server.go: what a request's virtual API key allows: `requireKey`, `timeoutOverride`
-- and the checks of `prepareRequest`. The row that the key store finds is a parameter.
use token_route.Base.{
  ℕ, ◌*◌, ◌%◌, Bool, true, false, ◌||◌, ◌&&◌, not, any, Option, none, some, List, [], ◌∷◌, ◌++◌,
  if◌then◌else◌, drop,
}
use token_route.Base.Int.{ℤ, pos, leb_ℤ, ltb_ℤ, pos_part, two63}
use token_route.Base.Text.{Text, codes, text_eq, has_prefix, trim_space, format_int}
use token_route.Base.Time.{Instant, Duration, after, millisecond}
use token_route.Base.Hash.{fnv64a}
use token_route.Base.Float.{Float64}
use token_route.RetryPolicy.Defs.{is_blank}
use token_route.RateLimit.Registry.{
  Registry, allow_rpm, allow_model_rpm, rpm_remaining, tpm_remaining, rpm_retry_after,
  tpm_retry_after, model_rpm_retry_after,
}
use token_route.Server.Headers.{Header, get_header, parse_int64}

-- `auth.Key`, the fields that the request path reads.
pub record ApiKey (F : Type 0) : Type 0 where
  pub id : ℤ
  pub enabled : Bool
  pub expires_at : Option Instant
  pub allowed_models : List Text
  pub groups : List Text
  pub quota_tokens : ℤ
  pub spent_tokens : ℤ
  pub budget_usd : F
  pub spent_usd : F
  pub daily_quota : ℤ
  pub daily_used : ℤ
  pub rpm : ℤ
  pub model_rpm : ℤ
  pub tpm : ℤ
  pub limit_by_header : Text

-- What the key store answers.
pub data KeyLookup (F : Type 0) : Type 0 where
  lookup_error : Text → KeyLookup F
  no_row : KeyLookup F
  row : ApiKey F → KeyLookup F

-- Why a request is refused; a number is the hint of `Retry-After`.
pub data Refusal : Type 0 where
  invalid_api_key key_lookup_failed model_not_allowed quota_exceeded : Refusal
  budget_exceeded daily_quota_exceeded missing_model no_provider group_forbidden : Refusal
  rate_limit_exceeded : ℤ → Refusal

-- The status of each refusal.
unfoldable pub refusal_status : Refusal → ℕ
refusal_status invalid_api_key = 401
refusal_status key_lookup_failed = 500
refusal_status model_not_allowed = 403
refusal_status quota_exceeded = 403
refusal_status budget_exceeded = 402
refusal_status daily_quota_exceeded = 429
refusal_status missing_model = 400
refusal_status no_provider = 400
refusal_status group_forbidden = 403
refusal_status (rate_limit_exceeded secs) = 429

abbrev expired : Instant → Option Instant → Bool
expired now none = false
expired now (some t) = after now t

module _ {F : Type 0} where
  abbrev admitted_row : Instant → KeyLookup F → Option (ApiKey F) × Option Refusal
  admitted_row now (lookup_error message) = (none, some key_lookup_failed)
  admitted_row now no_row = (none, some invalid_api_key)
  admitted_row now (row k) =
      if not k.enabled || expired now k.expires_at
      then (none, some invalid_api_key)
      else (some k, none)

  -- `requireKey`, where keys are required.
  unfoldable pub require_key :
      Instant → (Text → KeyLookup F) → Header → Option (ApiKey F) × Option Refusal
  require_key now get_by_key h =
      let v = get_header (codes "Authorization") h in
      if has_prefix v (codes "Bearer ")
      then admitted_row now (get_by_key (trim_space (drop 7 v)))
      else (none, some invalid_api_key)

  -- `modelAllowed`
  unfoldable pub model_allowed : Text → ApiKey F → Bool
  model_allowed model k = elim (k.allowed_models) [
    | [] ↦ true
    | m ∷ ms ↦ any (λ n. text_eq n model) (m ∷ ms)
  ]

  -- `limitIdentity`; the sign bit of the hash is cleared.
  unfoldable pub limit_identity : Header → ApiKey F → ℤ
  limit_identity h k =
      let v = get_header k.limit_by_header h in
      if is_blank k.limit_by_header || is_blank v
      then k.id
      else pos (fnv64a (format_int k.id ++ (codes ":" ++ v)) % two63)

-- `maxTimeoutMs`
abbrev max_timeout_ms : ℕ
max_timeout_ms = 600000

abbrev capped_millis : Option ℤ → Option Duration
capped_millis none = none
capped_millis (some n) =
    if leb_ℤ n (pos 0)
    then none
    else (if ltb_ℤ (pos max_timeout_ms) n
        then some (pos (max_timeout_ms * millisecond))
        else some (pos (pos_part n * millisecond)))

-- `timeoutOverride`: the timeout of the request, if the header sets one.
unfoldable pub timeout_override : Header → Option Duration
timeout_override h =
    let v = get_header (codes "X-Timeout-Ms") h in
    if is_blank v then none else capped_millis (parse_int64 (trim_space v))

-- `setRetryAfter`: an unknown wait is announced as a minute.
abbrev pub retry_hint : ℤ → ℤ
retry_hint secs = if leb_ℤ secs (pos 0) then pos 60 else secs

module _ (fl : Float64) where
  open fl use {F, of_int, lt, le}

  -- The checks that need no bucket, in their order.
  unfoldable pub account_refusal : Text → ApiKey F → Option Refusal
  unfolding model_allowed
  account_refusal model k =
      if not (model_allowed model k)
      then some model_not_allowed
      else (if ltb_ℤ (pos 0) k.quota_tokens && leb_ℤ k.quota_tokens k.spent_tokens
          then some quota_exceeded
          else (if lt (of_int (pos 0)) k.budget_usd && le k.budget_usd k.spent_usd
              then some budget_exceeded
              else (if ltb_ℤ (pos 0) k.daily_quota && leb_ℤ k.daily_quota k.daily_used
                  then some daily_quota_exceeded
                  else none)))

  -- The buckets that the response's headers report, which are brought up to date by it.
  unfoldable pub report_limits : Instant → ℤ → ApiKey F → Registry F → Registry F
  report_limits now id k r =
      let limit = if ltb_ℤ (pos 0) k.model_rpm then k.model_rpm else k.rpm in
      let r' = if ltb_ℤ (pos 0) limit then (rpm_remaining fl now id limit r).0 else r in
      if ltb_ℤ (pos 0) k.tpm then (tpm_remaining fl now id k.tpm r').0 else r'

  abbrev asked : Registry F × Bool → (Registry F → Registry F × ℤ) → Registry F × Option Refusal
  asked (r, granted) wait =
      let (r', secs) = wait r in
      if granted then (r, none) else (r', some (rate_limit_exceeded (retry_hint secs)))

  -- The limit on requests: of the model where the key has one, else of the key.
  unfoldable pub take_request :
      Instant → ℤ → Text → ApiKey F → Registry F → Registry F × Option Refusal
  take_request now id model k r =
      if ltb_ℤ (pos 0) k.model_rpm
      then asked (allow_model_rpm fl now id model k.model_rpm r)
          (model_rpm_retry_after fl now id model k.model_rpm)
      else asked (allow_rpm fl now id k.rpm r) (rpm_retry_after fl now id k.rpm)

  abbrev pub with_tokens :
      Instant → ℤ → ApiKey F → Registry F × Option Refusal → Registry F × Option Refusal
  with_tokens now id k (r, some refusal) = (r, some refusal)
  with_tokens now id k (r, none) =
      let (r', left) = tpm_remaining fl now id k.tpm r in
      let (r'', secs) = tpm_retry_after fl now id k.tpm r' in
      if leb_ℤ left (pos 0) then (r'', some (rate_limit_exceeded (retry_hint secs))) else (r', none)

  -- The checks of the limiter.
  unfoldable pub limit_request :
      Instant → ℤ → Text → ApiKey F → Registry F → Registry F × Option Refusal
  unfolding report_limits take_request
  limit_request now id model k r =
      with_tokens now id k (take_request now id model k (report_limits now id k r))

  abbrev limited :
      Instant
      → Header
      → Text
      → ApiKey F
      → Option (Registry F)
      → Option (Registry F) × Option Refusal
  limited now h model k none = (none, none)
  limited now h model k (some r) =
      let (r', o) = limit_request now (limit_identity h k) model k r in (some r', o)

  abbrev pub after_account :
      Instant
      → Header
      → Text
      → ApiKey F
      → Option (Registry F)
      → Option Refusal
      → Option (Registry F) × Option Refusal
  after_account now h model k limiter none = limited now h model k limiter
  after_account now h model k limiter (some refusal) = (limiter, some refusal)

  -- All checks of a key: the limiter afterwards, and the refusal if there is one.
  unfoldable pub check_key :
      Instant
      → Header
      → Text
      → ApiKey F
      → Option (Registry F)
      → Option (Registry F) × Option Refusal
  unfolding account_refusal
  check_key now h model k limiter = after_account now h model k limiter (account_refusal model k)
