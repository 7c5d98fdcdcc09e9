-- ===== src/Classify/Laws.antt =====
-- internal/router/failure.go: which failures are retried elsewhere, and which count.
use token_route.Base.{ℕ, ◌≡◌, ◌↔◌, ◌≤◌, ◌⊎◌, Bool, true, false, Option, none, some, arith, map, not}
use token_route.Base.Text.{Text}
use token_route.Failure.{FailureKind, unknown, rate_limit, timeout, provider_5xx, network}
use token_route.Classify.Regex.{match_string}
use token_route.Classify.Defs.{classify_failure, is_local_abort, re_timeout, re_quota}

-- The kinds after which another provider may succeed.
abbrev pub is_transient : FailureKind → Bool
is_transient rate_limit = true
is_transient timeout = true
is_transient provider_5xx = true
is_transient network = true
is_transient _ = false

module _ (lower : ℕ → ℕ) where
  -- A failure is retryable exactly when its kind is transient, for every status, body and
  -- transport error.
  pub classify_failure-retryable :
      (status : ℕ) (body : Text) (e : Option Text)
      → (classify_failure lower status body e).retryable
        ≡ is_transient (classify_failure lower status body e).kind
  unfolding classify_failure
  classify_failure-retryable status body none = ground arith
  classify_failure-retryable status body (some m) = ground arith

  -- A transport error has the kind `unknown`, the one that is not counted against the provider,
  -- exactly when its message is that of a local abort, and it is retryable exactly otherwise.
  pub classify_failure_transport :
      (status : ℕ) (body message : Text)
      → (((classify_failure lower status body (some message)).kind ≡ unknown)
          ↔ (is_local_abort lower message ≡ true))
        × ((classify_failure lower status body (some message)).retryable
            ≡ not (is_local_abort lower message))
  unfolding classify_failure
  classify_failure_transport status body m = ground arith

  -- Without wording of a timeout in the body, an answer of the upstream is retryable exactly for
  -- the statuses 408 and from 500 on, and for a 429 that is no exhausted quota.
  pub classify_failure_statuses :
      (status : ℕ) (body : Text)
      → match_string re_timeout (map lower body) ≡ false
      → ((classify_failure lower status body none).retryable ≡ true) ↔ (
          (status ≡ 408)
          ⊎ (500 ≤ status)
          ⊎ ((status ≡ 429) × (match_string re_quota (map lower body) ≡ false)))
  unfolding classify_failure
  classify_failure_statuses status body h = ground arith
