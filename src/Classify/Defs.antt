-- ===== src/Classify/Defs.antt =====
-- internal/router/failure.go: `ClassifyFailure` and the patterns that it tests.
use token_route.Base.{
  ℕ, Bool, true, false, ◌||◌, Option, none, some, [], ◌∷◌, map, ◌==◌, leb, if◌then◌else◌,
}
use token_route.Base.Text.{Text, codes, contains}
use token_route.Failure.{
  FailureKind, Failure, unknown, auth, permission, rate_limit, quota_exhausted, timeout,
  provider_5xx, invalid_request, model_unavailable, network,
}
use token_route.Classify.Regex.{Regex, dot, seq, lit, opt, alts, match_string}

-- `quota|insufficient.?balance|credits? exhausted|balance is \$?0|insufficient_user_quota`
unfoldable pub re_quota : Regex
re_quota = alts (lit (codes "quota")) (
    seq (lit (codes "insufficient")) (seq (opt dot) (lit (codes "balance")))
    ∷ seq (lit (codes "credit")) (seq (opt (lit (codes "s"))) (lit (codes " exhausted")))
    ∷ seq (lit (codes "balance is ")) (seq (opt (lit (codes "$"))) (lit (codes "0")))
    ∷ lit (codes "insufficient_user_quota")
    ∷ [])

-- `timeout|timed out|deadline exceeded`
unfoldable pub re_timeout : Regex
re_timeout =
    alts (lit (codes "timeout")) (lit (codes "timed out") ∷ lit (codes "deadline exceeded") ∷ [])

-- `model (unavailable|not found|does not exist)|unknown model|no such model`
unfoldable pub re_model_missing : Regex
re_model_missing =
    alts
      (seq (lit (codes "model ")) (
        alts (lit (codes "unavailable"))
          (lit (codes "not found") ∷ lit (codes "does not exist") ∷ [])))
      (lit (codes "unknown model") ∷ lit (codes "no such model") ∷ [])

-- `invalid request|malformed|unsupported parameter|validation`
unfoldable pub re_invalid : Regex
re_invalid =
    alts (lit (codes "invalid request")) (
      lit (codes "malformed") ∷ lit (codes "unsupported parameter") ∷ lit (codes "validation") ∷ [])

abbrev pub failure : FailureKind → Bool → Failure
failure k r = record { kind = k; retryable = r }

-- `unicode.ToLower` on one code point is the parameter `lower`.
module _ (lower : ℕ → ℕ) where
  -- `isLocalAbort`, on the error's message.
  unfoldable pub is_local_abort : Text → Bool
  is_local_abort message =
      let msg = map lower message in
      contains msg (codes "context canceled")
      || contains msg (codes "client disconnected")
      || contains msg (codes "operation was aborted")
      || contains msg (codes "broken pipe")
      || contains msg (codes "connection reset by peer")

  -- The branch `transportErr != nil`.
  unfoldable pub classify_transport : Text → Failure
  unfolding is_local_abort
  classify_transport message =
      if is_local_abort message
      then failure unknown false
      else (if match_string re_timeout (map lower message)
          then failure timeout true
          else failure network true)

  -- The `switch` over the status.
  unfoldable pub classify_status : ℕ → Text → Failure
  classify_status status body =
      let norm = map lower body in
      if status == 401
      then failure auth false
      else (if status == 403
          then (if contains norm (codes "permission")
              then failure permission false
              else failure auth false)
          else (if status == 408 || status == 504 || match_string re_timeout norm
              then failure timeout true
              else (if status == 429
                  then (if match_string re_quota norm
                      then failure quota_exhausted false
                      else failure rate_limit true)
                  else (if leb 500 status
                      then failure provider_5xx true
                      else (if status == 400 || match_string re_invalid norm
                          then failure invalid_request false
                          else (if status == 404 || match_string re_model_missing norm
                              then failure model_unavailable false
                              else failure unknown false))))))

  -- `ClassifyFailure`; the transport error is its message.
  unfoldable pub classify_failure : ℕ → Text → Option Text → Failure
  unfolding classify_transport classify_status
  classify_failure status body none = classify_status status body
  classify_failure status body (some message) = classify_transport message
