-- ===== src/RetryPolicy/Keywords.antt =====
-- internal/router/retrypolicy.go: the keywords that disable a provider.
use token_route.Base.{
  ℕ, ◌≡◌, Bool, true, false, Option, none, some, List, [], ◌∷◌, map, not, arith, refl,
  if◌then◌else◌, ◌&&◌, ap, ◌∙◌,
}
use token_route.Base.Int.{ℤ}
use token_route.Base.Text.{Text, contains, trim_space}
use token_route.Failure.{FailureKind, unknown, auth, quota_exhausted}
use token_route.RetryPolicy.Defs.{
  RetryPolicy, is_blank, is_billing, load_keywords, find_keyword, classify_keyword, new, ok,
}

module _ (lower : ℕ → ℕ) where
  -- The first keyword that the lowered body contains.
  abbrev pub first_hit : Text → List Text → Option Text
  first_hit norm [] = none
  first_hit norm (kw ∷ kws) = if contains norm kw then some kw else first_hit norm kws

  abbrev pub verdict : Option Text → FailureKind × Bool
  verdict none = (unknown, false)
  verdict (some kw) = if is_billing kw then (quota_exhausted, true) else (auth, true)

  find_keyword-verdict :
      (norm : Text) (kws : List Text) → find_keyword lower norm kws ≡ verdict (first_hit norm kws)
  unfolding find_keyword
  find_keyword-verdict norm [] = refl
  find_keyword-verdict norm (kw ∷ kws) = ground (arith, find_keyword-verdict norm kws)

  -- The same over the keywords as configured: trimmed, lowered, and passed over when blank.
  abbrev pub first_configured : Text → List Text → Option Text
  first_configured norm [] = none
  first_configured norm (raw ∷ kws) =
      let kw = map lower (trim_space raw) in
      let rest = first_configured norm kws in
      if not (is_blank kw) && contains norm kw then some kw else rest

  load_keywords-first :
      (norm : Text) (kws : List Text)
      → first_hit norm (load_keywords lower kws) ≡ first_configured norm kws
  unfolding load_keywords
  load_keywords-first norm [] = refl
  load_keywords-first norm (raw ∷ kws) = ground (arith, load_keywords-first norm kws)

  new-keywords :
      (retry_ranges disable_ranges : Text) (never : List ℤ) (kws : List Text) (p : RetryPolicy)
      → new lower retry_ranges disable_ranges never kws ≡ ok p
      → p.disable_keywords ≡ load_keywords lower kws
  unfolding new
  new-keywords retry_ranges disable_ranges never kws p h = ground arith

  -- A policy made from a configuration classifies a body by the first configured keyword, trimmed
  -- and in lower case, that is not blank and that the lowered body contains: a billing keyword
  -- disables for an exhausted quota, another one for its authorization, and without a keyword the
  -- provider stays.
  pub new-classify_keyword :
      (retry_ranges disable_ranges : Text) (never : List ℤ) (kws : List Text) (p : RetryPolicy)
      (body : Text)
      → new lower retry_ranges disable_ranges never kws ≡ ok p
      → classify_keyword lower (some p) body ≡ verdict (first_configured (map lower body) kws)
  unfolding classify_keyword
  new-classify_keyword retry_ranges disable_ranges never kws p body h =
      let norm = map lower body in
      find_keyword-verdict norm p.disable_keywords
      ∙ ap (λ l. verdict (first_hit norm l))
          (new-keywords retry_ranges disable_ranges never kws p h)
      ∙ ap verdict (load_keywords-first norm kws)
