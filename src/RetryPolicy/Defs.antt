-- ===== src/RetryPolicy/Defs.antt =====
-- internal/router/retrypolicy.go. The table `[600]bool` is a function of the status code.
use token_route.Base.{
  ℕ, zero, suc, ◌+◌, ◌-◌, Bool, true, false, ◌||◌, Option, none, some, List, [], ◌∷◌, map, ◌==◌,
  if◌then◌else◌,
}
use token_route.Base.Int.{ℤ, pos, pos_part, ltb_ℤ}
use token_route.Base.Text.{Text, codes, contains, trim_space, split, cut, atoi}
use token_route.Failure.{FailureKind, unknown, auth, quota_exhausted}

abbrev pub Table : Type 0
Table = ℕ → Bool

-- `out[i] = v`
abbrev pub put : Table → ℕ → Bool → Table
put t i v = λ j. if j == i then v else t j

-- `for i := a; i <= b; i++ { out[i] = true }`, with the rounds counted.
unfoldable pub mark : ℕ → ℕ → Table → Table
mark zero a t = t
mark (suc n) a t = mark n (a + 1) (put t a true)

-- Why a configuration is refused.
pub data PolicyError : Type 0 where
  bad_range : Text → PolicyError
  bad_never_retry : ℤ → PolicyError

pub data Result {ℓ} (A : Type ℓ) : Type ℓ where
  ok : A → Result A
  err : PolicyError → Result A

infixl 5 ◌>>=◌
abbrev pub ◌>>=◌ {ℓ κ} : {A : Type ℓ} {B : Type κ} → Result A → (A → Result B) → Result B
ok a >>= f = f a
err e >>= f = err e

-- A bound of a range: a number from `lo` to 599.
abbrev bounded : ℤ → Option ℤ → Option ℕ
bounded lo none = none
bounded lo (some n) = if ltb_ℤ n lo || ltb_ℤ (pos 599) n then none else some (pos_part n)

abbrev upper : ℕ → Option Text → Option ℕ
upper a none = some a
upper a (some hi) = bounded (pos a) (atoi (trim_space hi))

abbrev with_upper : ℕ → Option ℕ → Option (ℕ × ℕ)
with_upper a none = none
with_upper a (some b) = some (a, b)

abbrev with_lower : Option ℕ → Option Text → Option (ℕ × ℕ)
with_lower none hi = none
with_lower (some a) hi = with_upper a (upper a hi)

-- One part of `ParseStatusRanges`, trimmed: the first and the last code of the range.
unfoldable pub parse_part : Text → Option (ℕ × ℕ)
parse_part part =
    let (lo, hi) = cut b'-' part in with_lower (bounded (pos 0) (atoi (trim_space lo))) hi

abbrev pub is_blank : Text → Bool
is_blank [] = true
is_blank (_ ∷ _) = false

-- The loop of `ParseStatusRanges`.
unfoldable pub parse_parts : List Text → Table → Result Table
unfolding mark
parse_parts [] t = ok t
parse_parts (raw ∷ parts) t =
    let part = trim_space raw in
    let skipped = parse_parts parts t in
    if is_blank part then skipped else elim (parse_part part) [
      | none ↦ err (bad_range part)
      | some (a, b) ↦ parse_parts parts (mark (b + 1 - a) a t)
    ]

abbrev pub empty_table : Table
empty_table _ = false

-- `ParseStatusRanges`
unfoldable pub parse_status_ranges : Text → Result Table
unfolding parse_parts
parse_status_ranges s = parse_parts (split b',' s) empty_table

pub record RetryPolicy : Type 0 where
  pub retry : Table
  pub disable : Table
  pub disable_keywords : List Text

-- The loop over `neverRetry`.
unfoldable pub clear_never : List ℤ → Table → Result Table
clear_never [] t = ok t
clear_never (code ∷ codes') t =
    let rest = clear_never codes' (put t (pos_part code) false) in
    if ltb_ℤ code (pos 0) || ltb_ℤ (pos 599) code then err (bad_never_retry code) else rest

-- `if disableRanges != "" { … }`
unfoldable pub parse_disable : Text → Result Table
parse_disable [] = ok empty_table
parse_disable (c ∷ s) = parse_status_ranges (c ∷ s)

-- `code < 0 || code > 599`, or the entry of the table.
abbrev pub entry : Table → ℤ → Bool
entry t code = if ltb_ℤ code (pos 0) || ltb_ℤ (pos 599) code then false else t (pos_part code)

-- `Retryable`
unfoldable pub retryable : RetryPolicy → ℤ → Bool
retryable p code = entry p.retry code

-- `DisableStatus`
unfoldable pub disable_status : RetryPolicy → ℤ → Bool
disable_status p code = entry p.disable code

abbrev pub is_billing : Text → Bool
is_billing kw =
    contains kw (codes "balance")
    || contains kw (codes "credit")
    || contains kw (codes "quota")
    || contains kw (codes "insufficient")

module _ (lower : ℕ → ℕ) where
  -- The loop over `keywords`.
  unfoldable pub load_keywords : List Text → List Text
  load_keywords [] = []
  load_keywords (raw ∷ kws) =
      let kw = map lower (trim_space raw) in
      let rest = load_keywords kws in if is_blank kw then rest else kw ∷ rest

  -- `NewRetryPolicy`
  unfoldable pub new : Text → Text → List ℤ → List Text → Result RetryPolicy
  new retry_ranges disable_ranges never_retry keywords = do
    parsed ← parse_status_ranges retry_ranges
    kept ← clear_never never_retry parsed
    disabled ← parse_disable disable_ranges
    ok (record { retry = kept; disable = disabled; disable_keywords = load_keywords keywords })

  -- The loop of `ClassifyKeyword`.
  unfoldable pub find_keyword : Text → List Text → FailureKind × Bool
  find_keyword norm [] = (unknown, false)
  find_keyword norm (kw ∷ kws) =
      let rest = find_keyword norm kws in
      if contains norm kw
      then (if is_billing kw then (quota_exhausted, true) else (auth, true))
      else rest

  -- `ClassifyKeyword`; `none` is the nil policy.
  unfoldable pub classify_keyword : Option RetryPolicy → Text → FailureKind × Bool
  unfolding find_keyword
  classify_keyword none body = (unknown, false)
  classify_keyword (some p) body = find_keyword (map lower body) p.disable_keywords
