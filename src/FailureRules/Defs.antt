-- ===== src/FailureRules/Defs.antt =====
-- internal/router/failurerules.go.
use token_route.Base.{
  ℕ, zero, suc, ◌+◌, ◌*◌, Bool, true, false, ◌&&◌, ◌||◌, not, Option, none, some, List, [], ◌∷◌,
  map, leb, if◌then◌else◌,
}
use token_route.Base.Int.{ℤ, pos, leb_ℤ, ltb_ℤ, eqb_ℤ}
use token_route.Base.Text.{Text, contains, trim_space}
use token_route.Base.Time.{Duration, second, minute, of_millis}
use token_route.Base.Dict.{lookup, insert, delete, text_key}

abbrev pub backoff_base : ℕ
backoff_base = 2 * second

abbrev pub backoff_cap : ℕ
backoff_cap = 5 * minute

pub record FailureRule : Type 0 where
  pub pattern_text : Text  -- `Match`
  pub status : ℤ
  pub cooldown_ms : ℤ
  pub backoff : Bool

pub record FailureRules : Type 0 where
  pub text_rules : List FailureRule
  pub status_rules : List FailureRule
  pub levels : List (Text × ℕ)

-- The config errors of `NewFailureRules`, with the index of the rule.
pub data RuleError : Type 0 where
  needs_selector two_selectors bad_status needs_cooldown two_cooldowns : ℕ → RuleError

pub data Result {ℓ} (A : Type ℓ) : Type ℓ where
  ok : A → Result A
  err : RuleError → Result A

abbrev pub is_blank : Text → Bool
is_blank [] = true
is_blank (_ ∷ _) = false

abbrev pub has_match : FailureRule → Bool
has_match r = not (is_blank (trim_space r.pattern_text))

abbrev pub has_status : FailureRule → Bool
has_status r = not (eqb_ℤ r.status (pos 0))

-- The `switch` of `NewFailureRules`.
unfoldable pub rule_error : ℕ → FailureRule → Option RuleError
rule_error i r =
    if not (has_match r) && not (has_status r)
    then some (needs_selector i)
    else (if has_match r && has_status r
        then some (two_selectors i)
        else (if has_status r && (ltb_ℤ r.status (pos 100) || ltb_ℤ (pos 599) r.status)
            then some (bad_status i)
            else (if not r.backoff && leb_ℤ r.cooldown_ms (pos 0)
                then some (needs_cooldown i)
                else (if r.backoff && ltb_ℤ (pos 0) r.cooldown_ms
                    then some (two_cooldowns i)
                    else none))))

-- The loop of `duration` over the levels that are left.
unfoldable pub backoff_loop : ℕ → ℕ → ℕ
backoff_loop zero d = d
backoff_loop (suc n) d =
    let rest = backoff_loop n (d * 2) in if leb backoff_cap (d * 2) then backoff_cap else rest

abbrev pub level_of : Text → FailureRules → ℕ
level_of name fr = elim (lookup name fr.levels) [ none ↦ 0 | some n ↦ n ]

-- `duration`
unfoldable pub duration : Text → FailureRule → FailureRules → FailureRules × Duration
unfolding backoff_loop
duration name r fr =
    let level = level_of name fr in
    let waited = backoff_loop level backoff_base in
    if r.backoff
    then (record fr { levels = insert name (level + 1) fr.levels }, pos waited)
    else (fr, of_millis r.cooldown_ms)

-- The two loops of `Cooldown`.
unfoldable pub find_text : Text → List FailureRule → Option FailureRule
find_text norm [] = none
find_text norm (r ∷ rules) = if contains norm r.pattern_text then some r else find_text norm rules

unfoldable pub find_status : ℤ → List FailureRule → Option FailureRule
find_status status [] = none
find_status status (r ∷ rules) = if eqb_ℤ r.status status then some r else find_status status rules

abbrev applied : Text → FailureRules → Option FailureRule → FailureRules × Option Duration
applied name fr none = (fr, none)
applied name fr (some r) = let (fr', d) = duration name r fr in (fr', some d)

abbrev or_else : Option FailureRule → Option FailureRule → Option FailureRule
or_else none o = o
or_else (some r) o = some r

-- `unicode.ToLower` on one code point is the parameter `lower`.
module _ (lower : ℕ → ℕ) where
  abbrev pub normalize : FailureRule → FailureRule
  normalize r = record r { pattern_text = map lower (trim_space r.pattern_text) }

  abbrev pub place : FailureRule → Result FailureRules → Result FailureRules
  place r (err e) = err e
  place r (ok fr) =
      if has_match r
      then ok (record fr { text_rules = normalize r ∷ fr.text_rules })
      else ok (record fr { status_rules = r ∷ fr.status_rules })

  -- The loop of `NewFailureRules`: the first faulty rule ends it.
  unfoldable pub load_rules : ℕ → List FailureRule → Result FailureRules
  load_rules i [] = ok (record { text_rules = []; status_rules = []; levels = [] })
  load_rules i (r ∷ rules) =
      let rest = load_rules (i + 1) rules in
      elim (rule_error i r) [ some e ↦ err e | none ↦ place r rest ]

  abbrev some_rules : Result FailureRules → Result (Option FailureRules)
  some_rules (ok fr) = ok (some fr)
  some_rules (err e) = err e

  -- `NewFailureRules`; `ok none` is the nil pointer.
  unfoldable pub new : List FailureRule → Result (Option FailureRules)
  unfolding load_rules
  new [] = ok none
  new (r ∷ rules) = some_rules (load_rules 0 (r ∷ rules))

  -- The rule that prescribes the cooldown of one failure.
  unfoldable pub select : ℤ → Text → FailureRules → Option FailureRule
  unfolding find_text find_status
  select status body fr =
      or_else (find_text (map lower body) fr.text_rules) (find_status status fr.status_rules)

  -- `Cooldown`
  unfoldable pub cooldown :
      Text → ℤ → Text → Option FailureRules → Option FailureRules × Option Duration
  unfolding select duration
  cooldown name status body none = (none, none)
  cooldown name status body (some fr) =
      let (fr', d) = applied name fr (select status body fr) in (some fr', d)

-- `OnSuccess`
unfoldable pub on_success : Text → Option FailureRules → Option FailureRules
on_success name none = none
on_success name (some fr) = some (record fr { levels = delete name fr.levels })

-- `BackoffLevel`
unfoldable pub backoff_level : Text → Option FailureRules → ℕ
backoff_level name none = 0
backoff_level name (some fr) = elim (lookup name fr.levels) [ none ↦ 0 | some n ↦ n ]
