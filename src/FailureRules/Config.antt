-- ===== src/FailureRules/Config.antt =====
-- internal/router/failurerules.go: what the constructor accepts.
use token_route.Base.{
  ℕ, ◌+◌, ◌≡◌, Bool, true, false, ◌&&◌, ◌||◌, not, none, some, List, [], ◌∷◌, map, all, arith,
  if◌then◌else◌, Option, Bool-cases, Option-cases, inl, inr, refl,
}
use token_route.Base.Int.{pos, leb_ℤ, ltb_ℤ}
use token_route.FailureRules.Defs.{
  FailureRule, FailureRules, Result, ok, err, RuleError, has_match, has_status, rule_error,
  normalize, load_rules, new,
}

-- The rules that `p` holds of, in their order.
abbrev pub keep : (FailureRule → Bool) → List FailureRule → List FailureRule
keep p [] = []
keep p (r ∷ rules) = let rest = keep p rules in if p r then r ∷ rest else rest

abbrev exactly_one : Bool → Bool → Bool
exactly_one true b = not b
exactly_one false b = b

-- A rule has one selector, a status that HTTP knows, and one way to wait.
abbrev pub is_sound : FailureRule → Bool
is_sound r =
    exactly_one (has_match r) (has_status r)
    && (not (has_status r) || leb_ℤ (pos 100) r.status && leb_ℤ r.status (pos 599))
    && exactly_one r.backoff (ltb_ℤ (pos 0) r.cooldown_ms)

rule_error_sound : (i : ℕ) (r : FailureRule) → is_sound r ≡ true → rule_error i r ≡ none
unfolding rule_error
rule_error_sound i r h = ground arith

rule_error-none : (i : ℕ) (r : FailureRule) → rule_error i r ≡ none → is_sound r ≡ true
unfolding rule_error
rule_error-none i r h = ground arith

-- A result without the words of its error.
abbrev pub accepted {ℓ} : {A : Type ℓ} → Result A → Option A
accepted (ok a) = some a
accepted (err e) = none

module _ (lower : ℕ → ℕ) where
  abbrev pub loaded : List FailureRule → FailureRules
  loaded rules = record {
    text_rules = map (normalize lower) (keep has_match rules);
    status_rules = keep (λ r. not (has_match r)) rules;
    levels = [];
  }

  load_rules_sound :
      (i : ℕ) (rules : List FailureRule)
      → all is_sound rules ≡ true
      → load_rules lower i rules ≡ ok (loaded rules)
  unfolding load_rules
  load_rules_sound i [] h = refl
  load_rules_sound i (r ∷ rules) h =
      ground (arith, rule_error_sound i r, load_rules_sound (i + 1) rules)

  load_rules-unsound :
      (i : ℕ) (rules : List FailureRule)
      → all is_sound rules ≡ false
      → (e : RuleError) × (load_rules lower i rules ≡ err e)
  unfolding load_rules
  load_rules-unsound i [] h = cc
  load_rules-unsound i (r ∷ rules) h = elim (Option-cases (rule_error i r)) [
    | inr (e, bad) ↦ (e, ground arith)
    | inl good ↦
        let (e, later) = load_rules-unsound (i + 1) rules (ground (arith, rule_error-none i r)) in
        (e, ground arith)
  ]

  -- The constructor refuses every list with an unsound rule, and keeps every other list: the rules
  -- with a text lowered and trimmed, the rules with a status as they are, each kind in the order of
  -- the configuration, with all levels at 0. The empty list gives the nil pointer.
  pub new_sound :
      (r : FailureRule) (rules : List FailureRule)
      → (new lower [] ≡ ok none)
        × (accepted (new lower (r ∷ rules))
            ≡ (if all is_sound (r ∷ rules) then some (some (loaded (r ∷ rules))) else none))
  unfolding new
  new_sound r rules = elim (Bool-cases (all is_sound (r ∷ rules))) [
    | inl h ↦ (refl, rw (load_rules_sound 0 (r ∷ rules) h, h) refl)
    | inr h ↦ let (e, refused) = load_rules-unsound 0 (r ∷ rules) h in (refl, rw (refused, h) refl)
  ]
