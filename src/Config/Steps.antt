-- ===== src/Config/Steps.antt =====
-- internal/config/config.go: sequences of checks, and the names that a list of providers has.
use token_route.Base.{
  ◌≡◌, ◌↔◌, refl, Bool, true, false, ◌&&◌, not, all, All, none, some, List, [], ◌∷◌, arith,
}
use token_route.Base.Text.{Text, text_eq_iff}
use token_route.Config.Check.{Outcome, ConfigError, ◌⨾◌, refuse_if, check_all, has}

pub ⨾-none : (first next : Outcome) → first ⨾ next ≡ none → (first ≡ none) × (next ≡ none)
unfolding ◌⨾◌
⨾-none none next h = (refl, h)
⨾-none (some e) next h = cc

pub ⨾_none : (first next : Outcome) → first ≡ none → next ≡ none → first ⨾ next ≡ none
unfolding ◌⨾◌
⨾_none first next h k = ground arith

-- A check that passes before others that pass.
pub peel :
    (faulty : Bool) (e : ConfigError) (next : Outcome)
    → refuse_if faulty e ⨾ next ≡ none
    → (faulty ≡ false) × (next ≡ none)
unfolding ◌⨾◌ refuse_if
peel true e next h = cc
peel false e next h = (refl, h)

pub unpeel :
    (faulty : Bool) (e : ConfigError) (next : Outcome)
    → faulty ≡ false
    → next ≡ none
    → refuse_if faulty e ⨾ next ≡ none
unfolding ◌⨾◌ refuse_if
unpeel faulty e next h k = ground arith

pub refuse_if-none :
    (faulty : Bool) (e : ConfigError) → (refuse_if faulty e ≡ none) ↔ (faulty ≡ false)
unfolding refuse_if
refuse_if-none faulty e = ground arith

module _ {ℓ κ} {A : Type ℓ} {Holds : A → Type κ} (check : A → Outcome) where
  pub check_all-All :
      ((x : A) → check x ≡ none → Holds x)
      → (xs : List A) → check_all check xs ≡ none
      → All Holds xs
  unfolding check_all
  check_all-All sound [] h = tt
  check_all-All sound (x ∷ xs) h =
      let (first, others) = ⨾-none (check x) (check_all check xs) h in
      (sound x first, check_all-All sound xs others)

  pub All-check_all :
      ((x : A) → Holds x → check x ≡ none)
      → (xs : List A) → All Holds xs
      → check_all check xs ≡ none
  unfolding check_all
  All-check_all complete [] h = refl
  All-check_all complete (x ∷ xs) (first, others) =
      ⨾_none _ _ (complete x first) (All-check_all complete xs others)

-- No name stands twice.
abbrev pub distinct : List Text → Bool
distinct [] = true
distinct (name ∷ names) = not (has names name) && distinct names

-- None of the names is among the seen ones.
abbrev pub fresh : List Text → List Text → Bool
fresh seen names = all (λ name. not (has seen name)) names

pub fresh_nil : (names : List Text) → fresh [] names ≡ true
fresh_nil [] = refl
fresh_nil (name ∷ names) = fresh_nil names

pub fresh_cons :
    (name : Text) (seen names : List Text)
    → fresh (name ∷ seen) names ≡ (fresh seen names && not (has names name))
fresh_cons name seen [] = refl
fresh_cons name seen (other ∷ names) =
    ground (arith, fresh_cons name seen names, text_eq_iff name other, text_eq_iff other name)
