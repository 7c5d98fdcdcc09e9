-- ===== src/RetryPolicy/Ranges.antt =====
-- internal/router/retrypolicy.go: the tables that the configured ranges give.
use token_route.Base.{
  ℕ, zero, suc, ◌+◌, ◌-◌, ◌≤◌, ◌≡◌, ◌⊎◌, Bool, true, false, ◌&&◌, ◌||◌, not, Option, none, some,
  List, [], ◌∷◌, any, all, arith, refl, ltb, leb, ◌==◌, if◌then◌else◌, Option-cases, inl, inr,
}
use token_route.Base.Int.{ℤ, pos, pos_part, leb_ℤ}
use token_route.Base.Text.{Text, split, trim_space, cut, atoi, split_first}
use token_route.RetryPolicy.Defs.{
  Table, put, mark, Result, ok, err, parse_part, parse_parts, parse_status_ranges, clear_never,
  RetryPolicy, new, retryable, disable_status, is_blank, empty_table, parse_disable, PolicyError,
}

mark_lem : (n a : ℕ) (t : Table) (i : ℕ) → mark n a t i ≡ ((leb a i && ltb i (a + n)) || t i)
unfolding mark
mark_lem zero a t i = ground arith
mark_lem (suc n) a t i = ground (arith, mark_lem n (a + 1) (put t a true) i)

-- The codes that one part of the text lists.
abbrev pub in_part : ℕ → Text → Bool
in_part i raw = elim (parse_part (trim_space raw)) [
  | none ↦ false
  | some (a, b) ↦ leb a i && leb i b
]

-- A part that is blank, or a range.
abbrev pub is_range : Text → Bool
is_range raw =
    is_blank (trim_space raw) || elim (parse_part (trim_space raw)) [ none ↦ false | some r ↦ true ]

parse_part_range : (part : Text) (a b : ℕ) → parse_part part ≡ some (a, b) → (a ≤ b) × (b ≤ 599)
unfolding parse_part
parse_part_range part a b h = ground arith

-- The entry of a table that was accepted.
abbrev pub at : Result Table → ℕ → Option Bool
at (ok t) i = some (t i)
at (err e) i = none

is_blank-nil : (s : Text) → is_blank s ≡ true → s ≡ []
is_blank-nil [] h = refl
is_blank-nil (c ∷ s) h = cc

parse_part-nil : parse_part [] ≡ none
unfolding parse_part cut atoi trim_space
parse_part-nil = refl

parse_blank : (raw : Text) → is_blank (trim_space raw) ≡ true → parse_part (trim_space raw) ≡ none
parse_blank raw h = rw (is_blank-nil (trim_space raw) h) parse_part-nil

-- A list of parts is accepted exactly when each is blank or a range, and then the table holds what
-- it held before and the codes of the ranges.
parse_parts_table :
    (parts : List Text) (t : Table) (i : ℕ)
    → at (parse_parts parts t) i
      ≡ (if all is_range parts then some (any (in_part i) parts || t i) else none)
unfolding parse_parts
parse_parts_table [] t i = refl
parse_parts_table (raw ∷ parts) t i = elim (Option-cases (parse_part (trim_space raw))) [
  | inl bad ↦ ground (arith, parse_parts_table parts t i)
  | inr ((a, b), range) ↦ ground (
    arith,
    parse_blank raw,
    mark_lem (b + 1 - a) a t i,
    parse_part_range (trim_space raw) a b range,
    parse_parts_table parts t i,
    parse_parts_table parts (mark (b + 1 - a) a t) i,
  )
]

-- A code of a status.
abbrev pub is_status : ℤ → Bool
is_status c = leb_ℤ (pos 0) c && leb_ℤ c (pos 599)

clear_never_table :
    (never : List ℤ) (t : Table) (i : ℕ)
    → at (clear_never never t) i
      ≡ (if all is_status never then some (not (any (λ c. pos_part c == i) never) && t i) else none)
unfolding clear_never
clear_never_table [] t i = refl
clear_never_table (c ∷ never) t i =
    ground (arith, clear_never_table never (put t (pos_part c) false) i)

-- The code that a text of ranges lists.
abbrev pub listed : ℕ → Text → Bool
listed i s = any (in_part i) (split b',' s)

-- A text of ranges is accepted exactly when each part between commas is blank or a range within 0
-- to 599, and then the table holds exactly the listed codes.
pub parse_status_ranges_table :
    (s : Text) (i : ℕ)
    → at (parse_status_ranges s) i
      ≡ (if all is_range (split b',' s) then some (listed i s) else none)
unfolding parse_status_ranges
parse_status_ranges_table s i = ground (arith, parse_parts_table (split b',' s) empty_table i)

parse_disable_table :
    (s : Text) (i : ℕ)
    → at (parse_disable s) i ≡ (if all is_range (split b',' s) then some (listed i s) else none)
unfolding parse_disable
parse_disable_table [] i = unfold parse_part split split_first trim_space cut atoi in refl
parse_disable_table (c ∷ s) i = parse_status_ranges_table (c ∷ s) i

Result-cases :
    {A : Type 0} (r : Result A) → ((a : A) × (r ≡ ok a)) ⊎ ((e : PolicyError) × (r ≡ err e))
Result-cases (ok a) = inl (a, refl)
Result-cases (err e) = inr (e, refl)

module _ (lower : ℕ → ℕ) where
  -- The answers of an accepted policy about one code.
  abbrev pub answers : Result RetryPolicy → ℤ → Option (Bool × Bool)
  answers (ok p) code = some (retryable p code, disable_status p code)
  answers (err e) code = none

  abbrev pub within : ℤ → Bool → Bool
  within code b = is_status code && b

  -- A policy is accepted exactly when both texts hold ranges only and every code of `never_retry`
  -- is a status. It then retries exactly the listed statuses that `never_retry` does not name, and
  -- disables on exactly the listed statuses; it does neither for a code outside 0 to 599.
  pub answers-new :
      (retry disable : Text) (never : List ℤ) (keywords : List Text) (code : ℤ)
      → answers (new lower retry disable never keywords) code ≡ (
          if all is_range (split b',' retry)
            && all is_status never
            && all is_range (split b',' disable)
          then some (
            within code (
                not (any (λ c. pos_part c == pos_part code) never) && listed (pos_part code) retry),
            within code (listed (pos_part code) disable),
          )
          else none)
  unfolding new retryable disable_status
  answers-new retry disable never keywords code =
      let i = pos_part code in
      let first = parse_status_ranges_table retry i in
      let last = parse_disable_table disable i in
      elim (Result-cases (parse_status_ranges retry)) [
        | inr (e, bad) ↦ ground arith
        | inl (t, parsed) ↦
            let middle = clear_never_table never t i in
            elim (Result-cases (clear_never never t)) [
              | inr (e, bad) ↦ ground arith
              | inl (u, kept) ↦ elim (Result-cases (parse_disable disable)) [
                | inr (e, bad) ↦ ground arith
                | inl (d, disabled) ↦ ground arith
              ]
            ]
      ]
