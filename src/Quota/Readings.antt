-- ===== src/Quota/Readings.antt =====
-- internal/router/quota.go: what the ledger answers at one instant does not depend on the questions
-- asked before, although `Remaining` and `WindowReset` roll the windows that have passed.
use token_route.Base.{
  ◌≡◌, refl, sym, ◌∙◌, ap, arith, true, Option, none, some, List, [], ◌∷◌, Option-cases, Bool-cases,
  inl, inr, if◌then◌else◌,
}
use token_route.Base.Int.{pos, leb_ℤ}
use token_route.Base.Text.{Text, text_eq_iff}
use token_route.Base.Time.{Instant, add_time}
use token_route.Base.Dict.{lookup, insert, lookup-insert, text_key}
use token_route.Base.Float.{Float64}
use token_route.Quota.Defs.{
  ProviderQuota, QuotaLedger, Budget, quota_key, is_balance_low, observed, roll_window,
  observed_budget, window_budget, unknown_budget, remaining, window_reset,
}

module _ (now : Instant) where
  roll_window-keeps :
      (q : ProviderQuota)
      → ((roll_window now q).obs ≡ q.obs) × ((roll_window now q).token_limit ≡ q.token_limit)
  unfolding roll_window
  roll_window-keeps q = ground arith

  roll_window-roll_window :
      (q : ProviderQuota) → roll_window now (roll_window now q) ≡ roll_window now q
  unfolding roll_window
  roll_window-roll_window q = ground arith

  abbrev rolled : Option ProviderQuota → Option ProviderQuota
  rolled none = none
  rolled (some q) = some (roll_window now q)

  -- Two ledgers that differ in windows that have passed only.
  pub record Alike (l l' : QuotaLedger) : Type 0 where
    pub low : l'.balance_low ≡ l.balance_low
    pub rows : (k : Text) → rolled (lookup k l'.rows) ≡ rolled (lookup k l.rows)

  pub Alike-refl : (l : QuotaLedger) → Alike l l
  Alike-refl l = record { low = refl; rows = λ k. refl }

  pub Alike-trans : (l m n : QuotaLedger) → Alike l m → Alike m n → Alike l n
  Alike-trans l m n a b = record { low = b.low ∙ a.low; rows = λ k. b.rows k ∙ a.rows k }

  rolled-Alike :
      (k : Text) (q : ProviderQuota) (l : QuotaLedger)
      → lookup k l.rows ≡ some q
      → Alike l (record l { rows = insert k (roll_window now q) l.rows })
  rolled-Alike k q l e = record {
    low = refl;
    rows = λ j. ground (
      arith,
      lookup-insert k j (roll_window now q) l.rows,
      text_eq_iff k j,
      roll_window-roll_window q,
    );
  }

  module _ (fl : Float64) where
    open fl use {F, of_int}

    abbrev budget_view : Option ProviderQuota → Budget fl
    budget_view none = unknown_budget fl
    budget_view (some q) = elim (observed now q) [
      | some o ↦ observed_budget fl q o
      | none ↦ if leb_ℤ q.token_limit (pos 0) then unknown_budget fl else window_budget fl q
    ]

    abbrev spent_budget : Budget fl
    spent_budget = record { remaining = pos 0; ratio = of_int (pos 0); known = true }

    remaining-view :
        (provider model : Text) (l : QuotaLedger)
        → (remaining fl now provider model l).1 ≡ (
            if is_balance_low provider l
            then spent_budget
            else budget_view (rolled (lookup (quota_key provider model) l.rows)))
    unfolding remaining observed_budget observed
    remaining-view provider model l =
        elim (Option-cases (lookup (quota_key provider model) l.rows)) [
          | inl e ↦ ground arith
          | inr (q, e) ↦ let keeps = roll_window-keeps q in ground arith
        ]

    -- A question for the budget leaves all answers as they are.
    pub remaining-Alike :
        (provider model : Text) (l : QuotaLedger) → Alike l (remaining fl now provider model l).0
    unfolding remaining
    remaining-Alike provider model l = elim (Bool-cases (is_balance_low provider l)) [
      | inl low ↦ rw low (Alike-refl l)
      | inr high ↦ elim (Option-cases (lookup (quota_key provider model) l.rows)) [
        | inl e ↦ rw (high, e) (Alike-refl l)
        | inr (q, e) ↦ elim (Option-cases (observed now q)) [
          | inr (o, f) ↦ rw (high, e, f) (Alike-refl l)
          | inl f ↦ elim (Bool-cases (leb_ℤ q.token_limit (pos 0))) [
            | inl t ↦ rw (high, e, f, t) (Alike-refl l)
            | inr t ↦ rw (high, e, f, t) (rolled-Alike (quota_key provider model) q l e)
          ]
        ]
      ]
    ]

    pub remaining_unchanged :
        (provider model : Text) (l l' : QuotaLedger)
        → Alike l l'
        → (remaining fl now provider model l').1 ≡ (remaining fl now provider model l).1
    unfolding is_balance_low
    remaining_unchanged provider model l l' a =
        let same = a.rows (quota_key provider model) in
        remaining-view provider model l'
        ∙ rw (a.low, same) refl
        ∙ sym (remaining-view provider model l)

  abbrev reset_view : Option ProviderQuota → Instant
  reset_view none = 0
  reset_view (some q) = elim (observed now q) [
    | some o ↦ o.reset_at
    | none ↦ if leb_ℤ q.token_limit (pos 0) then 0 else add_time q.window_start q.window
  ]

  window_reset-view :
      (provider model : Text) (l : QuotaLedger)
      → (window_reset now provider model l).1
        ≡ reset_view (rolled (lookup (quota_key provider model) l.rows))
  unfolding window_reset observed
  window_reset-view provider model l =
      elim (Option-cases (lookup (quota_key provider model) l.rows)) [
        | inl e ↦ ground arith
        | inr (q, e) ↦ let keeps = roll_window-keeps q in ground arith
      ]

  pub window_reset_unchanged :
      (provider model : Text) (l l' : QuotaLedger)
      → Alike l l'
      → (window_reset now provider model l').1 ≡ (window_reset now provider model l).1
  window_reset_unchanged provider model l l' a =
      window_reset-view provider model l'
      ∙ ap reset_view (a.rows (quota_key provider model))
      ∙ sym (window_reset-view provider model l)

  -- So does a question for the end of the window.
  pub window_reset-Alike :
      (provider model : Text) (l : QuotaLedger) → Alike l (window_reset now provider model l).0
  unfolding window_reset
  window_reset-Alike provider model l =
      elim (Option-cases (lookup (quota_key provider model) l.rows)) [
        | inl e ↦ rw e (Alike-refl l)
        | inr (q, e) ↦ elim (Option-cases (observed now q)) [
          | inr (o, f) ↦ rw (e, f) (Alike-refl l)
          | inl f ↦ elim (Bool-cases (leb_ℤ q.token_limit (pos 0))) [
            | inl t ↦ rw (e, f, t) (Alike-refl l)
            | inr t ↦ rw (e, f, t) (rolled-Alike (quota_key provider model) q l e)
          ]
        ]
      ]

-- A question to the ledger about a provider's model.
pub data Question : Type 0 where
  budget_left window_end : Text → Text → Question

module _ (now : Instant) (fl : Float64) where
  -- The ledger after some questions at the same instant.
  unfoldable pub ask_all : List Question → QuotaLedger → QuotaLedger
  ask_all [] l = l
  ask_all (budget_left provider model ∷ qs) l = ask_all qs (remaining fl now provider model l).0
  ask_all (window_end provider model ∷ qs) l = ask_all qs (window_reset now provider model l).0

  ask_all-Alike : (qs : List Question) (l : QuotaLedger) → Alike now l (ask_all qs l)
  unfolding ask_all
  ask_all-Alike [] l = Alike-refl now l
  ask_all-Alike (budget_left provider model ∷ qs) l =
      let l' = (remaining fl now provider model l).0 in
      Alike-trans now l l' (ask_all qs l') (remaining-Alike now fl provider model l)
        (ask_all-Alike qs l')
  ask_all-Alike (window_end provider model ∷ qs) l =
      let l' = (window_reset now provider model l).0 in
      Alike-trans now l l' (ask_all qs l') (window_reset-Alike now provider model l)
        (ask_all-Alike qs l')

  -- Although `Remaining` and `WindowReset` write to the ledger, any number of such questions at one
  -- instant, about any providers and models, changes no answer at that instant: neither the budget
  -- that is left, its ratio and whether it is known, nor the end of the window.
  pub ask_all-answers :
      (qs : List Question) (provider model : Text) (l : QuotaLedger)
      → ((remaining fl now provider model (ask_all qs l)).1 ≡ (remaining fl now provider model l).1)
        × ((window_reset now provider model (ask_all qs l)).1
            ≡ (window_reset now provider model l).1)
  ask_all-answers qs provider model l = (
    remaining_unchanged now fl provider model l (ask_all qs l) (ask_all-Alike qs l),
    window_reset_unchanged now provider model l (ask_all qs l) (ask_all-Alike qs l),
  )
