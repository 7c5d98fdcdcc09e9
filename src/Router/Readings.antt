-- ===== src/Router/Readings.antt =====
-- internal/router/router.go: what the router answers at one instant about locks, budgets and breakers
-- does not depend on the questions asked before.
use token_route.Base.{
  ◌≡◌, refl, sym, ◌∙◌, arith, true, Option, none, some, Option-cases, Bool-cases, inl, inr,
  if◌then◌else◌,
}
use token_route.Base.Text.{Text, text_eq_iff}
use token_route.Base.Time.{Instant, after}
use token_route.Base.Dict.{lookup, delete, lookup-delete, text_key}
use token_route.Quota.Defs.{QuotaLedger}
use token_route.Quota.Readings.{Alike, Alike-refl, Alike-trans}
use token_route.Router.Defs.{Router}
use token_route.Router.Lookups.{lock_key, model_lock_until}
use token_route.Router.Methods.{circuit_open_until}

module _ (now : Instant) where
  -- The end of a lock that has not passed; 0 is the zero time.
  abbrev live : Option Instant → Instant
  live none = 0
  live (some t) = if after now t then 0 else t

  module _ {F : Type 0} where
    -- Two routers that differ in locks and windows that have passed only.
    pub record Same (r r' : Router F) : Type 0 where
      pub circuits : r'.circuits ≡ r.circuits
      pub quota : Alike now r.quota r'.quota
      pub locks : (k : Text) → live (lookup k r'.model_lock) ≡ live (lookup k r.model_lock)

    pub Same-refl : (r : Router F) → Same r r
    Same-refl r = record { circuits = refl; quota = Alike-refl now r.quota; locks = λ k. refl }

    pub Same-trans : (r s t : Router F) → Same r s → Same s t → Same r t
    Same-trans r s t a b = record {
      circuits = b.circuits ∙ a.circuits;
      quota = Alike-trans now r.quota s.quota t.quota a.quota b.quota;
      locks = λ k. b.locks k ∙ a.locks k;
    }

    -- Another ledger with the same answers.
    pub quota-Same :
        (l : QuotaLedger) (r : Router F) → Alike now r.quota l → Same r (record r { quota = l })
    quota-Same l r a = record { circuits = refl; quota = a; locks = λ k. refl }

    model_lock_until-live :
        (provider model : Text) (r : Router F)
        → (model_lock_until now provider model r).1
          ≡ live (lookup (lock_key provider model) r.model_lock)
    unfolding model_lock_until
    model_lock_until-live provider model r =
        elim (Option-cases (lookup (lock_key provider model) r.model_lock)) [
          | inl e ↦ ground arith
          | inr (t, e) ↦ ground arith
        ]

    unlocked-Same :
        (k : Text) (t : Instant) (r : Router F)
        → lookup k r.model_lock ≡ some t
        → after now t ≡ true
        → Same r (record r { model_lock = delete k r.model_lock })
    unlocked-Same k t r e past = record {
      circuits = refl;
      quota = Alike-refl now r.quota;
      locks = λ j. ground (arith, lookup-delete k j r.model_lock, text_eq_iff k j);
    }

    pub model_lock_until-Same :
        (provider model : Text) (r : Router F) → Same r (model_lock_until now provider model r).0
    unfolding model_lock_until
    model_lock_until-Same provider model r =
        elim (Option-cases (lookup (lock_key provider model) r.model_lock)) [
          | inl e ↦ rw e (Same-refl r)
          | inr (t, e) ↦ elim (Bool-cases (after now t)) [
            | inl past ↦ rw (e, past) (unlocked-Same (lock_key provider model) t r e past)
            | inr held ↦ rw (e, held) (Same-refl r)
          ]
        ]

    pub model_lock_until_unchanged :
        (provider model : Text) (r r' : Router F)
        → Same r r'
        → (model_lock_until now provider model r').1 ≡ (model_lock_until now provider model r).1
    model_lock_until_unchanged provider model r r' a =
        model_lock_until-live provider model r'
        ∙ a.locks (lock_key provider model)
        ∙ sym (model_lock_until-live provider model r)

    pub circuit_open_until_unchanged :
        (provider : Text) (r r' : Router F)
        → Same r r'
        → circuit_open_until provider r' ≡ circuit_open_until provider r
    unfolding circuit_open_until
    circuit_open_until_unchanged provider r r' a = rw a.circuits refl
