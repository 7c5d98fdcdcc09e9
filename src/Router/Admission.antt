-- ===== src/Router/Admission.antt =====
-- internal/router/router.go: what holds of the candidates that the loop admits.
use token_route.Base.{
  ℕ, ◌+◌, ◌≡◌, refl, sym, true, false, Option, List, [], ◌∷◌, arith, All, ◌∙◌, Bool-cases, inl, inr,
}
use token_route.Base.Text.{Text}
use token_route.Base.Time.{Instant}
use token_route.Base.Dict.{lookup, text_key, lookup-delete}
use token_route.Tags.Defs.{TagSelector, match_tags}
use token_route.Router.Defs.{Router, Candidate}
use token_route.Router.Lookups.{is_model_locked, lock_key}
use token_route.Router.Select.{
  circuit_allow, ask, admit, passing, held, passing-answer, passing-answered,
}

module _ {F : Type 0} where
  pub circuit_allow-model_lock :
      (now : Instant) (name : Text) (r : Router F)
      → (circuit_allow now name r).0.model_lock ≡ r.model_lock
  unfolding circuit_allow
  circuit_allow-model_lock now name r = ground arith

  pub is_model_locked-circuits :
      (now : Instant) (provider model : Text) (r : Router F)
      → (is_model_locked now provider model r).0.circuits ≡ r.circuits
  unfolding is_model_locked
  is_model_locked-circuits now provider model r = ground arith

  -- Asking for a lock answers whether it is held, and changes no such answer.
  pub is_model_locked-held :
      (now : Instant) (provider model : Text) (r : Router F)
      → (is_model_locked now provider model r).1 ≡ held now r (lock_key provider model)
  unfolding is_model_locked
  is_model_locked-held now provider model r = ground arith

  held-is_model_locked :
      (now : Instant) (provider model k : Text) (r : Router F)
      → held now (is_model_locked now provider model r).0 k ≡ held now r k
  unfolding is_model_locked
  held-is_model_locked now provider model k r =
      let j = lock_key provider model in
      ground (arith, text_key.same_iff j k, lookup-delete j k r.model_lock)

  pub held-ask :
      (now : Instant) (sel : Option TagSelector) (c : Candidate) (k : Text) (r : Router F)
      → held now (ask now sel c r).0 k ≡ held now r k
  unfolding ask
  held-ask now sel c k r =
      let r' = (circuit_allow now c.provider.name r).0 in
      ground (
        arith,
        circuit_allow-model_lock now c.provider.name r,
        held-is_model_locked now c.provider.name c.model k r',
      )

  passing-ask :
      (now : Instant) (sel : Option TagSelector) (c : Candidate) (other : Text) (r : Router F)
      → passing r other ≡ true
      → passing (ask now sel c r).0 other ≡ true
  unfolding ask circuit_allow
  passing-ask now sel c other r h =
      let name = c.provider.name in
      ground (
        arith,
        passing-answer now name other (lookup name r.circuits) r refl h,
        is_model_locked-circuits now name c.model (circuit_allow now name r).0,
      )

  -- What is known of an admitted candidate, of the router before and of the router after: its tags
  -- match, its provider's breaker is neither open nor disabled afterwards, and its model had no lock.
  pub record Admitted (now : Instant) (sel : Option TagSelector) (r s : Router F)
      (p : ℕ × Candidate) : Type 0 where
    pub matches : match_tags sel p.1.tags ≡ true
    pub passes : passing s p.1.provider.name ≡ true
    pub unlocked : held now r (lock_key p.1.provider.name p.1.model) ≡ false

  ask-Admitted :
      (now : Instant) (sel : Option TagSelector) (i : ℕ) (c : Candidate) (r : Router F)
      → (ask now sel c r).1 ≡ true
      → Admitted now sel r (ask now sel c r).0 (i, c)
  unfolding ask circuit_allow
  ask-Admitted now sel i c r h =
      let name = c.provider.name in
      let r' = (circuit_allow now name r).0 in
      record {
        matches = ground arith;
        passes = ground (
          arith,
          passing-answered now name (lookup name r.circuits) r refl,
          is_model_locked-circuits now name c.model r',
        );
        unlocked =
            ground (
              arith,
              is_model_locked-held now name c.model r',
              circuit_allow-model_lock now name r,
            );
      }

  passing-admit :
      (now : Instant) (sel : Option TagSelector) (i : ℕ) (cs : List Candidate) (r : Router F)
      (name : Text)
      → passing r name ≡ true
      → passing (admit now sel i cs r).0 name ≡ true
  unfolding admit
  passing-admit now sel i [] r name h = h
  passing-admit now sel i (c ∷ cs) r name h =
      passing-admit now sel (i + 1) cs (ask now sel c r).0 name (passing-ask now sel c name r h)

  All-Admitted :
      (now : Instant) (sel : Option TagSelector) (c : Candidate) (r s : Router F)
      (ps : List (ℕ × Candidate))
      → All (Admitted now sel (ask now sel c r).0 s) ps
      → All (Admitted now sel r s) ps
  All-Admitted now sel c r s [] h = h
  All-Admitted now sel c r s (p ∷ ps) h =
      let a = h.0 in
      (
        record {
          matches = a.matches;
          passes = a.passes;
          unlocked = sym (held-ask now sel c (lock_key p.1.provider.name p.1.model) r) ∙ a.unlocked;
        },
        All-Admitted now sel c r s ps h.1,
      )

  -- Every candidate that the loop admits for a request matches the request's tags, had no lock on
  -- its model, and its provider's breaker is neither open nor disabled when the loop has ended,
  -- whatever the loop asked the breakers afterwards.
  pub admit-Admitted :
      (now : Instant) (sel : Option TagSelector) (i : ℕ) (cs : List Candidate) (r : Router F)
      → All (Admitted now sel r (admit now sel i cs r).0) (admit now sel i cs r).1
  unfolding admit
  admit-Admitted now sel i [] r = _
  admit-Admitted now sel i (c ∷ cs) r =
      let r' = (ask now sel c r).0 in
      let s = (admit now sel (i + 1) cs r').0 in
      let rest =
        All-Admitted now sel c r s (admit now sel (i + 1) cs r').1
          (admit-Admitted now sel (i + 1) cs r') in
      elim (Bool-cases (ask now sel c r).1) [
        | inl e ↦
            let a = ask-Admitted now sel i c r e in
            rw e (
              record {
                matches = a.matches;
                passes = passing-admit now sel (i + 1) cs r' c.provider.name a.passes;
                unlocked = a.unlocked;
              },
              rest,
            )
        | inr e ↦ rw e rest
      ]
