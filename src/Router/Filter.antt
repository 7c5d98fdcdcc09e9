-- ===== src/Router/Filter.antt =====
-- internal/router/router.go: the loop as a filter, when no breaker is open or waits for a probe.
use token_route.Base.{
  ℕ, ◌+◌, ◌≡◌, refl, Bool, true, false, ◌&&◌, Option, none, some, List, [], ◌∷◌, not, if◌then◌else◌,
  arith, All, ap, ◌∙◌, map,
}
use token_route.Base.Text.{Text}
use token_route.Base.Time.{Instant}
use token_route.Base.Dict.{lookup, text_key, lookup-insert}
use token_route.Circuit.Defs.{CircuitBreaker, open_state, half_open, disabled}
use token_route.Circuit.Ops.{allow}
use token_route.Tags.Defs.{TagSelector, match_tags}
use token_route.Router.Defs.{Router, Candidate}
use token_route.Router.Lookups.{lock_key}
use token_route.Router.Select.{circuit_allow, ask, admit, answer, held}
use token_route.Router.Admission.{
  circuit_allow-model_lock, is_model_locked-circuits, is_model_locked-held, held-ask,
}

module _ {F : Type 0} where
  abbrev pub is_steady : Option (CircuitBreaker F) → Bool
  is_steady none = true
  is_steady (some c) = elim (c.state) [ open_state ↦ false | half_open ↦ false | _ ↦ true ]

  abbrev pub permits : Option (CircuitBreaker F) → Bool
  permits none = true
  permits (some c) = elim (c.state) [ disabled ↦ false | _ ↦ true ]

  -- The description of the loop that keeps no state.
  abbrev pub is_eligible : Instant → Option TagSelector → Router F → Candidate → Bool
  is_eligible now sel r c =
      match_tags sel c.tags
      && permits (lookup c.provider.name r.circuits)
      && not (held now r (lock_key c.provider.name c.model))

  abbrev pub eligible : Instant → Option TagSelector → Router F → List Candidate → List Candidate
  eligible now sel r [] = []
  eligible now sel r (c ∷ cs) =
      let rest = eligible now sel r cs in if is_eligible now sel r c then c ∷ rest else rest

  -- No breaker of the candidates' providers is open or half-open.
  abbrev pub IsSteady : Router F → List Candidate → Type 0
  IsSteady r cs = All (λ c. is_steady (lookup c.provider.name r.circuits) ≡ true) cs

  allow_steady :
      (now : Instant) (c : CircuitBreaker F)
      → is_steady (some c) ≡ true
      → allow now c ≡ (c, permits (some c))
  unfolding allow
  allow_steady now c h = ground arith

  answer_steady :
      (now : Instant) (name other : Text) (o : Option (CircuitBreaker F)) (r : Router F)
      → lookup name r.circuits ≡ o
      → is_steady o ≡ true
      → (lookup other (answer now name o r).0.circuits ≡ lookup other r.circuits)
        × ((answer now name o r).1 ≡ permits o)
  answer_steady now name other none r e h = (refl, refl)
  answer_steady now name other (some c) r e h =
      rw (allow_steady now c h)
        (ground (arith, text_key.same_iff name other, lookup-insert name other c r.circuits), refl)

  ask_steady :
      (now : Instant) (sel : Option TagSelector) (c : Candidate) (other : Text) (r : Router F)
      → is_steady (lookup c.provider.name r.circuits) ≡ true
      → (lookup other (ask now sel c r).0.circuits ≡ lookup other r.circuits)
        × ((ask now sel c r).1 ≡ is_eligible now sel r c)
  unfolding ask circuit_allow
  ask_steady now sel c other r h =
      let name = c.provider.name in
      let r' = (circuit_allow now name r).0 in
      let (same, told) = answer_steady now name other (lookup name r.circuits) r refl h in
      (
        ground (arith, same, is_model_locked-circuits now name c.model r'),
        ground (
          arith,
          told,
          is_model_locked-held now name c.model r',
          circuit_allow-model_lock now name r,
        ),
      )

  -- Two routers of which the loop asks the same.
  record Agree (now : Instant) (r s : Router F) : Type 0 where
    breakers : (name : Text) → lookup name s.circuits ≡ lookup name r.circuits
    locks : (k : Text) → held now s k ≡ held now r k

  eligible-Agree :
      (now : Instant) (sel : Option TagSelector) (r s : Router F) (cs : List Candidate)
      → Agree now r s
      → eligible now sel s cs ≡ eligible now sel r cs
  eligible-Agree now sel r s [] a = refl
  eligible-Agree now sel r s (c ∷ cs) a =
      rw
        (
          a.breakers c.provider.name,
          a.locks (lock_key c.provider.name c.model),
          eligible-Agree now sel r s cs a,
        )
        refl

  IsSteady-Agree :
      (now : Instant) (r s : Router F) (cs : List Candidate)
      → Agree now r s
      → IsSteady r cs
      → IsSteady s cs
  IsSteady-Agree now r s [] a h = h
  IsSteady-Agree now r s (c ∷ cs) a h =
      (ap is_steady (a.breakers c.provider.name) ∙ h.0, IsSteady-Agree now r s cs a h.1)

  ask-Agree :
      (now : Instant) (sel : Option TagSelector) (c : Candidate) (r : Router F)
      → is_steady (lookup c.provider.name r.circuits) ≡ true
      → Agree now r (ask now sel c r).0
  ask-Agree now sel c r h = record {
    breakers = λ name. (ask_steady now sel c name r h).0;
    locks = λ k. held-ask now sel c k r;
  }

  -- When no breaker of the route's providers is open or half-open, the loop admits exactly the
  -- candidates whose tags match, whose breaker is not disabled and whose model is not locked, in the
  -- order of the route.
  pub admit_steady :
      (now : Instant) (sel : Option TagSelector) (i : ℕ) (cs : List Candidate) (r : Router F)
      → IsSteady r cs
      → map (λ p. p.1) (admit now sel i cs r).1 ≡ eligible now sel r cs
  unfolding admit
  admit_steady now sel i [] r h = refl
  admit_steady now sel i (c ∷ cs) r h =
      let a = ask-Agree now sel c r h.0 in
      let s = (ask now sel c r).0 in
      let rest =
        admit_steady now sel (i + 1) cs s (IsSteady-Agree now r s cs a h.1)
        ∙ eligible-Agree now sel r s cs a in
      ground (arith, rest, (ask_steady now sel c c.provider.name r h.0).1)
