-- ===== src/Router/Select.antt =====
-- internal/router/router.go: which candidates of a route may serve a request.
use token_route.Base.{
  ℕ, ◌+◌, ◌≡◌, Bool, true, false, Option, none, some, List, [], ◌∷◌, not, if◌then◌else◌, arith,
}
use token_route.Base.Text.{Text}
use token_route.Base.Time.{Instant, after}
use token_route.Base.Dict.{lookup, insert, text_key, lookup-insert}
use token_route.Circuit.Defs.{CircuitBreaker, open_state, disabled}
use token_route.Circuit.Ops.{allow}
use token_route.Tags.Defs.{TagSelector, match_tags}
use token_route.Router.Defs.{Router, Candidate}
use token_route.Router.Lookups.{is_model_locked}

-- A lock that has not expired.
abbrev pub is_held : Instant → Option Instant → Bool
is_held now none = false
is_held now (some t) = not (after now t)

module _ {F : Type 0} where
  abbrev put_answer : Text → CircuitBreaker F × Bool → Router F → Router F × Bool
  put_answer name (c, ok) r = (record r { circuits = insert name c r.circuits }, ok)

  abbrev pub answer : Instant → Text → Option (CircuitBreaker F) → Router F → Router F × Bool
  answer now name none r = (r, true)
  answer now name (some c) r = put_answer name (allow now c) r

  -- `circuitAllow`
  unfoldable pub circuit_allow : Instant → Text → Router F → Router F × Bool
  circuit_allow now name r = answer now name (lookup name r.circuits) r

  -- The body of the loop: the tags, then the breaker, then the lock of the model, each asked only
  -- when the one before it agrees.
  unfoldable pub ask : Instant → Option TagSelector → Candidate → Router F → Router F × Bool
  ask now sel c r =
      let (r', ok) = circuit_allow now c.provider.name r in
      let (r'', locked) = is_model_locked now c.provider.name c.model r' in
      if match_tags sel c.tags then (if ok then (r'', not locked) else (r', false)) else (r, false)

  -- The loop of `OrderCandidatesCaps`: the candidates that are admitted, with their positions.
  unfoldable pub admit :
      Instant → Option TagSelector → ℕ → List Candidate → Router F → Router F × List (ℕ × Candidate)
  admit now sel i [] r = (r, [])
  admit now sel i (c ∷ cs) r =
      let (r', ok) = ask now sel c r in
      let (r'', rest) = admit now sel (i + 1) cs r' in (r'', if ok then (i, c) ∷ rest else rest)

  -- A breaker that lets requests through, or has let its probe through.
  abbrev pub is_passing : Option (CircuitBreaker F) → Bool
  is_passing none = true
  is_passing (some c) = elim (c.state) [ open_state ↦ false | disabled ↦ false | _ ↦ true ]

  -- What the router says of a provider's breaker and of a model's lock.
  abbrev pub passing : Router F → Text → Bool
  passing r name = is_passing (lookup name r.circuits)

  abbrev pub held : Instant → Router F → Text → Bool
  held now r k = is_held now (lookup k r.model_lock)

  is_passing-allow :
      (now : Instant) (c : CircuitBreaker F)
      → is_passing (some c) ≡ true
      → is_passing (some (allow now c).0) ≡ true
  unfolding allow
  is_passing-allow now c h = ground arith

  is_passing-allowed :
      (now : Instant) (c : CircuitBreaker F)
      → (allow now c).1 ≡ true
      → is_passing (some (allow now c).0) ≡ true
  unfolding allow
  is_passing-allowed now c h = ground arith

  pub passing-answer :
      (now : Instant) (name other : Text) (o : Option (CircuitBreaker F)) (r : Router F)
      → lookup name r.circuits ≡ o
      → passing r other ≡ true
      → passing (answer now name o r).0 other ≡ true
  passing-answer now name other none r e h = h
  passing-answer now name other (some c) r e h = ground (
    arith,
    text_key.same_iff name other,
    lookup-insert name other (allow now c).0 r.circuits,
    is_passing-allow now c,
  )

  pub passing-answered :
      (now : Instant) (name : Text) (o : Option (CircuitBreaker F)) (r : Router F)
      → lookup name r.circuits ≡ o
      → (answer now name o r).1 ≡ true
      → passing (answer now name o r).0 name ≡ true
  passing-answered now name none r e h = ground arith
  passing-answered now name (some c) r e h = ground (
    arith,
    text_key.same_iff name name,
    lookup-insert name name (allow now c).0 r.circuits,
    is_passing-allowed now c,
  )
