-- ===== src/Router/Switch.antt =====
-- internal/router/router.go: a provider that is switched off and on by hand.
use token_route.Base.{◌≡◌, true, false, some, arith, if◌then◌else◌}
use token_route.Base.Text.{Text}
use token_route.Base.Time.{Instant}
use token_route.Base.Dict.{lookup, insert, text_key, lookup-insert, ◌==◌}
use token_route.Circuit.Defs.{CircuitBreaker}
use token_route.Circuit.Ops.{allow, disable, enable}
use token_route.Router.Defs.{Router}
use token_route.Router.Select.{circuit_allow}
use token_route.Router.Methods.{disable_provider, enable_provider}

module _ {F : Type 0} where
  -- A provider with a breaker gets no request once it is disabled, gets requests again once it is
  -- enabled after that, whatever state its breaker was in, and the breakers of the other providers
  -- stay as they are.
  pub disable_provider-circuit_allow :
      (now : Instant) (name other : Text) (c : CircuitBreaker F) (r : Router F)
      → lookup name r.circuits ≡ some c
      → ((circuit_allow now name (disable_provider name r)).1 ≡ false)
        × ((circuit_allow now name (enable_provider name (disable_provider name r))).1 ≡ true)
        × (lookup other (enable_provider name (disable_provider name r)).circuits
            ≡ (if name == other then some (enable (disable c)) else lookup other r.circuits))
  unfolding circuit_allow disable_provider enable_provider allow disable enable
  disable_provider-circuit_allow now name other c r h =
      let off = disable c in
      let m = insert name off r.circuits in
      (
        ground (arith, lookup-insert name name off r.circuits, text_key.same_iff name name),
        ground (
          arith,
          lookup-insert name name off r.circuits,
          lookup-insert name name (enable off) m,
          text_key.same_iff name name,
        ),
        ground (
          arith,
          lookup-insert name name off r.circuits,
          lookup-insert name other off r.circuits,
          lookup-insert name other (enable off) m,
          text_key.same_iff name name,
        ),
      )
