-- ===== src/Router/Outcomes.antt =====
-- internal/router/router.go: what an attempt's result changes for the attempts after it.
use token_route.Base.{
  ◌≡◌, ◌≢◌, refl, Bool, true, false, ◌&&◌, Option, none, some, List, [], ◌∷◌, map, All, arith,
  if◌then◌else◌,
}
use token_route.Base.Text.{Text, text_eq, text_eq_iff}
use token_route.Base.Time.{Instant, Duration}
use token_route.Base.Dict.{lookup, text_key, lookup-insert, lookup-insert_self, lookup-delete_self}
use token_route.Base.Float.{Float64}
use token_route.Failure.{FailureKind}
use token_route.Circuit.Defs.{CircuitBreaker}
use token_route.Circuit.Ops.{on_success, on_failure_kind, is_closed}
use token_route.FailureRules.Defs.{FailureRules, on_success as restart_backoff, backoff_level}
use token_route.Router.Defs.{Router, Route}
use token_route.Router.Record.{record_result_kind, note_last_good, is_lkgp, noted}

-- A route that may hold the provider as its last known good one.
abbrev pub remembers : Text → Route → Bool
remembers name rt = is_lkgp rt.strategy && text_eq rt.last_good name

abbrev pub follows : Text → Route → Bool
follows name rt = if is_lkgp rt.strategy then text_eq rt.last_good name else true

note_last_good-failed :
    (name : Text) (rt : Route) → name ≢ [] → remembers name (note_last_good name false rt) ≡ false
unfolding note_last_good
note_last_good-failed name rt h = ground (arith, text_eq_iff [] name)

note_last_good-succeeded :
    (name : Text) (rt : Route) → follows name (note_last_good name true rt) ≡ true
unfolding note_last_good
note_last_good-succeeded name rt = ground (arith, text_eq_iff name name)

All-forget :
    (name : Text) (rts : List Route)
    → name ≢ []
    → All (λ rt. remembers name rt ≡ false) (map (note_last_good name false) rts)
All-forget name [] h = _
All-forget name (rt ∷ rts) h = (note_last_good-failed name rt h, All-forget name rts h)

All-follow :
    (name : Text) (rts : List Route)
    → All (λ rt. follows name rt ≡ true) (map (note_last_good name true) rts)
All-follow name [] = _
All-follow name (rt ∷ rts) = (note_last_good-succeeded name rt, All-follow name rts)

module _ (fl : Float64) where
  open fl use {F}

  noted_uncounted :
      (now : Instant) (kind : FailureKind) (name other : Text) (o : Option (CircuitBreaker F))
      (circuits : List (Text × CircuitBreaker F))
      → lookup name circuits ≡ o
      → lookup other (noted fl now false kind false name o circuits) ≡ lookup other circuits
  unfolding on_failure_kind
  noted_uncounted now kind name other none circuits h = refl
  noted_uncounted now kind name other (some c) circuits h =
      ground (arith, text_key.same_iff name other, lookup-insert name other c circuits)

  -- A failure that does not count against the provider, as a client's abort, leaves every breaker,
  -- every error rate and every failure-rule level as it was, yet no route with the strategy lkgp
  -- remembers the provider, whose name is not empty, afterwards.
  pub record_uncounted :
      (now : Instant) (name other : Text) (latency : Duration) (kind : FailureKind) (r : Router F)
      → name ≢ []
      → let s = record_result_kind fl now name latency false kind false r in
        (lookup other s.circuits ≡ lookup other r.circuits)
        × (s.err_rate ≡ r.err_rate)
        × (s.failure_rules ≡ r.failure_rules)
        × All (λ rt. remembers name rt ≡ false) s.routes
  unfolding record_result_kind
  record_uncounted now name other latency kind r h = (
    noted_uncounted now kind name other (lookup name r.circuits) r.circuits refl,
    refl,
    refl,
    All-forget name r.routes h,
  )

  abbrev pub is_closed_at : Option (CircuitBreaker F) → Bool
  is_closed_at none = true
  is_closed_at (some c) = is_closed c.state

  noted_success :
      (now : Instant) (kind : FailureKind) (counts : Bool) (name : Text)
      (o : Option (CircuitBreaker F)) (circuits : List (Text × CircuitBreaker F))
      → lookup name circuits ≡ o
      → is_closed_at (lookup name (noted fl now true kind counts name o circuits)) ≡ true
  unfolding on_success
  noted_success now kind counts name none circuits h = rw h refl
  noted_success now kind counts name (some c) circuits h =
      rw (lookup-insert_self name (on_success fl now c) circuits) refl

  restart_backoff-level :
      (name : Text) (o : Option FailureRules) → backoff_level name (restart_backoff name o) ≡ 0
  unfolding restart_backoff backoff_level
  restart_backoff-level name none = refl
  restart_backoff-level name (some fr) = ground (arith, lookup-delete_self name fr.levels)

  -- A success closes the provider's breaker, whatever state it was in, starts its failure-rule
  -- backoff over, and makes it the last known good provider of every route with the strategy lkgp.
  pub record_success :
      (now : Instant) (name : Text) (latency : Duration) (kind : FailureKind) (counts : Bool)
      (r : Router F)
      → let s = record_result_kind fl now name latency true kind counts r in
        (is_closed_at (lookup name s.circuits) ≡ true)
        × (backoff_level name s.failure_rules ≡ 0)
        × All (λ rt. follows name rt ≡ true) s.routes
  unfolding record_result_kind
  record_success now name latency kind counts r = (
    noted_success now kind counts name (lookup name r.circuits) r.circuits refl,
    restart_backoff-level name r.failure_rules,
    All-follow name r.routes,
  )
