-- ===== src/Server/Frames.antt =====
-- internal/server/server.go: what the loop over the candidates leaves alone in the router.
use token_route.Base.{
  ℕ, ◌≡◌, refl, ◌∙◌, Bool, true, false, Option, none, some, [], if◌then◌else◌, ◌==◌, leb,
}
use token_route.Base.Int.{ℤ}
use token_route.Base.Text.{Text}
use token_route.Base.Time.{Instant, Duration}
use token_route.Base.Dict.{lookup, text_key}
use token_route.Base.Float.{Float64}
use token_route.Failure.{FailureKind, unknown}
use token_route.FailureRules.Defs.{FailureRules}
use token_route.Circuit.Defs.{CircuitBreaker}
use token_route.Router.Defs.{Router}
use token_route.Router.Lookups.{map_model, lock_model, dec_inflight}
use token_route.Router.Methods.{failure_cooldown, open_circuit_for, change}
use token_route.Router.Record.{record_result_kind, record_result}
use token_route.Server.Headers.{
  Header, TimeParsers, observation, note_observation, observe_upstream_quota,
}
use token_route.Server.Replies.{Setup, Response, Attempt}
use token_route.Server.Failover.{
  failure_kind, lock_duration, on_limited, cooled, apply_rules, on_transport_error, on_failure,
  on_answer,
}

module _ {F : Type 0} where
  -- The model mappings and the counts of live requests of two routers agree.
  pub record IsFrame (r r' : Router F) : Type 0 where
    pub mappings_kept : r'.mappings ≡ r.mappings
    pub inflight_kept : r'.inflight ≡ r.inflight

  pub IsFrame-refl : (r : Router F) → IsFrame r r
  IsFrame-refl r = record { mappings_kept = refl; inflight_kept = refl }

  pub IsFrame-trans : {r r' r'' : Router F} → IsFrame r r' → IsFrame r' r'' → IsFrame r r''
  IsFrame-trans h k = record {
    mappings_kept = k.mappings_kept ∙ h.mappings_kept;
    inflight_kept = k.inflight_kept ∙ h.inflight_kept;
  }

  pub IsFrame-if :
      (b : Bool) {r x y : Router F} → IsFrame r x → IsFrame r y → IsFrame r (if b then x else y)
  IsFrame-if true h k = h
  IsFrame-if false h k = k

  change-IsFrame :
      (f : CircuitBreaker F → CircuitBreaker F) (name : Text) (o : Option (CircuitBreaker F))
      (r : Router F)
      → IsFrame r (change f name o r)
  change-IsFrame f name none r = IsFrame-refl r
  change-IsFrame f name (some c) r = record { mappings_kept = refl; inflight_kept = refl }

  open_circuit_for-IsFrame :
      (now : Instant) (name : Text) (d : Duration) (r : Router F)
      → IsFrame r (open_circuit_for now name d r)
  unfolding open_circuit_for
  open_circuit_for-IsFrame now name d r = change-IsFrame _ name (lookup name r.circuits) r

  lock_model-IsFrame :
      (now : Instant) (name model : Text) (d : Duration) (r : Router F)
      → IsFrame r (lock_model now name model d r)
  unfolding lock_model
  lock_model-IsFrame now name model d r = record { mappings_kept = refl; inflight_kept = refl }

  note_observation-IsFrame :
      (ps : TimeParsers) (now : Instant) (name model : Text) (o : Option (ℤ × Duration))
      (r : Router F)
      → IsFrame r (note_observation ps now name model o r)
  note_observation-IsFrame ps now name model none r = IsFrame-refl r
  note_observation-IsFrame ps now name model (some (n, reset)) r = record {
    mappings_kept = refl;
    inflight_kept = refl;
  }

  pub observe_upstream_quota-IsFrame :
      (ps : TimeParsers) (now : Instant) (name model : Text) (h : Header) (r : Router F)
      → IsFrame r (observe_upstream_quota ps now name model h r)
  unfolding observe_upstream_quota
  observe_upstream_quota-IsFrame ps now name model h r =
      note_observation-IsFrame ps now name model (observation ps h) r

  pub map_model-IsFrame :
      (name model : Text) {r r' : Router F}
      → IsFrame r r'
      → map_model name model r' ≡ map_model name model r
  unfolding map_model
  map_model-IsFrame name model h = rw h.mappings_kept refl

module _ (fl : Float64) (s : Setup fl.F) where
  open fl use {F}

  record_result_kind-IsFrame :
      (now : Instant) (name : Text) (d : Duration) (success : Bool) (kind : FailureKind)
      (counts : Bool) (r : Router F)
      → IsFrame r (record_result_kind fl now name d success kind counts r)
  unfolding record_result_kind
  record_result_kind-IsFrame now name d success kind counts r = record {
    mappings_kept = refl;
    inflight_kept = refl;
  }

  cooled-IsFrame :
      (now : Instant) (name : Text) (fr : Option FailureRules) (o : Option Duration) (r : Router F)
      → IsFrame r (cooled fl s now name (record r { failure_rules = fr }, o))
  cooled-IsFrame now name fr none r = record { mappings_kept = refl; inflight_kept = refl }
  cooled-IsFrame now name fr (some d) r =
      IsFrame-trans {r' = record r { failure_rules = fr }}
        (record { mappings_kept = refl; inflight_kept = refl })
        (open_circuit_for-IsFrame now name d _)

  apply_rules-IsFrame :
      (now : Instant) (name : Text) (status : ℕ) (text : Text) (r : Router F)
      → IsFrame r (apply_rules fl s now name status text r)
  unfolding apply_rules failure_cooldown
  apply_rules-IsFrame now name status text r = cooled-IsFrame now name _ _ r

  on_limited-IsFrame :
      (now : Instant) (name model : Text) (kind : FailureKind) (h : Header) (r : Router F)
      → IsFrame r (on_limited fl s now name model kind h r)
  unfolding on_limited
  on_limited-IsFrame now name model kind h r =
      let locked = lock_model-IsFrame now name model (lock_duration fl s now kind h) r in
      IsFrame-if _ (IsFrame-trans locked (open_circuit_for-IsFrame now name _ _)) locked

  pub on_transport_error-IsFrame :
      (a : Attempt) (name message : Text) (r : Router F)
      → IsFrame (dec_inflight name r) (on_transport_error fl s a name message r)
  unfolding on_transport_error
  on_transport_error-IsFrame a name message r = record_result_kind-IsFrame _ _ _ _ _ _ _

  pub on_failure-IsFrame :
      (a : Attempt) (att : Response) (name model : Text) (r : Router F)
      → IsFrame (dec_inflight name r) (on_failure fl s a att name model r)
  unfolding on_failure
  on_failure-IsFrame a att name model r =
      let kind = failure_kind fl s att in
      let noted =
        record_result_kind-IsFrame a.instant name a.latency false kind true (dec_inflight name r) in
      IsFrame-trans
        (IsFrame-if (att.status == 429)
          (IsFrame-trans noted (on_limited-IsFrame a.instant name model kind att.header _)) noted)
        (apply_rules-IsFrame a.instant name att.status att.text _)

  pub on_answer-IsFrame :
      (a : Attempt) (att : Response) (name model : Text) (r : Router F)
      → IsFrame r (on_answer fl s a att name model r)
  unfolding on_answer record_result
  on_answer-IsFrame a att name model r =
      let noted =
        IsFrame-trans
          (IsFrame-if (att.status == 404) (lock_model-IsFrame a.instant name model _ r)
            (IsFrame-refl r))
          (record_result_kind-IsFrame a.instant name a.latency true unknown true _) in
      IsFrame-if (leb 400 att.status)
        (IsFrame-trans noted (apply_rules-IsFrame a.instant name att.status [] _)) noted
