-- ===== src/Circuit/Cooldown.antt =====
-- internal/router/circuit.go: how long an open breaker refuses requests.
use token_route.Base.{
  ℕ, zero, suc, ◌+◌, ◌-◌, ◌*◌, ◌^◌, ◌≤◌, ◌<◌, ◌≡◌, ◌≢◌, true, false, arith, min, if◌then◌else◌, ltb,
  leb,
}
use token_route.Base.Int.{two63, pos, pos_part, neg_part, wrap64_small, ltb_ℤ}
use token_route.Base.Time.{Instant}
use token_route.Circuit.Defs.{
  open_state, half_open, disabled, CircuitBreaker, effective_cooldown, open_circuit, escalate,
}
use token_route.Circuit.Ops.{allow, open_for}

-- The factor of the escalation: 2 ^ (cycles - 3), from 1 to 16.
abbrev pub escalation : ℕ → ℕ
escalation cycles = 2 ^ min 4 (cycles - 3)

shift_capped : (n : ℕ) → 6 < n → (if ltb 4 (n - 3) then 4 else n - 3) ≡ 4
shift_capped n h = ground arith

min_capped : (n : ℕ) → 6 < n → min 4 (n - 3) ≡ 4
min_capped n h = omega arith

not_early : (n : ℕ) → 6 < n → leb n 3 ≡ false
not_early n h = ground arith

escalate-late : (cd n : ℕ) → 6 < n → cd * 16 < two63 → escalate (pos cd) n ≡ pos (cd * escalation n)
unfolding escalate
escalate-late cd n l h =
    rw (not_early n l, shift_capped n l, min_capped n l) (ground (arith, wrap64_small (cd * 16)))

-- The escalated cooldown, as long as 16 times the cooldown fits a `Duration`.
pub escalate_lem : (cd n : ℕ) → cd * 16 < two63 → escalate (pos cd) n ≡ pos (cd * escalation n)
unfolding escalate
escalate_lem cd zero h = ground arith
escalate_lem cd (suc zero) h = ground arith
escalate_lem cd (suc (suc zero)) h = ground arith
escalate_lem cd (suc (suc (suc zero))) h = ground arith
escalate_lem cd (suc (suc (suc (suc zero)))) h = ground (arith, wrap64_small (cd * 2))
escalate_lem cd (suc (suc (suc (suc (suc zero))))) h = ground (arith, wrap64_small (cd * 4))
escalate_lem cd (suc (suc (suc (suc (suc (suc zero)))))) h = ground (arith, wrap64_small (cd * 8))
escalate_lem cd (suc (suc (suc (suc (suc (suc (suc n))))))) h =
    escalate-late cd (suc (suc (suc (suc (suc (suc (suc n))))))) (omega arith) h

module _ {F : Type 0} where
  -- The cooldown that holds before the escalation: the retry hint, if there is one.
  abbrev pub base_cooldown : CircuitBreaker F → ℕ
  base_cooldown c =
      if ltb 0 (pos_part c.custom_cooldown) then pos_part c.custom_cooldown else pos_part c.cooldown

  chosen :
      (c : CircuitBreaker F)
      → neg_part c.custom_cooldown ≡ 0
      → neg_part c.cooldown ≡ 0
      → (if ltb_ℤ (pos 0) c.custom_cooldown then c.custom_cooldown else c.cooldown)
        ≡ pos (base_cooldown c)
  chosen c h k = ground arith

  -- The cooldown that is in force is the retry hint's, if there is one, or the configured one,
  -- doubled for each failed probe cycle after the third and at most 16 times as long, for cooldowns
  -- that are not negative and of which 16 times fit a `Duration`.
  pub effective_cooldown_escalates :
      (c : CircuitBreaker F)
      → neg_part c.custom_cooldown ≡ 0
      → neg_part c.cooldown ≡ 0
      → base_cooldown c * 16 < two63
      → effective_cooldown c ≡ pos (base_cooldown c * escalation c.open_cycles)
  unfolding effective_cooldown
  effective_cooldown_escalates c h k b =
      rw (chosen c h k) (escalate_lem (base_cooldown c) c.open_cycles b)

  open_for_waits :
      (t : Instant) (d : ℕ) (now : Instant) (c : CircuitBreaker F)
      → 0 < d
      → d < two63
      → c.open_cycles ≤ 3
      → effective_cooldown
          (record (open_circuit t c) { custom_cooldown = pos d; failures = c.threshold })
        ≡ pos d
  unfolding effective_cooldown open_circuit escalate
  open_for_waits t d now c h k l = ground arith

  -- A retry hint of `d`, positive and below 2 ^ 63, opens the breaker of a provider that is not disabled and has trips left,
  -- and while at most three probe cycles have failed no request passes before `d` has elapsed; from
  -- then on one passes, as the probe.
  pub open_for-allow :
      (t : Instant) (d : ℕ) (now : Instant) (c : CircuitBreaker F)
      → 0 < d
      → d < two63
      → c.open_cycles ≤ 3
      → c.state ≢ disabled
      → c.trips + 1 < c.auto_disable
      → ((open_for t (pos d) c).state ≡ open_state)
        × (allow now (open_for t (pos d) c) ≡ (
            if ltb now (t + d)
            then (open_for t (pos d) c, false)
            else (record (open_for t (pos d) c) { state = half_open }, true)))
  unfolding open_for allow open_circuit
  open_for-allow t d now c h k l s a = ground (arith, open_for_waits t d now c h k l)
