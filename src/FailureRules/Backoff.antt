-- ===== src/FailureRules/Backoff.antt =====
-- internal/router/failurerules.go: the escalation of a rule with backoff.
use native.Mathlib.Nat.{pow-suc, mul_assoc, mul_comm}
use token_route.Base.{
  ℕ, zero, suc, ◌+◌, ◌*◌, ◌^◌, ◌≤◌, ◌<◌, ◌≡◌, true, arith, min, refl, if◌then◌else◌,
}
use token_route.Base.Int.{pos}
use token_route.Base.Text.{Text}
use token_route.Base.Dict.{text_key, lookup-insert, ◌==◌}
use token_route.FailureRules.Defs.{
  FailureRule, FailureRules, backoff_base, backoff_cap, backoff_loop, level_of, duration,
}

pow_pos : (n : ℕ) → 1 ≤ 2 ^ n
pow_pos zero = omega arith
pow_pos (suc n) = rw pow-suc (omega (arith, pow_pos n))

double_pow : (d n : ℕ) → d * 2 ^ suc n ≡ d * 2 * 2 ^ n
double_pow d n = rw (pow-suc, mul_comm (2 ^ n) 2, mul_assoc) refl

le_mul_pow : (m n : ℕ) → m ≤ m * 2 ^ n
le_mul_pow m zero = omega arith
le_mul_pow m (suc n) = omega (arith, double_pow m n, le_mul_pow m n)

backoff_loop-min : (n d : ℕ) → d < backoff_cap → backoff_loop n d ≡ min (d * 2 ^ n) backoff_cap
unfolding backoff_loop
backoff_loop-min zero d l = omega arith
backoff_loop-min (suc n) d l =
    ground (arith, double_pow d n, le_mul_pow (d * 2) n, backoff_loop-min n (d * 2))

-- One failure under a backoff rule waits 2 s times 2 to the provider's level, 5 minutes at most,
-- and raises the level by one; the other providers keep theirs.
pub duration_escalates :
    (name other : Text) (r : FailureRule) (fr : FailureRules)
    → r.backoff ≡ true
    → ((duration name r fr).1 ≡ pos (min (backoff_base * 2 ^ level_of name fr) backoff_cap))
      × (level_of other (duration name r fr).0
          ≡ (if name == other then level_of name fr + 1 else level_of other fr))
unfolding duration
duration_escalates name other r fr b = (
  ground (arith, backoff_loop-min (level_of name fr) backoff_base),
  ground (arith, lookup-insert name other (level_of name fr + 1) fr.levels),
)
