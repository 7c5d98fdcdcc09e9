-- ===== src/RateLimit/Bucket.antt =====
-- internal/ratelimit/ratelimit.go: one token bucket. `now` is the clock that the method reads.
use token_route.Base.{Bool, true, false, ◌||◌, if◌then◌else◌}
use token_route.Base.Int.{ℤ, pos, ltb_ℤ}
use token_route.Base.Time.{Instant, sub_time}
use token_route.Base.Float.{Float64, seconds}

-- The result of `Remaining` for an unlimited bucket, 1 << 62.
abbrev pub unlimited : ℤ
unlimited = pos 4611686018427387904

pub record TokenBucket (F : Type 0) : Type 0 where
  pub capacity : F
  pub rate : F
  pub tokens : F
  pub last : Instant

module _ (fl : Float64) where
  open fl use {F, of_int, trunc, add, sub, mul, div, lt, le}

  abbrev pub zero_f : F
  zero_f = of_int (pos 0)

  -- `NewBucket`
  unfoldable pub new_bucket : Instant → ℤ → F → TokenBucket F
  new_bucket now capacity rate = record {
    capacity = of_int capacity;
    rate = rate;
    tokens = of_int capacity;
    last = now;
  }

  -- `refill`
  unfoldable pub refill : Instant → TokenBucket F → TokenBucket F
  refill now b =
      let elapsed = seconds fl (sub_time now b.last) in
      let grown = add b.tokens (mul elapsed b.rate) in
      if lt zero_f elapsed
      then record b { tokens = if lt b.capacity grown then b.capacity else grown; last = now }
      else b

  -- `Allow`
  unfoldable pub allow : Instant → ℤ → TokenBucket F → TokenBucket F × Bool
  allow now n b =
      let c = refill now b in
      if le b.capacity zero_f
      then (b, true)
      else (if le (of_int n) c.tokens
          then (record c { tokens = sub c.tokens (of_int n) }, true)
          else (c, false))

  -- `Remaining`
  unfoldable pub remaining : Instant → TokenBucket F → TokenBucket F × ℤ
  remaining now b =
      let c = refill now b in if le b.capacity zero_f then (b, unlimited) else (c, trunc c.tokens)

  -- 0.999999, the decimal that rounds a wait up.
  abbrev almost_one : F
  almost_one = div (of_int (pos 999999)) (of_int (pos 1000000))

  abbrev at_least_one : ℤ → ℤ
  at_least_one s = if ltb_ℤ s (pos 1) then pos 1 else s

  -- `RetryAfterSeconds`
  unfoldable pub retry_after_seconds : Instant → TokenBucket F → TokenBucket F × ℤ
  retry_after_seconds now b =
      let c = refill now b in
      let secs = div (sub (of_int (pos 1)) c.tokens) c.rate in
      if le b.capacity zero_f || le b.rate zero_f
      then (b, pos 0)
      else (if le (of_int (pos 1)) c.tokens
          then (c, pos 0)
          else (c, at_least_one (trunc (add secs almost_one))))

  -- `Deduct`
  unfoldable pub deduct : Instant → ℤ → TokenBucket F → TokenBucket F
  deduct now n b =
      let c = refill now b in
      let left = sub c.tokens (of_int n) in
      if le b.capacity zero_f
      then b
      else record c { tokens = if lt left zero_f then zero_f else left }
