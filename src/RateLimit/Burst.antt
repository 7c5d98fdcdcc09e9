-- ===== src/RateLimit/Burst.antt =====
-- internal/ratelimit/ratelimit.go: how many requests a new key may send at once.
use token_route.Base.{
  ℕ, zero, suc, ◌+◌, ◌-◌, ◌≤◌, ◌<◌, ◌≡◌, true, false, Option, List, none, some, arith, refl, min,
  leb, ltb, ap, ◌∙◌, if◌then◌else◌,
}
use token_route.Base.Int.{ℤ, pos, leb_ℤ}
use token_route.Base.Time.{Instant, sub_time, second}
use token_route.Base.Dict.{lookup, insert, int_key, lookup-insert_self}
use token_route.Base.Float.{Float64, seconds}
use token_route.RateLimit.Bucket.{TokenBucket, refill, allow, new_bucket}
use token_route.RateLimit.Registry.{Registry, Buckets, buckets_of, ensure, get, allow_rpm}

abbrev two53 : ℕ
two53 = 9007199254740992

-- IEEE 754 doubles hold the integers up to 2 ^ 53 exactly: they compare and subtract as integers, a
-- sum of zeros is zero, and zero divided by a positive number is zero.
pub record IsExact (fl : Float64) : Type 0 where
  pub le_exact :
      (a b : ℕ) → a ≤ two53 → b ≤ two53 → fl.le (fl.of_int (pos a)) (fl.of_int (pos b)) ≡ leb a b
  pub lt_exact :
      (a b : ℕ) → a ≤ two53 → b ≤ two53 → fl.lt (fl.of_int (pos a)) (fl.of_int (pos b)) ≡ ltb a b
  pub eq_exact : (a : ℕ) → a ≤ two53 → fl.eq (fl.of_int (pos a)) (fl.of_int (pos a)) ≡ true
  pub sub_exact :
      (a b : ℕ)
      → b ≤ a
      → a ≤ two53
      → fl.sub (fl.of_int (pos a)) (fl.of_int (pos b)) ≡ fl.of_int (pos (a - b))
  pub add_zero : fl.add (fl.of_int (pos 0)) (fl.of_int (pos 0)) ≡ fl.of_int (pos 0)
  pub div_zero :
      (n : ℕ) → 0 < n → fl.div (fl.of_int (pos 0)) (fl.of_int (pos n)) ≡ fl.of_int (pos 0)

module _ (fl : Float64) (x : IsExact fl) where
  open fl use {F, of_int}

  sub_time_self : (now : Instant) → sub_time now now ≡ pos 0
  sub_time_self now = ground arith

  seconds_zero : seconds fl (pos 0) ≡ of_int (pos 0)
  seconds_zero = cc (x.div_zero second (omega arith), x.add_zero)

  not_elapsed : (now : Instant) → fl.lt (of_int (pos 0)) (seconds fl (sub_time now now)) ≡ false
  not_elapsed now =
      ap (λ d. fl.lt (of_int (pos 0)) (seconds fl d)) (sub_time_self now)
      ∙ ap (fl.lt (of_int (pos 0))) seconds_zero
      ∙ x.lt_exact 0 0 (omega arith) (omega arith)

  -- No time has passed, so nothing is added.
  refill_now : (b : TokenBucket F) → refill fl b.last b ≡ b
  unfolding refill
  refill_now b = ground (arith, not_elapsed b.last)

  -- A bucket that holds `t` of its `n` tokens at this moment.
  abbrev filled : Instant → F → ℕ → ℕ → TokenBucket F
  filled now rate n t = record {
    capacity = of_int (pos n);
    rate = rate;
    tokens = of_int (pos t);
    last = now;
  }

  allow-filled :
      (now : Instant) (rate : F) (n t : ℕ)
      → 0 < n
      → n ≤ two53
      → t ≤ n
      → allow fl now (pos 1) (filled now rate n t) ≡ (filled now rate n (t - 1), leb 1 t)
  unfolding allow
  allow-filled now rate n t p b l =
      ground
        (arith, refill_now (filled now rate n t), x.le_exact n 0, x.le_exact 1 t, x.sub_exact t 1)

  ensure_same :
      (now : Instant) (limit : ℤ) (o : Option (TokenBucket F))
      → ensure fl now limit (some (ensure fl now limit o)) ≡ ensure fl now limit o
  unfolding ensure
  ensure_same now limit none = ground arith
  ensure_same now limit (some b) = ground arith

  ensure-filled :
      (now : Instant) (rate : F) (n t : ℕ)
      → n ≤ two53
      → ensure fl now (pos n) (some (filled now rate n t)) ≡ filled now rate n t
  unfolding ensure
  ensure-filled now rate n t b = rw (x.eq_exact n b) refl

  -- `k` requests of one key at one instant, and how many of them were granted.
  unfoldable pub run_requests : ℕ → Instant → ℤ → ℤ → Registry F → Registry F × ℕ
  run_requests zero now id rpm r = (r, 0)
  run_requests (suc k) now id rpm r =
      let (s, granted) = allow_rpm fl now id rpm r in
      let (t, n) = run_requests k now id rpm s in (t, if granted then n + 1 else n)

  module _ (now : Instant) (id : ℤ) (n : ℕ) (p : 0 < n) (b : n ≤ two53) where
    not_unlimited : leb_ℤ (pos n) (pos 0) ≡ false
    not_unlimited = ground arith

    -- The key's bucket holds `t` tokens.
    record Holds (t : ℕ) (r : Registry F) : Type 0 where
      rate : F
      within : t ≤ n
      stored : ensure fl now (pos n) (buckets_of (lookup id r.by_id)).rpm ≡ filled now rate n t

    bucket_got :
        (r : Registry F)
        → ensure fl now (pos n) (get fl now id (pos n) (pos 0) r).1.rpm
          ≡ ensure fl now (pos n) (buckets_of (lookup id r.by_id)).rpm
    unfolding get
    bucket_got r = ground (arith, ensure_same now (pos n) (buckets_of (lookup id r.by_id)).rpm)

    allow-got :
        (t : ℕ) (r : Registry F) (h : Holds t r)
        → allow fl now (pos 1) (ensure fl now (pos n) (get fl now id (pos n) (pos 0) r).1.rpm)
          ≡ (filled now h.rate n (t - 1), leb 1 t)
    allow-got t r h =
        ap (allow fl now (pos 1)) (bucket_got r ∙ h.stored)
        ∙ allow-filled now h.rate n t p b h.within

    rpm_of_insert :
        (bs : Buckets F) (c : TokenBucket F) (m : List (ℤ × Buckets F))
        → (buckets_of (lookup id (insert id (record bs { rpm = some c }) m))).rpm ≡ some c
    rpm_of_insert bs c m =
        ap (λ o. (buckets_of o).rpm) (lookup-insert_self id (record bs { rpm = some c }) m)

    -- One request takes one token if there is one.
    Holds-allow_rpm :
        (t : ℕ) (r : Registry F) (h : Holds t r)
        → Holds (t - 1) (allow_rpm fl now id (pos n) r).0
          × ((allow_rpm fl now id (pos n) r).1 ≡ leb 1 t)
    unfolding allow_rpm
    Holds-allow_rpm t r h =
        let s = get fl now id (pos n) (pos 0) r in
        rw (not_unlimited, allow-got t r h)
          (
            record {
              rate = h.rate;
              within = omega arith;
              stored =
                  ap (ensure fl now (pos n))
                    (rpm_of_insert s.1 (filled now h.rate n (t - 1)) s.0.by_id)
                  ∙ ensure-filled now h.rate n (t - 1) b;
            },
            refl,
          )

    run_requests-Holds :
        (k t : ℕ) (r : Registry F) → Holds t r → (run_requests k now id (pos n) r).1 ≡ min k t
    unfolding run_requests
    run_requests-Holds zero t r h = omega arith
    run_requests-Holds (suc k) t r h =
        let (after, granted) = Holds-allow_rpm t r h in
        rw granted
          (ground (arith, run_requests-Holds k (t - 1) (allow_rpm fl now id (pos n) r).0 after))

    new_key : (r : Registry F) → lookup id r.by_id ≡ none → Holds n r
    unfolding ensure new_bucket
    new_key r e = record {
      rate = fl.div (of_int (pos n)) (of_int (pos 60));
      within = omega arith;
      stored = rw e refl;
    }

    -- A key that has no bucket yet and a limit of `n` requests per minute, from 1 to 2 ^ 53: of `k`
    -- requests at one instant exactly the smaller of `k` and `n` are granted.
    pub run_requests_burst :
        (k : ℕ) (r : Registry F)
        → lookup id r.by_id ≡ none
        → (run_requests k now id (pos n) r).1 ≡ min k n
    run_requests_burst k r e = run_requests-Holds k n r (new_key r e)
