-- ===== src/RateLimit/Registry.antt =====
-- internal/ratelimit/ratelimit.go: the buckets of all keys, and of keys with models. The map holds
-- pointers, so a method of a bucket writes the new bucket back.
use token_route.Base.{Bool, true, ◌||◌, Option, none, some, List, [], ◌∷◌, ◌++◌, if◌then◌else◌}
use token_route.Base.Int.{ℤ, pos, leb_ℤ, ltb_ℤ}
use token_route.Base.Text.{Text, codes, has_prefix, format_int}
use token_route.Base.Time.{Instant}
use token_route.Base.Dict.{lookup, insert, delete, text_key, int_key}
use token_route.Base.Float.{Float64}
use token_route.RateLimit.Bucket.{
  TokenBucket, new_bucket, allow, remaining, retry_after_seconds, deduct, unlimited,
}

pub record Buckets (F : Type 0) : Type 0 where
  pub rpm : Option (TokenBucket F)
  pub tpm : Option (TokenBucket F)

pub record Registry (F : Type 0) : Type 0 where
  pub by_id : List (ℤ × Buckets F)
  pub model_rpm : List (Text × TokenBucket F)

-- `NewRegistry`
unfoldable pub new : {F : Type 0} → Registry F
new = record { by_id = []; model_rpm = [] }

abbrev pub no_buckets : {F : Type 0} → Buckets F
no_buckets = record { rpm = none; tpm = none }

abbrev pub buckets_of : {F : Type 0} → Option (Buckets F) → Buckets F
buckets_of none = no_buckets
buckets_of (some bs) = bs

-- `strconv.FormatInt(keyID, 10) + ":"`
unfoldable pub key_prefix : ℤ → Text
key_prefix id = format_int id ++ codes ":"

-- The loop of `Invalidate` over `modelRPM`.
unfoldable pub drop_prefix :
    {F : Type 0} → Text → List (Text × TokenBucket F) → List (Text × TokenBucket F)
drop_prefix p [] = []
drop_prefix p ((k, b) ∷ m) =
    let rest = drop_prefix p m in if has_prefix k p then rest else (k, b) ∷ rest

-- `Invalidate`
unfoldable pub invalidate : {F : Type 0} → ℤ → Registry F → Registry F
unfolding drop_prefix
invalidate id r = record {
  by_id = delete id r.by_id;
  model_rpm = drop_prefix (key_prefix id) r.model_rpm;
}

module _ (fl : Float64) where
  open fl use {F, of_int, div, eq}

  abbrev per_minute : ℤ → F
  per_minute n = div (of_int n) (of_int (pos 60))

  -- `b == nil || b.capacity != float64(limit)` gives a new bucket.
  unfoldable pub ensure : Instant → ℤ → Option (TokenBucket F) → TokenBucket F
  ensure now limit none = new_bucket fl now limit (per_minute limit)
  ensure now limit (some b) =
      if eq b.capacity (of_int limit) then b else new_bucket fl now limit (per_minute limit)

  abbrev if_positive : Instant → ℤ → Option (TokenBucket F) → Option (TokenBucket F)
  if_positive now limit o = if ltb_ℤ (pos 0) limit then some (ensure now limit o) else o

  -- `get`: the buckets of a key, as they stand after it.
  unfoldable pub get : Instant → ℤ → ℤ → ℤ → Registry F → Registry F × Buckets F
  get now id rpm tpm r =
      let bs = buckets_of (lookup id r.by_id) in
      let cs : Buckets F = record {
        rpm = if_positive now rpm bs.rpm;
        tpm = if_positive now tpm bs.tpm;
      } in
      (record r { by_id = insert id cs r.by_id }, cs)

  abbrev put_rpm : ℤ → TokenBucket F → Buckets F → Registry F → Registry F
  put_rpm id b bs r = record r { by_id = insert id (record bs { rpm = some b }) r.by_id }

  abbrev put_tpm : ℤ → TokenBucket F → Buckets F → Registry F → Registry F
  put_tpm id b bs r = record r { by_id = insert id (record bs { tpm = some b }) r.by_id }

  -- `AllowRPM`. `get` leaves no nil bucket where the limit is positive, and `ensure` returns the
  -- bucket that it left.
  unfoldable pub allow_rpm : Instant → ℤ → ℤ → Registry F → Registry F × Bool
  allow_rpm now id rpm r =
      let (s, bs) = get now id rpm (pos 0) r in
      let b = ensure now rpm bs.rpm in
      let (c, granted) = allow fl now (pos 1) b in
      if leb_ℤ rpm (pos 0) then (r, true) else (put_rpm id c bs s, granted)

  -- `RPMRemaining`
  unfoldable pub rpm_remaining : Instant → ℤ → ℤ → Registry F → Registry F × ℤ
  rpm_remaining now id rpm r =
      let (s, bs) = get now id rpm (pos 0) r in
      let (c, n) = remaining fl now (ensure now rpm bs.rpm) in
      if leb_ℤ rpm (pos 0) then (r, unlimited) else (put_rpm id c bs s, n)

  -- `TPMRemaining`
  unfoldable pub tpm_remaining : Instant → ℤ → ℤ → Registry F → Registry F × ℤ
  tpm_remaining now id tpm r =
      let (s, bs) = get now id (pos 0) tpm r in
      let (c, n) = remaining fl now (ensure now tpm bs.tpm) in
      if leb_ℤ tpm (pos 0) then (r, unlimited) else (put_tpm id c bs s, n)

  -- `RPMRetryAfter`
  unfoldable pub rpm_retry_after : Instant → ℤ → ℤ → Registry F → Registry F × ℤ
  rpm_retry_after now id rpm r =
      let (s, bs) = get now id rpm (pos 0) r in
      let (c, n) = retry_after_seconds fl now (ensure now rpm bs.rpm) in
      if leb_ℤ rpm (pos 0) then (r, pos 0) else (put_rpm id c bs s, n)

  -- `TPMRetryAfter`
  unfoldable pub tpm_retry_after : Instant → ℤ → ℤ → Registry F → Registry F × ℤ
  tpm_retry_after now id tpm r =
      let (s, bs) = get now id (pos 0) tpm r in
      let (c, n) = retry_after_seconds fl now (ensure now tpm bs.tpm) in
      if leb_ℤ tpm (pos 0) then (r, pos 0) else (put_tpm id c bs s, n)

  -- `DeductTPM`
  unfoldable pub deduct_tpm : Instant → ℤ → ℤ → ℤ → Registry F → Registry F
  deduct_tpm now id tpm n r =
      let (s, bs) = get now id (pos 0) tpm r in
      let c = deduct fl now n (ensure now tpm bs.tpm) in
      if leb_ℤ tpm (pos 0) || leb_ℤ n (pos 0) then r else put_tpm id c bs s

  -- `AllowModelRPM`
  unfoldable pub allow_model_rpm : Instant → ℤ → Text → ℤ → Registry F → Registry F × Bool
  allow_model_rpm now id model limit r =
      let ns = key_prefix id ++ model in
      let b = ensure now limit (lookup ns r.model_rpm) in
      let (c, granted) = allow fl now (pos 1) b in
      if leb_ℤ limit (pos 0)
      then (r, true)
      else (record r { model_rpm = insert ns c r.model_rpm }, granted)

  abbrev waited : Instant → Text → Option (TokenBucket F) → Registry F → Registry F × ℤ
  waited now ns none r = (r, pos 0)
  waited now ns (some b) r =
      let (c, n) = retry_after_seconds fl now b in
      (record r { model_rpm = insert ns c r.model_rpm }, n)

  -- `ModelRPMRetryAfter`
  unfoldable pub model_rpm_retry_after : Instant → ℤ → Text → ℤ → Registry F → Registry F × ℤ
  model_rpm_retry_after now id model limit r =
      let ns = key_prefix id ++ model in
      let found = waited now ns (lookup ns r.model_rpm) r in
      if leb_ℤ limit (pos 0) then (r, pos 0) else found
