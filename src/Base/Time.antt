-- ===== src/Base/Time.antt =====
-- Go's `time`: an instant counts the nanoseconds from the zero `Time`, a duration is an int64.
use token_route.Base.{ℕ, ◌+◌, ◌-◌, Bool, ltb, leb, ◌==◌, if◌then◌else◌}
use token_route.Base.Int.{ℤ, pos, negsuc, pos_part, neg_part, two63, wrap64, scale}

abbrev pub Instant : Type 0
Instant = ℕ

abbrev pub Duration : Type 0
Duration = ℤ

-- `t.IsZero()`
abbrev pub is_zero : Instant → Bool
is_zero t = t == 0

-- `a.Before(b)` and `a.After(b)`
abbrev pub before : Instant → Instant → Bool
before a b = ltb a b

abbrev pub after : Instant → Instant → Bool
after a b = ltb b a

-- `a.Sub(b)`, which saturates at the least and the greatest `Duration`.
abbrev pub sub_time : Instant → Instant → Duration
sub_time a b =
    if leb b a
    then (if ltb (a - b) two63 then pos (a - b) else pos (two63 - 1))
    else (if leb (b - a) two63 then negsuc (b - a - 1) else negsuc (two63 - 1))

-- `t.Add(d)`. An instant before the zero `Time` does not occur.
abbrev pub add_time : Instant → Duration → Instant
add_time t d = t + pos_part d - neg_part d

-- `time.Duration(n) * time.Millisecond` and its like, with the wrap of the product.
abbrev pub millisecond : ℕ
millisecond = 1000000

abbrev pub second : ℕ
second = 1000000000

abbrev pub minute : ℕ
minute = 60000000000

abbrev pub hour : ℕ
hour = 3600000000000

abbrev pub of_millis : ℤ → Duration
of_millis n = wrap64 (scale n millisecond)

abbrev pub of_seconds : ℤ → Duration
of_seconds n = wrap64 (scale n second)
