-- ===== src/Tests/Floats.antt =====
-- An instance of the floats for the tests: whole numbers, on which Go's float64 agrees with them.
use token_route.Base.{ℕ, ◌*◌, ◌/◌, refl, arith, ltb, if◌then◌else◌, ◌+◌}
use token_route.Base.Int.{
  ℤ, pos, negsuc, pos_part, neg_part, sub_ℕ, leb_ℤ, ltb_ℤ, eqb_ℤ, ◌+ℤ◌, ◌-ℤ◌,
}
use token_route.Base.Float.{Float64}
use token_route.RateLimit.Burst.{IsExact}

abbrev times : ℤ → ℤ → ℤ
times a b =
    sub_ℕ (pos_part a * pos_part b + neg_part a * neg_part b)
      (pos_part a * neg_part b + neg_part a * pos_part b)

abbrev over : ℤ → ℤ → ℤ
over (pos a) (pos b) = pos (a / b)
over (pos a) (negsuc b) = sub_ℕ 0 (a / (b + 1))
over (negsuc a) (pos b) = sub_ℕ 0 ((a + 1) / b)
over (negsuc a) (negsuc b) = pos ((a + 1) / (b + 1))

abbrev pub whole : Float64
whole = record {
  F = ℤ;
  of_int = λ n. n;
  trunc = λ x. x;
  add = ◌+ℤ◌;
  sub = ◌-ℤ◌;
  mul = times;
  div = over;
  exp = λ x. pos 1;
  lt = ltb_ℤ;
  le = leb_ℤ;
  eq = eqb_ℤ;
}

pub whole-IsExact : IsExact whole
whole-IsExact = record {
  le_exact = λ a b h k. ground arith;
  lt_exact = λ a b h k. ground arith;
  eq_exact = λ a h. ground arith;
  sub_exact = λ a b h k. ground arith;
  add_zero = refl;
  div_zero = λ n h. ground arith;
}

-- Lower case for ASCII.
abbrev pub ascii_lower : ℕ → ℕ
ascii_lower c = if ltb 64 c then (if ltb c 91 then c + 32 else c) else c
