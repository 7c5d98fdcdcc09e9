-- ===== src/Base/Float.antt =====
-- Go's float64 as an interface: the hardware's operations, which the program only calls. Laws that a
-- theorem relies on stand among its hypotheses.
use token_route.Base.{◌+◌, ◌/◌, ◌%◌, Bool}
use token_route.Base.Int.{ℤ, pos, negsuc, sub_ℕ}
use token_route.Base.Time.{Duration, second}

pub record Float64 : Type 1 where
  pub F : Type 0
  -- `float64(n)` and `int(x)`
  pub of_int : ℤ → F
  pub trunc : F → ℤ
  pub add : F → F → F
  pub sub : F → F → F
  pub mul : F → F → F
  pub div : F → F → F
  -- `math.Exp`
  pub exp : F → F
  -- `a < b` and `a <= b`, which are both false at a NaN
  pub lt : F → F → Bool
  pub le : F → F → Bool
  -- `a == b`
  pub eq : F → F → Bool

-- `d.Seconds()`: the whole seconds and the nanoseconds that are left, with the sign of `d`.
abbrev pub seconds : (fl : Float64) → Duration → fl.F
seconds fl (pos n) =
    fl.add (fl.of_int (pos (n / second)))
      (fl.div (fl.of_int (pos (n % second))) (fl.of_int (pos second)))
seconds fl (negsuc n) =
    fl.add (fl.of_int (sub_ℕ 0 ((n + 1) / second)))
      (fl.div (fl.of_int (sub_ℕ 0 ((n + 1) % second))) (fl.of_int (pos second)))

-- `float64(n)`, and one half
abbrev pub half : (fl : Float64) → fl.F
half fl = fl.div (fl.of_int (pos 1)) (fl.of_int (pos 2))
