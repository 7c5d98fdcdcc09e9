-- ===== src/Pricing/Tokens.antt =====
-- internal/pricing/expr.go: the token counts that an expression is run on.
use token_route.Base.{Bool, true, false, ◌||◌, ◌≡◌, refl, List, if◌then◌else◌, arith}
use token_route.Base.Int.{pos}
use token_route.Base.Text.{Text, codes}
use token_route.Base.Float.{Float64}
use token_route.Pricing.Expr.{Env, sub_from, sub_if, uses, normalize}

module _ (fl : Float64) where
  open fl use {F, of_int, add, lt, eq}

  sub_if-not_negative :
      (used : Bool) (from v : F)
      → lt (of_int (pos 0)) (of_int (pos 0)) ≡ false
      → lt from (of_int (pos 0)) ≡ false
      → lt (sub_if fl used from v) (of_int (pos 0)) ≡ false
  unfolding sub_from
  sub_if-not_negative used from v zero_law h = ground arith

  -- On floats where 0 is not below 0, counts of prompt and completion tokens that are not negative
  -- stay so, whatever the expression refers to and whatever the detail counts are; the detail counts
  -- themselves stay as they are. With Anthropic's meaning of the counts neither is touched, and the
  -- length is the prompt with both kinds of cache tokens; otherwise a length that is given stays.
  pub normalize-not_negative :
      (e : Env F) (vars : List Text)
      → lt (of_int (pos 0)) (of_int (pos 0)) ≡ false
      → lt e.p (of_int (pos 0)) ≡ false
      → lt e.c (of_int (pos 0)) ≡ false
      → (lt (normalize fl e vars false).p (of_int (pos 0)) ≡ false)
        × (lt (normalize fl e vars false).c (of_int (pos 0)) ≡ false)
        × (normalize fl e vars false ≡ record e {
          p = (normalize fl e vars false).p;
          c = (normalize fl e vars false).c;
          len = if eq e.len (of_int (pos 0)) then (normalize fl e vars false).p else e.len;
        })
        × (normalize fl e vars true ≡ record e { len = add (add e.p e.cr) e.cc })
  unfolding normalize
  normalize-not_negative e vars zero_law hp hc =
      let p₁ = sub_if fl (uses fl vars (codes "cr")) e.p e.cr in
      let p₂ = sub_if fl (uses fl vars (codes "cc") || uses fl vars (codes "cc1h")) p₁ e.cc in
      let p₃ = sub_if fl (uses fl vars (codes "img")) p₂ e.img in
      (
        sub_if-not_negative _ p₃ e.ai zero_law (
            sub_if-not_negative _ p₂ e.img zero_law (
              sub_if-not_negative _ p₁ e.cc zero_law (sub_if-not_negative _ e.p e.cr zero_law hp))),
        sub_if-not_negative _ e.c e.ao zero_law hc,
        refl,
        refl,
      )
