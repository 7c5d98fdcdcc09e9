-- ===== src/Usage/Cost.antt =====
-- internal/usage/usage.go: what a request costs at a flat price. The SQLite tables are not modelled.
use token_route.Base.{Option, none, some, if◌then◌else◌}
use token_route.Base.Int.{ℤ, pos}
use token_route.Base.Float.{Float64}
use token_route.Prices.{Price}

module _ (fl : Float64) where
  open fl use {F, of_int, add, mul, div, eq}

  abbrev million : F
  million = of_int (pos 1000000)

  -- `Cost`; `none` is nil.
  unfoldable pub cost : ℤ → ℤ → Option (Price F) → Option F
  cost prompt completion none = none
  cost prompt completion (some p) = some (
      add (mul (div (of_int prompt) million) p.prompt_per_1m)
        (mul (div (of_int completion) million) p.completion_per_1m))

  -- `EmbedCost`
  unfoldable pub embed_cost : ℤ → Option (Price F) → Option F
  embed_cost prompt none = none
  embed_cost prompt (some p) =
      let per_1m = if eq p.embed_per_1m (of_int (pos 0)) then p.prompt_per_1m else p.embed_per_1m in
      some (mul (div (of_int prompt) million) per_1m)
