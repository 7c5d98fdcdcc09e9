-- ===== src/Prices.antt =====
-- internal/usage/prices.go and the type `Price` of internal/usage/usage.go: the price store that the
-- router, the server and the syncs share. Its lock makes each operation one step.
pub mod Laws
use token_route.Base.{ℕ, Bool, true, false, Option, none, some, List, [], ◌∷◌}
use token_route.Base.Int.{ℤ}
use token_route.Base.Text.{Text}
use token_route.Base.Dict.{lookup, insert, text_key}

pub record Price (F : Type 0) : Type 0 where
  pub prompt_per_1m : F
  pub completion_per_1m : F
  pub embed_per_1m : F
  pub context_tokens : ℤ
  pub pricing_expr : Text  -- `Expr`

abbrev pub PriceStore : Type 0 → Type 0
PriceStore F = List (Text × Price F)

abbrev pub is_some {ℓ} : {A : Type ℓ} → Option A → Bool
is_some none = false
is_some (some a) = true

module _ {F : Type 0} where
  -- The loop of `NewPriceStore`; `Snapshot` copies the map in the same way.
  unfoldable pub new_price_store : List (Text × Price F) → PriceStore F
  new_price_store [] = []
  new_price_store ((k, v) ∷ seed) = insert k v (new_price_store seed)

  -- `Get`
  unfoldable pub get_price : Text → PriceStore F → Option (Price F)
  get_price model ps = lookup model ps

  -- `Set`
  unfoldable pub set_price : Text → Price F → PriceStore F → PriceStore F
  set_price model p ps = insert model p ps

  -- `Has`
  unfoldable pub has_price : Text → PriceStore F → Bool
  has_price model ps = is_some (lookup model ps)

  -- `Snapshot`
  unfoldable pub snapshot : PriceStore F → PriceStore F
  unfolding new_price_store
  snapshot ps = new_price_store ps
