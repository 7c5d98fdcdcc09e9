-- ===== src/Prices/Laws.antt =====
-- internal/usage/prices.go: what a price store answers.
use token_route.Base.{◌≡◌, refl, [], ◌∷◌, arith}
use token_route.Base.Text.{Text}
use token_route.Base.Dict.{lookup, text_key, lookup-insert}
use token_route.Prices.{PriceStore, get_price, snapshot, new_price_store}

-- A snapshot answers as the store does.
pub get_price-snapshot :
    {F : Type 0} (model : Text) (ps : PriceStore F)
    → get_price model (snapshot ps) ≡ get_price model ps
unfolding get_price snapshot new_price_store lookup
get_price-snapshot model [] = refl
get_price-snapshot model ((k, v) ∷ ps) =
    ground (arith, lookup-insert k model v (new_price_store ps), get_price-snapshot model ps)
