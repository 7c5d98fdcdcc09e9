-- ===== src/Tests/Syncs.antt =====
-- The price catalogs and the price expressions at concrete inputs.
use token_route.Base.{
  ◌≡◌, ◌≤◌, refl, true, false, Option, none, some, List, [], ◌∷◌, length, ◌==◌, if◌then◌else◌,
}
use token_route.Base.Int.{pos}
use token_route.Base.Text.{Text, codes}
use token_route.Prices.{Price, get_price, PriceStore}
use token_route.Catalog as Catalog
use token_route.Catalog.{Entry}
use token_route.Base.Dict.{lookup}
use token_route.Pricing.Sync.{
  LitellmEntry, new_syncer, merge, fetch_once, decoded, count, rows, failed,
}
use token_route.Pricing.Additive.{
  unchanged, by_catalog, by_pricing, all_priced, Grown-get_price, fetch_once-all_priced,
}
use token_route.Pricing.Expr.{Env, Compiled, done, refused, compile, normalize}
use token_route.Pricing.Compiled.{prefixed, run_compiles, run_compiles-compile}
use token_route.Pricing.Tokens.{normalize-not_negative}
use token_route.Tests.Floats.{whole}

abbrev configured : Price whole.F
configured = record {
  prompt_per_1m = pos 3;
  completion_per_1m = pos 9;
  embed_per_1m = pos 0;
  context_tokens = pos 0;
  pricing_expr = [];
}

abbrev store : PriceStore whole.F
store = (codes "small", configured) ∷ []

abbrev synced : List (Text × Entry)
synced =
    (codes "small", record { context_tokens = pos 8000; output_tokens = pos 100; modalities = [] })
    ∷ []

abbrev entry : LitellmEntry whole.F
entry = record {
  input_cost_per_token = pos 1;
  output_cost_per_token = pos 2;
  max_input_tokens = pos 8000;
  max_tokens = pos 0;
  mode = codes "chat";
}

abbrev priced : List (Text × LitellmEntry whole.F)
priced = (codes "openai/small", entry) ∷ []

abbrev after_catalog : PriceStore whole.F
after_catalog = (Catalog.merge whole synced (record { models = [] }) store).1

small_has : get_price (codes "small") store ≡ some configured
unfolding get_price lookup
small_has = refl

Grown-get_price_example :
    get_price (codes "small") (merge whole priced (new_syncer after_catalog)).0.prices
    ≡ some configured
unfolding Catalog.merge new_syncer
Grown-get_price_example =
    Grown-get_price whole (codes "small") configured store _
      (by_pricing priced (new_syncer after_catalog)
        (by_catalog synced (record { models = [] }) store unchanged))
      small_has

abbrev fetched : List (Text × Option (LitellmEntry whole.F))
fetched = (codes "openai/large", some entry) ∷ (codes "broken", none) ∷ []

fetch_once-all_priced_example :
    (all_priced whole
        (decoded whole fetched)
        (fetch_once whole (rows fetched) (new_syncer store)).0.prices
      ≡ true)
    × (count (fetch_once whole (rows fetched) (new_syncer store)).0
        ≡ length (decoded whole fetched))
    × (fetch_once whole (failed (codes "status 500")) (new_syncer store)
        ≡ (new_syncer store, some (codes "status 500")))
fetch_once-all_priced_example =
    fetch_once-all_priced whole fetched (codes "status 500") (new_syncer store)

-- A compiler that takes every text but those that begin with "(".
abbrev any_text : Text → Compiled Text
any_text [] = refused (codes "unexpected end")
any_text (c ∷ s) =
    if c == b'('
    then refused (codes "unbalanced")
    else done (record { prog = c ∷ s; used_vars = [] })

run_compiles-compile_example :
    (length (run_compiles any_text (codes "p" ∷ codes "c" ∷ codes "p" ∷ []) []) ≤ 256)
    × ((compile any_text
          (codes "(c")
          (run_compiles any_text (codes "p" ∷ codes "c" ∷ codes "p" ∷ []) [])).1
        ≡ prefixed (any_text (codes "(c")))
run_compiles-compile_example =
    run_compiles-compile any_text (codes "p" ∷ codes "c" ∷ codes "p" ∷ []) (codes "(c")

abbrev tokens : Env whole.F
tokens = record {
  p = pos 100;
  c = pos 20;
  len = pos 0;
  cr = pos 150;
  cc = pos 0;
  cc1h = pos 0;
  img = pos 0;
  ai = pos 0;
  ao = pos 5;
  tier = [];
}

abbrev cached : List Text
cached = codes "p" ∷ codes "cr" ∷ []

normalize-not_negative_example :
    (whole.lt (normalize whole tokens cached false).p (pos 0) ≡ false)
    × (whole.lt (normalize whole tokens cached false).c (pos 0) ≡ false)
    × (normalize whole tokens cached false ≡ record tokens {
      p = (normalize whole tokens cached false).p;
      c = (normalize whole tokens cached false).c;
      len =
          if whole.eq tokens.len (pos 0)
          then (normalize whole tokens cached false).p
          else tokens.len;
    })
    × (normalize whole tokens cached true
        ≡ record tokens { len = whole.add (whole.add tokens.p tokens.cr) tokens.cc })
normalize-not_negative_example = normalize-not_negative whole tokens cached refl refl refl
