-- ===== src/Pricing/Sync.antt =====
-- internal/pricing/pricing.go: `Syncer`, whose lock makes each operation one step. The request and the
-- JSON decoder are parameters; the entries of the catalog stand in the order in which the program's
-- range over the Go map visits them.
use token_route.Base.{ℕ, ◌+◌, Option, none, some, List, [], ◌∷◌, any, length, ◌==◌, if◌then◌else◌}
use token_route.Base.Int.{ℤ, pos, eqb_ℤ}
use token_route.Base.Text.{Text, codes, text_eq, cut}
use token_route.Base.Float.{Float64}
use token_route.RetryPolicy.Defs.{is_blank}
use token_route.Prices.{Price, PriceStore, set_price, has_price}

-- `litellmEntry`
pub record LitellmEntry (F : Type 0) : Type 0 where
  pub input_cost_per_token : F
  pub output_cost_per_token : F
  pub max_input_tokens : ℤ
  pub max_tokens : ℤ
  pub mode : Text

-- `Syncer`, with the shared prices.
pub record Syncer (F : Type 0) : Type 0 where
  pub prices : PriceStore F
  pub models : ℕ

-- `NewSyncer`
unfoldable pub new_syncer : {F : Type 0} → PriceStore F → Syncer F
new_syncer ps = record { prices = ps; models = 0 }

-- `Count`
unfoldable pub count : {F : Type 0} → Syncer F → ℕ
count s = s.models

unfoldable pub trim_quotes_left : Text → Text
trim_quotes_left [] = []
trim_quotes_left (c ∷ s) = let rest = trim_quotes_left s in if c == b'"' then rest else c ∷ s

abbrev drop_quote : ℕ → Text → Text
drop_quote c [] = if c == b'"' then [] else c ∷ []
drop_quote c (d ∷ s) = c ∷ d ∷ s

unfoldable pub trim_quotes_right : Text → Text
trim_quotes_right [] = []
trim_quotes_right (c ∷ s) = drop_quote c (trim_quotes_right s)

-- The variables of the loop of `Merge`.
pub record Merging (F : Type 0) : Type 0 where
  pub seen : List Text
  pub prices : PriceStore F
  pub added : ℕ

-- The provider-less name of "provider/model".
abbrev pub alias_of : Text × Option Text → Option Text
alias_of (vendor, none) = none
alias_of (vendor, some model) = if is_blank vendor then none else some model

module _ (fl : Float64) where
  open fl use {F, of_int, trunc, mul}

  abbrev truncated : Option F → ℤ
  truncated none = pos 0
  truncated (some v) = trunc v

  -- `flexInt.UnmarshalJSON`; `parse_float` is `strconv.ParseFloat`.
  unfoldable pub flex_int : (Text → Option F) → Text → ℤ
  unfolding trim_quotes_left trim_quotes_right
  flex_int parse_float raw =
      let s = trim_quotes_right (trim_quotes_left raw) in
      let n = truncated (parse_float s) in
      if is_blank s then pos 0 else (if text_eq s (codes "null") then pos 0 else n)

  -- The price of an entry, which `put` stores.
  unfoldable pub price_of : LitellmEntry F → Price F
  price_of e =
      let million = of_int (pos 1000000) in
      let prompt = mul e.input_cost_per_token million in
      record {
        prompt_per_1m = prompt;
        completion_per_1m = mul e.output_cost_per_token million;
        embed_per_1m = if text_eq e.mode (codes "embedding") then prompt else of_int (pos 0);
        context_tokens =
            if eqb_ℤ e.max_input_tokens (pos 0) then e.max_tokens else e.max_input_tokens;
        pricing_expr = [];
      }

  -- The closure `put`.
  unfoldable pub put : Text → LitellmEntry F → Merging F → Merging F
  unfolding price_of
  put name e m =
      let marked = record m { seen = name ∷ m.seen } in
      let set = record marked {
        prices = set_price name (price_of e) m.prices;
        added = m.added + 1;
      } in
      if any (text_eq name) m.seen then m else (if has_price name m.prices then marked else set)

  abbrev pub put_alias : Option Text → LitellmEntry F → Merging F → Merging F
  put_alias none e m = m
  put_alias (some name) e m = put name e m

  -- The loop of `Merge`.
  unfoldable pub merge_entries : List (Text × LitellmEntry F) → Merging F → Merging F
  unfolding put
  merge_entries [] m = m
  merge_entries ((name, e) ∷ catalog) m =
      let stored = put_alias (alias_of (cut b'/' name)) e (put name e m) in
      merge_entries catalog (if text_eq name (codes "sample_spec") then m else stored)

  -- `Merge`, with the number of models added.
  unfoldable pub merge : List (Text × LitellmEntry F) → Syncer F → Syncer F × ℕ
  unfolding merge_entries
  merge catalog s =
      let m = merge_entries catalog (record { seen = []; prices = s.prices; added = 0 }) in
      (record { prices = m.prices; models = length catalog }, m.added)

  -- What the request for the catalog gives: an error before a body is decoded, or the rows of the
  -- document, each of which decodes or does not.
  pub data Fetched : Type 0 where
    failed : Text → Fetched
    rows : List (Text × Option (LitellmEntry F)) → Fetched

  -- The loop of `FetchOnce`: the rows that decode.
  unfoldable pub decoded : List (Text × Option (LitellmEntry F)) → List (Text × LitellmEntry F)
  decoded [] = []
  decoded ((name, none) ∷ rs) = decoded rs
  decoded ((name, some e) ∷ rs) =
      let rest = decoded rs in if text_eq name (codes "sample_spec") then rest else (name, e) ∷ rest

  -- `FetchOnce`
  unfoldable pub fetch_once : Fetched → Syncer F → Syncer F × Option Text
  unfolding merge decoded
  fetch_once (failed reason) s = (s, some reason)
  fetch_once (rows rs) s = ((merge (decoded rs) s).0, none)
