-- ===== src/Server/Billing.antt =====
-- internal/server/server.go: what a request that was answered costs.
use token_route.Base.{ℕ, Bool, true, false, Option, none, some, List, [], ◌∷◌, if◌then◌else◌}
use token_route.Base.Int.{ℤ, pos, eqb_ℤ, wrap64, ◌+ℤ◌}
use token_route.Base.Text.{Text, text_eq}
use token_route.Base.Dict.{lookup, text_key}
use token_route.Base.Float.{Float64}
use token_route.RetryPolicy.Defs.{is_blank}
use token_route.Prices.{Price}
use token_route.Usage.Sse.{Usage, cache_read, cache_create, image_tokens, audio_in, audio_out}
use token_route.Usage.Cost.{cost, embed_cost}
use token_route.Pricing.Expr.{CachedExpr, Env, Ran, eval, normalize}

-- The fields of `usage.Entry` that billing reads or writes.
pub record Entry (F : Type 0) : Type 0 where
  pub provider : Text
  pub model : Text
  pub status : ℕ
  pub prompt_tokens : ℤ
  pub completion_tokens : ℤ
  pub total_tokens : ℤ
  pub cache_read_tokens : ℤ
  pub cache_create_tokens : ℤ
  pub image_count : ℤ  -- `ImageTokens`
  pub audio_in_tokens : ℤ
  pub audio_out_tokens : ℤ
  pub cost_usd : Option F
  pub budget_exceeded : Bool
  pub multiplier : F
  pub price_tier : Text

-- The block of `relayFull` and `relayStream` that takes over the usage of the upstream; a total that
-- is 0 is the sum of its parts.
unfoldable pub read_usage : {F : Type 0} → Option Usage → Entry F → Entry F
read_usage none e = e
read_usage (some u) e =
    let parts = wrap64 (u.prompt_tokens +ℤ u.completion_tokens) in
    record e {
      prompt_tokens = u.prompt_tokens;
      completion_tokens = u.completion_tokens;
      total_tokens = if eqb_ℤ u.total_tokens (pos 0) then parts else u.total_tokens;
      cache_read_tokens = cache_read u;
      cache_create_tokens = cache_create u;
      image_count = image_tokens u;
      audio_in_tokens = audio_in u;
      audio_out_tokens = audio_out u;
    }

module _ (fl : Float64) where
  open fl use {F, of_int, mul, lt, le, eq}

  abbrev pub times_ratio : F → Option F → F
  times_ratio m none = m
  times_ratio m (some r) = mul m r

  -- The inner loop of `groupRatioMultiplier`.
  unfoldable pub ratio_loop : List (Text × F) → Text → List Text → F → F
  ratio_loop ratios g [] m = m
  ratio_loop ratios g (cg ∷ cgs) m =
      ratio_loop ratios g cgs (if text_eq g cg then times_ratio m (lookup g ratios) else m)

  unfoldable pub group_loop : List (Text × F) → List Text → List Text → F → F
  unfolding ratio_loop
  group_loop ratios [] cgs m = m
  group_loop ratios (g ∷ gs) cgs m = group_loop ratios gs cgs (ratio_loop ratios g cgs m)

  -- `groupRatioMultiplier`
  unfoldable pub group_ratio_multiplier : List (Text × F) → List Text → List Text → F
  unfolding group_loop
  group_ratio_multiplier ratios key_groups cand_groups =
      group_loop ratios key_groups cand_groups (of_int (pos 1))

  abbrev pub scale_cost : F → Entry F → Entry F
  scale_cost factor e = elim (e.cost_usd) [
    | none ↦ e
    | some usd ↦ record e { cost_usd = some (mul usd factor) }
  ]

  abbrev pub scaled_groups : Option (List (Text × F)) → List Text → List Text → Entry F → Entry F
  scaled_groups none key_groups cand_groups e = e
  scaled_groups (some ratios) key_groups cand_groups e =
      scale_cost (group_ratio_multiplier ratios key_groups cand_groups) e

  abbrev pub embed_cost_or : Option F → ℤ → Option (Price F) → Option F
  embed_cost_or old prompt none = old
  embed_cost_or old prompt (some p) = embed_cost fl prompt (some p)

  -- `parseMaxCost`; `strconv.ParseFloat` on the trimmed header is given.
  unfoldable pub parse_max_cost : Text → Option F → Option F
  parse_max_cost [] parsed = none
  parse_max_cost (c ∷ v) none = none
  parse_max_cost (c ∷ v) (some f) = if le f (of_int (pos 0)) then none else some f

  -- The library for expressions: what `Compile` gives, none for an error, and a run of a program.
  module _ {Program : Type 0} (compile : Text → Option (CachedExpr Program))
      (run : Program → Env F → Ran fl) where
    abbrev pub env_of : Entry F → Env F
    env_of e = record {
      p = of_int e.prompt_tokens;
      c = of_int e.completion_tokens;
      len = of_int (pos 0);
      cr = of_int e.cache_read_tokens;
      cc = of_int e.cache_create_tokens;
      cc1h = of_int (pos 0);
      img = of_int e.image_count;
      ai = of_int e.audio_in_tokens;
      ao = of_int e.audio_out_tokens;
      tier = [];
    }

    abbrev evaluated : Entry F → Bool → Option (CachedExpr Program) → Option (F × Text)
    evaluated e anthropic none = none
    evaluated e anthropic (some ce) =
        eval fl run ce.prog (normalize fl (env_of e) ce.used_vars anthropic)

    -- `exprCost`
    unfoldable pub expr_cost : Entry F → Text → Bool → Option (F × Text)
    expr_cost e expression anthropic = evaluated e anthropic (compile expression)

    abbrev pub costed : Entry F → Price F → Option (F × Text) → Entry F
    costed e p none = record e { cost_usd = cost fl e.prompt_tokens e.completion_tokens (some p) }
    costed e p (some (usd, tier)) = record e { cost_usd = some usd; price_tier = tier }

    -- `chatCost`, with its result in the entry.
    unfoldable pub chat_cost : Bool → Price F → Entry F → Entry F
    unfolding expr_cost
    chat_cost anthropic p e =
        costed e p (if is_blank p.pricing_expr then none else expr_cost e p.pricing_expr anthropic)

    abbrev pub priced : Bool → Option (Price F) → Entry F → Entry F
    priced anthropic none e = e
    priced anthropic (some p) e = chat_cost anthropic p e

    abbrev over_budget : Option F → Option F → Bool
    over_budget (some budget) (some usd) = lt budget usd
    over_budget _ _ = false

    -- The cost of a chat request in `chatCompletions`: the price, the multipliers of route and groups,
    -- and the mark of a budget that it exceeds.
    unfoldable pub bill_chat :
        Bool
        → Option (Price F)
        → F
        → Option (List (Text × F))
        → List Text
        → List Text
        → Option F
        → Entry F
        → Entry F
    unfolding chat_cost
    bill_chat anthropic price mult ratios key_groups cand_groups budget e₀ =
        let e₁ = priced anthropic price (record e₀ { multiplier = mult }) in
        let e₂ = if eq mult (of_int (pos 1)) then e₁ else scale_cost mult e₁ in
        let e₃ = scaled_groups ratios key_groups cand_groups e₂ in
        if over_budget budget e₃.cost_usd then record e₃ { budget_exceeded = true } else e₃

  -- The cost of a request for embeddings: the prompt alone counts.
  unfoldable pub bill_embeddings :
      Option (Price F) → F → Option (List (Text × F)) → List Text → List Text → Entry F → Entry F
  bill_embeddings price mult ratios key_groups cand_groups e₀ =
      let e₁ = record e₀ {
        completion_tokens = pos 0;
        total_tokens = e₀.prompt_tokens;
        multiplier = mult;
        cost_usd = embed_cost_or e₀.cost_usd e₀.prompt_tokens price;
      } in
      let e₂ = if eq mult (of_int (pos 1)) then e₁ else scale_cost mult e₁ in
      scaled_groups ratios key_groups cand_groups e₂
