-- ===== src/Pricing/Additive.antt =====
-- internal/pricing/pricing.go and internal/catalog/catalog.go: both syncs only add to the shared prices.
use token_route.Base.{
  Bool, true, ◌||◌, ◌≡◌, refl, Option, none, some, List, [], ◌∷◌, any, all, length, arith,
  Bool-cases, Option-cases, inl, inr,
}
use token_route.Base.Text.{Text, codes, cut, text_eq, text_eq_iff}
use token_route.Base.Dict.{text_key, lookup-insert}
use token_route.Base.Float.{Float64}
use token_route.Prices.{Price, PriceStore, get_price, has_price, set_price, is_some}
use token_route.Catalog as Catalog
use token_route.Catalog.{Entry, context_only, merge_models}
use token_route.Pricing.Sync.{
  LitellmEntry, Syncer, Merging, alias_of, price_of, put, put_alias, merge_entries, merge,
  fetch_once, decoded, count, rows, failed,
}

module _ (fl : Float64) where
  open fl use {F}

  -- One sync that succeeds: of the model catalog, or of the price catalog.
  pub data Grown (start : PriceStore F) : PriceStore F → Type 0 where
    unchanged : Grown start start
    by_catalog :
        (models : List (Text × Entry)) (s : Catalog.Syncer) (ps : PriceStore F)
        → Grown start ps
        → Grown start (Catalog.merge fl models s ps).1
    by_pricing :
        (entries : List (Text × LitellmEntry F)) (s : Syncer F)
        → Grown start s.prices
        → Grown start (merge fl entries s).0.prices

  merge_models-keeps :
      (model : Text) (p : Price F) (es : List (Text × Entry)) (ps : PriceStore F)
      → get_price model ps ≡ some p
      → get_price model (merge_models fl es ps) ≡ some p
  unfolding merge_models get_price has_price set_price
  merge_models-keeps model p [] ps h = h
  merge_models-keeps model p ((id, e) ∷ es) ps h =
      merge_models-keeps model p es _
        (ground (arith, lookup-insert id model (context_only fl e) ps, text_eq_iff id model))

  put-keeps :
      (model : Text) (p : Price F) (name : Text) (e : LitellmEntry F) (m : Merging F)
      → get_price model m.prices ≡ some p
      → get_price model (put fl name e m).prices ≡ some p
  unfolding put get_price has_price set_price
  put-keeps model p name e m h =
      ground (arith, lookup-insert name model (price_of fl e) m.prices, text_eq_iff name model)

  put_alias-keeps :
      (model : Text) (p : Price F) (alias : Option Text) (e : LitellmEntry F) (m : Merging F)
      → get_price model m.prices ≡ some p
      → get_price model (put_alias fl alias e m).prices ≡ some p
  put_alias-keeps model p none e m h = h
  put_alias-keeps model p (some name) e m h = put-keeps model p name e m h

  merge_entries-keeps :
      (model : Text) (p : Price F) (catalog : List (Text × LitellmEntry F)) (m : Merging F)
      → get_price model m.prices ≡ some p
      → get_price model (merge_entries fl catalog m).prices ≡ some p
  unfolding merge_entries
  merge_entries-keeps model p [] m h = h
  merge_entries-keeps model p ((name, e) ∷ catalog) m h =
      let kept =
        put_alias-keeps model p (alias_of (cut b'/' name)) e (put fl name e m)
          (put-keeps model p name e m h) in
      merge_entries-keeps model p catalog _ (ground arith)

  -- A price that is in the shared store stays what it is, however often and in whatever order the
  -- model catalog and the price catalog are merged into it.
  pub Grown-get_price :
      (model : Text) (p : Price F) (start ps : PriceStore F)
      → Grown start ps
      → get_price model start ≡ some p
      → get_price model ps ≡ some p
  unfolding merge Catalog.merge
  Grown-get_price model p start _ unchanged h = h
  Grown-get_price model p start _ (by_catalog models s ps g) h =
      merge_models-keeps model p models ps (Grown-get_price model p start ps g h)
  Grown-get_price model p start _ (by_pricing entries s g) h =
      merge_entries-keeps model p entries _ (Grown-get_price model p start s.prices g h)

  -- The names that `Merge` has seen have prices.
  Priced : Merging F → Type 0
  Priced m =
      (name : Text) → any (text_eq name) m.seen ≡ true → is_some (get_price name m.prices) ≡ true

  put-fills :
      (name : Text) (e : LitellmEntry F) (m : Merging F)
      → Priced m
      → is_some (get_price name (put fl name e m).prices) ≡ true
  unfolding put get_price has_price set_price Priced
  put-fills name e m h =
      let seen = h name in
      ground (arith, lookup-insert name name (price_of fl e) m.prices, text_eq_iff name name)

  put-Priced :
      (name : Text) (e : LitellmEntry F) (m : Merging F) → Priced m → Priced (put fl name e m)
  unfolding put get_price has_price set_price Priced
  put-Priced name e m h other =
      let seen = h other in
      ground (
        arith,
        lookup-insert name other (price_of fl e) m.prices,
        text_eq_iff name other,
        text_eq_iff other name,
      )

  put_alias-Priced :
      (alias : Option Text) (e : LitellmEntry F) (m : Merging F)
      → Priced m
      → Priced (put_alias fl alias e m)
  put_alias-Priced none e m h = h
  put_alias-Priced (some name) e m h = put-Priced name e m h

  -- Every row but the sample has a price.
  abbrev pub all_priced : List (Text × LitellmEntry F) → PriceStore F → Bool
  all_priced catalog ps =
      all (λ row. text_eq row.0 (codes "sample_spec") || is_some (get_price row.0 ps)) catalog

  merge_entries-keeps_some :
      (model : Text) (catalog : List (Text × LitellmEntry F)) (m : Merging F)
      → is_some (get_price model m.prices) ≡ true
      → is_some (get_price model (merge_entries fl catalog m).prices) ≡ true
  merge_entries-keeps_some model catalog m h = elim (Option-cases (get_price model m.prices)) [
    | inl nothing ↦ ground arith
    | inr (p, found) ↦ let kept = merge_entries-keeps model p catalog m found in ground arith
  ]

  put_alias-keeps_some :
      (model : Text) (alias : Option Text) (e : LitellmEntry F) (m : Merging F)
      → is_some (get_price model m.prices) ≡ true
      → is_some (get_price model (put_alias fl alias e m).prices) ≡ true
  put_alias-keeps_some model alias e m h = elim (Option-cases (get_price model m.prices)) [
    | inl nothing ↦ ground arith
    | inr (p, found) ↦ let kept = put_alias-keeps model p alias e m found in ground arith
  ]

  merge_entries-all_priced :
      (catalog : List (Text × LitellmEntry F)) (m : Merging F)
      → Priced m
      → all_priced catalog (merge_entries fl catalog m).prices ≡ true
  unfolding merge_entries
  merge_entries-all_priced [] m h = refl
  merge_entries-all_priced ((name, e) ∷ catalog) m h =
      let alias = alias_of (cut b'/' name) in
      let m₁ = put fl name e m in
      let m₂ = put_alias fl alias e m₁ in
      elim (Bool-cases (text_eq name (codes "sample_spec"))) [
        | inl sample ↦ let rest = merge_entries-all_priced catalog m h in ground arith
        | inr row ↦
            let rest =
              merge_entries-all_priced catalog m₂
                (put_alias-Priced alias e m₁ (put-Priced name e m h)) in
            let here =
              merge_entries-keeps_some name catalog m₂
                (put_alias-keeps_some name alias e m₁ (put-fills name e m h)) in
            ground arith
      ]

  -- After a merge every row of the catalog but `sample_spec` has a price in the store, and the models
  -- of the last fetch are counted; a fetch that fails leaves the store and the count as they were.
  pub fetch_once-all_priced :
      (rs : List (Text × Option (LitellmEntry F))) (reason : Text) (s : Syncer F)
      → (all_priced (decoded fl rs) (fetch_once fl (rows rs) s).0.prices ≡ true)
        × (count (fetch_once fl (rows rs) s).0 ≡ length (decoded fl rs))
        × (fetch_once fl (failed reason) s ≡ (s, some reason))
  unfolding fetch_once merge count Priced
  fetch_once-all_priced rs reason s =
      (merge_entries-all_priced (decoded fl rs) _ (λ name absent. ground arith), refl, refl)
