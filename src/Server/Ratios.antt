-- ===== src/Server/Ratios.antt =====
-- internal/server/server.go: the ratios of the groups that a key and a candidate share.
use token_route.Base.{
  ◌≡◌, refl, ◌∙◌, Bool, true, false, Option, none, some, List, [], ◌∷◌, arith, if◌then◌else◌,
}
use token_route.Base.Int.{pos}
use token_route.Base.Text.{Text, text_eq_iff}
use token_route.Base.Dict.{lookup, text_key}
use token_route.Base.Float.{Float64}
use token_route.Config.Check.{has}
use token_route.Config.Steps.{distinct}
use token_route.Server.Billing.{times_ratio, ratio_loop, group_loop, group_ratio_multiplier}

module _ (fl : Float64) where
  open fl use {F, of_int, mul}

  -- The ratios of the key's groups that the candidate has as well and that are configured.
  abbrev pub add_ratio : Bool → Option F → List F → List F
  add_ratio true (some r) rs = r ∷ rs
  add_ratio true none rs = rs
  add_ratio false o rs = rs

  abbrev pub shared_ratios : List (Text × F) → List Text → List Text → List F
  shared_ratios ratios [] cgs = []
  shared_ratios ratios (g ∷ gs) cgs =
      add_ratio (has cgs g) (lookup g ratios) (shared_ratios ratios gs cgs)

  -- A product from the left.
  abbrev pub product : F → List F → F
  product m [] = m
  product m (r ∷ rs) = product (mul m r) rs

  ratio_loop-absent :
      (ratios : List (Text × F)) (g : Text) (cgs : List Text) (m : F)
      → has cgs g ≡ false
      → ratio_loop fl ratios g cgs m ≡ m
  unfolding ratio_loop
  ratio_loop-absent ratios g [] m h = refl
  ratio_loop-absent ratios g (cg ∷ cgs) m h = ground (arith, ratio_loop-absent ratios g cgs m)

  ratio_loop-once :
      (ratios : List (Text × F)) (g : Text) (cgs : List Text) (m : F)
      → distinct cgs ≡ true
      → ratio_loop fl ratios g cgs m ≡ (if has cgs g then times_ratio fl m (lookup g ratios) else m)
  unfolding ratio_loop
  ratio_loop-once ratios g [] m h = refl
  ratio_loop-once ratios g (cg ∷ cgs) m h = ground (
    arith,
    ratio_loop-once ratios g cgs m,
    ratio_loop-absent ratios g cgs (times_ratio fl m (lookup g ratios)),
    text_eq_iff g cg,
  )

  product-add_ratio :
      (b : Bool) (o : Option F) (m : F) (rs : List F)
      → product (if b then times_ratio fl m o else m) rs ≡ product m (add_ratio b o rs)
  product-add_ratio true none m rs = refl
  product-add_ratio true (some r) m rs = refl
  product-add_ratio false o m rs = refl

  group_loop-product :
      (ratios : List (Text × F)) (gs cgs : List Text) (m : F)
      → distinct cgs ≡ true
      → group_loop fl ratios gs cgs m ≡ product m (shared_ratios ratios gs cgs)
  unfolding group_loop
  group_loop-product ratios [] cgs m h = refl
  group_loop-product ratios (g ∷ gs) cgs m h =
      group_loop-product ratios gs cgs (ratio_loop fl ratios g cgs m) h
      ∙ (rw (ratio_loop-once ratios g cgs m h)
          (product-add_ratio (has cgs g) (lookup g ratios) m (shared_ratios ratios gs cgs)))

  -- For a candidate that lists each of its groups once, the multiplier is the product, from the left
  -- and starting at 1, of the configured ratios of those groups of the key that the candidate has.
  pub group_ratio_multiplier-product :
      (ratios : List (Text × F)) (key_groups cand_groups : List Text)
      → distinct cand_groups ≡ true
      → group_ratio_multiplier fl ratios key_groups cand_groups
        ≡ product (of_int (pos 1)) (shared_ratios ratios key_groups cand_groups)
  unfolding group_ratio_multiplier
  group_ratio_multiplier-product ratios key_groups cand_groups h =
      group_loop-product ratios key_groups cand_groups (of_int (pos 1)) h
