-- ===== src/Pricing/Expr.antt =====
-- internal/pricing/expr.go. Compiling an expression, with the identifiers in its tree, and running it
-- are the library's for expressions, and parameters.
use token_route.Base.{
  ℕ, Bool, ◌||◌, any, Option, none, some, List, [], ◌++◌, length, leb, if◌then◌else◌,
}
use token_route.Base.Int.{pos}
use token_route.Base.Text.{Text, codes, text_eq}
use token_route.Base.Dict.{lookup, insert, text_key}
use token_route.Base.Float.{Float64}

-- `Env`
pub record Env (F : Type 0) : Type 0 where
  pub p : F
  pub c : F
  pub len : F
  pub cr : F
  pub cc : F
  pub cc1h : F
  pub img : F
  pub ai : F
  pub ao : F
  pub tier : Text

-- `tier`
unfoldable pub set_tier : {F : Type 0} → Text → F → Env F → Env F × F
set_tier name cost e = (record e { tier = name }, cost)

abbrev pub cache_size : ℕ
cache_size = 256

-- `cachedExpr`
pub record CachedExpr (Program : Type 0) : Type 0 where
  pub prog : Program
  pub used_vars : List Text

-- A compiled expression, or the message of an error.
pub data Compiled (Program : Type 0) : Type 0 where
  done : CachedExpr Program → Compiled Program
  refused : Text → Compiled Program

module _ {Program : Type 0} (expr_compile : Text → Compiled Program) where
  abbrev pub Cache : Type 0
  Cache = List (Text × CachedExpr Program)

  -- `if len(cache) >= cacheSize { cache = map[string]*cachedExpr{} }`
  abbrev pub room : Cache → Cache
  room cache = if leb cache_size (length cache) then [] else cache

  abbrev pub keep_compiled : Text → Compiled Program → Cache → Cache × Compiled Program
  keep_compiled expression (refused err) cache = (cache, refused (codes "pricing expr: " ++ err))
  keep_compiled expression (done ce) cache = (insert expression ce (room cache), done ce)

  abbrev pub compile_with : Text → Option (CachedExpr Program) → Cache → Cache × Compiled Program
  compile_with expression (some ce) cache = (cache, done ce)
  compile_with expression none cache = keep_compiled expression (expr_compile expression) cache

  -- `Compile`
  unfoldable pub compile : Text → Cache → Cache × Compiled Program
  compile expression cache = compile_with expression (lookup expression cache) cache

module _ (fl : Float64) where
  open fl use {F, of_int, add, sub, div, lt, eq}

  -- What running a program gives: the library's error, a value that is no float64, or a value and the
  -- tier that the program named.
  pub data Ran : Type 0 where
    run_error not_float : Ran
    value : F → Text → Ran

  -- `Eval`
  unfoldable pub eval :
      {Program : Type 0} → (Program → Env F → Ran) → Program → Env F → Option (F × Text)
  eval run prog e = elim (run prog e) [
    | value out tier ↦ some (div out (of_int (pos 1000000)), tier)
    | _ ↦ none
  ]

  -- The closure `sub` of `Normalize`.
  unfoldable pub sub_from : F → F → F
  sub_from from v = if lt (sub from v) (of_int (pos 0)) then of_int (pos 0) else sub from v

  abbrev pub sub_if : Bool → F → F → F
  sub_if used from v = if used then sub_from from v else from

  abbrev pub uses : List Text → Text → Bool
  uses vars name = any (text_eq name) vars

  -- `Normalize`
  unfoldable pub normalize : Env F → List Text → Bool → Env F
  unfolding sub_from
  normalize e vars anthropic =
      let p₁ = sub_if (uses vars (codes "cr")) e.p e.cr in
      let p₂ = sub_if (uses vars (codes "cc") || uses vars (codes "cc1h")) p₁ e.cc in
      let p₃ = sub_if (uses vars (codes "img")) p₂ e.img in
      let p₄ = sub_if (uses vars (codes "ai")) p₃ e.ai in
      let c₁ = sub_if (uses vars (codes "ao")) e.c e.ao in
      let len₁ = if eq e.len (of_int (pos 0)) then p₄ else e.len in
      if anthropic
      then record e { len = add (add e.p e.cr) e.cc }
      else record e { p = p₄; c = c₁; len = len₁ }
