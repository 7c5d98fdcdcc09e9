-- ===== src/Pricing/Compiled.antt =====
-- internal/pricing/expr.go: the cache of compiled expressions is bounded and cannot be noticed.
use token_route.Base.{
  ◌+◌, ◌≤◌, ◌≡◌, refl, ◌⊎◌, ◌++◌, Option, none, some, Option-cases, inl, inr, List, [], ◌∷◌, length,
  arith,
}
use token_route.Base.Text.{Text, codes, text_eq_iff}
use token_route.Base.Dict.{lookup, insert, text_key, lookup-insert}
use token_route.Pricing.Expr.{
  CachedExpr, Compiled, done, refused, Cache, cache_size, compile, compile_with, room,
}

length-insert :
    {V : Type 0} (k : Text) (v : V) (m : List (Text × V)) → length (insert k v m) ≤ length m + 1
unfolding insert
length-insert k v [] = ground arith
length-insert k v ((j, w) ∷ m) = ground (arith, length-insert k v m)

module _ {Program : Type 0} where
  -- What the compiler says of an expression, its error with the prefix of the package.
  abbrev pub prefixed : Compiled Program → Compiled Program
  prefixed (done ce) = done ce
  prefixed (refused message) = refused (codes "pricing expr: " ++ message)

  Compiled-cases :
      (x : Compiled Program)
      → ((message : Text) × (x ≡ refused message)) ⊎ ((ce : CachedExpr Program) × (x ≡ done ce))
  Compiled-cases (done ce) = inr (ce, refl)
  Compiled-cases (refused message) = inl (message, refl)

module _ {Program : Type 0} (expr_compile : Text → Compiled Program) where
  -- A cache holds what the compiler gave, and at most 256 of it.
  record IsCoherent (cache : Cache expr_compile) : Type 0 where
    bounded : length cache ≤ cache_size
    compiled :
        (e : Text) (ce : CachedExpr Program) → lookup e cache ≡ some ce → expr_compile e ≡ done ce

  -- The cache after some expressions have been compiled.
  unfoldable pub run_compiles : List Text → Cache expr_compile → Cache expr_compile
  run_compiles [] cache = cache
  run_compiles (e ∷ es) cache = run_compiles es (compile expr_compile e cache).0

  insert-IsCoherent :
      (e : Text) (ce : CachedExpr Program) (cache : Cache expr_compile)
      → expr_compile e ≡ done ce
      → IsCoherent cache
      → IsCoherent (insert e ce (room expr_compile cache))
  unfolding lookup
  insert-IsCoherent e ce cache known h = record {
    bounded =
        let within = h.bounded in ground (arith, length-insert e ce cache, length-insert e ce []);
    compiled = λ other found there.
        let before = h.compiled other found in
        ground
          (arith, lookup-insert e other ce cache, lookup-insert e other ce [], text_eq_iff e other);
  }

  compile_with-IsCoherent :
      (e : Text) (found : Option (CachedExpr Program)) (cache : Cache expr_compile)
      → IsCoherent cache
      → IsCoherent (compile_with expr_compile e found cache).0
  compile_with-IsCoherent e (some ce) cache h = h
  compile_with-IsCoherent e none cache h = elim (Compiled-cases (expr_compile e)) [
    | inl (message, error) ↦ rw error h
    | inr (ce, known) ↦ rw known (insert-IsCoherent e ce cache known h)
  ]

  compile_with-agrees :
      (e : Text) (cache : Cache expr_compile)
      → IsCoherent cache
      → (compile_with expr_compile e (lookup e cache) cache).1 ≡ prefixed (expr_compile e)
  compile_with-agrees e cache h = elim (Option-cases (lookup e cache)) [
    | inr (ce, there) ↦ let known = h.compiled e ce there in ground arith
    | inl absent ↦ elim (Compiled-cases (expr_compile e)) [
      | inl (message, error) ↦ ground arith
      | inr (ce, known) ↦ ground arith
    ]
  ]

  run_compiles-IsCoherent :
      (es : List Text) (cache : Cache expr_compile)
      → IsCoherent cache
      → IsCoherent (run_compiles es cache)
  unfolding run_compiles compile
  run_compiles-IsCoherent [] cache h = h
  run_compiles-IsCoherent (e ∷ es) cache h =
      run_compiles-IsCoherent es _ (compile_with-IsCoherent e (lookup e cache) cache h)

  empty-IsCoherent : IsCoherent []
  unfolding lookup
  empty-IsCoherent = record { bounded = ground arith; compiled = λ e ce h. cc }

  -- Whatever expressions have been compiled since the start, the cache holds at most 256 of them, and
  -- compiling one more gives the program and the variables that the compiler itself gives, or its
  -- error behind the prefix "pricing expr: ".
  pub run_compiles-compile :
      (es : List Text) (e : Text)
      → (length (run_compiles es []) ≤ 256)
        × ((compile expr_compile e (run_compiles es [])).1 ≡ prefixed (expr_compile e))
  unfolding compile
  run_compiles-compile es e =
      let h = run_compiles-IsCoherent es [] empty-IsCoherent in
      (h.bounded, compile_with-agrees e (run_compiles es []) h)
