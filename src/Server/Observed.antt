-- ===== src/Server/Observed.antt =====
-- internal/server/server.go: `observe` over a list of instants keeps the earliest one to come.
use token_route.Base.{
  ◌≡◌, refl, arith, Bool, true, ◌||◌, ◌&&◌, not, any, all, List, [], ◌∷◌, ◌++◌, leb, ◌==◌,
}
use token_route.Base.Time.{Instant, is_zero, after}
use token_route.Server.Hints.{ResetHint, ResetSource, observe, observe_all}

-- An instant that counts: one in the future.
abbrev pub is_future : Instant → Instant × ResetSource → Bool
is_future now x = not (is_zero x.0) && after x.0 now

-- The hint is no later than an instant that counts.
abbrev pub bounds : Instant → ResetHint → Instant × ResetSource → Bool
bounds now h x = not (is_future now x) || (not (is_zero h.at) && leb h.at x.0)

-- The hint is unset, or one of the instants that count.
abbrev pub occurs : Instant → ResetHint → List (Instant × ResetSource) → Bool
occurs now h xs = is_zero h.at || any (λ x. is_future now x && (x.0 == h.at)) xs

module _ (now : Instant) where
  pub observe-bounds :
      (h : ResetHint) (x : Instant × ResetSource) → bounds now (observe now h x) x ≡ true
  unfolding observe
  observe-bounds h (at, why) = ground arith

  pub observe-kept :
      (h : ResetHint) (x y : Instant × ResetSource)
      → bounds now h y ≡ true
      → bounds now (observe now h x) y ≡ true
  unfolding observe
  observe-kept h (at, why) (at', why') e = ground arith

  pub observe_all-kept :
      (xs : List (Instant × ResetSource)) (h : ResetHint) (y : Instant × ResetSource)
      → bounds now h y ≡ true
      → bounds now (observe_all now h xs) y ≡ true
  unfolding observe_all
  observe_all-kept [] h y e = e
  observe_all-kept (x ∷ xs) h y e = observe_all-kept xs (observe now h x) y (observe-kept h x y e)

  pub observe_all-bounds :
      (xs : List (Instant × ResetSource)) (h : ResetHint)
      → all (bounds now (observe_all now h xs)) xs ≡ true
  unfolding observe_all
  observe_all-bounds [] h = refl
  observe_all-bounds (x ∷ xs) h =
      let first = observe_all-kept xs (observe now h x) x (observe-bounds h x) in
      let rest = observe_all-bounds xs (observe now h x) in ground arith

  pub observe-occurs :
      (h : ResetHint) (x : Instant × ResetSource)
      → ((observe now h x).at == h.at) || (is_future now x && (x.0 == (observe now h x).at)) ≡ true
  unfolding observe
  observe-occurs h (at, why) = ground arith

  pub observe_all-occurs :
      (xs : List (Instant × ResetSource)) (h : ResetHint)
      → ((observe_all now h xs).at == h.at)
          || any (λ x. is_future now x && (x.0 == (observe_all now h xs).at)) xs
        ≡ true
  unfolding observe_all
  observe_all-occurs [] h = ground arith
  observe_all-occurs (x ∷ xs) h =
      let first = observe-occurs h x in
      let rest = observe_all-occurs xs (observe now h x) in ground arith

  pub observe_all-append :
      (xs ys : List (Instant × ResetSource)) (h : ResetHint)
      → observe_all now h (xs ++ ys) ≡ observe_all now (observe_all now h xs) ys
  unfolding observe_all
  observe_all-append [] ys h = refl
  observe_all-append (x ∷ xs) ys h = observe_all-append xs ys (observe now h x)

  pub observe-zero : (h : ResetHint) (why : ResetSource) → observe now h (0, why) ≡ h
  unfolding observe
  observe-zero h why = refl
