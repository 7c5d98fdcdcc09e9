-- ===== src/Router/Sticky.antt =====
-- internal/router/router.go: the cursor of sticky round robin.
use token_route.Base.{ℕ, zero, suc, ◌%◌, ◌<◌, ◌≡◌, length}
use token_route.Base.Int.{pos}
use token_route.Router.Defs.{Route, sticky_next}

-- The route after `k` dispatches.
unfoldable pub run_sticky : ℕ → Route → Route
run_sticky zero rt = rt
run_sticky (suc k) rt = (sticky_next (run_sticky k rt)).0

-- The cursor after `q` full turns of `n` dispatches and `c` more.
record At (n len q c : ℕ) (rt : Route) : Type 0 where
  limit : rt.sticky ≡ pos n
  size : length rt.candidates ≡ len
  index : rt.sticky_idx ≡ q % len
  count : rt.sticky_count ≡ c

module _ (n len : ℕ) (p : 0 < len) (b : 0 < n) (rt : Route) (start : At n len 0 0 rt) where
  abbrev Later : ℕ → ℕ → ℕ → Type 0
  Later q c k = At n len q c (run_sticky k rt)
