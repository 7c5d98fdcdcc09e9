-- ===== src/Router/Orders.antt =====
-- internal/router/router.go: the orders that a strategy puts the admitted candidates in. What the
-- random source returns is an argument.
use token_route.Base.{
  ℕ, ◌+◌, ◌%◌, Bool, Option, none, some, List, [], ◌∷◌, ltb, leb, map, if◌then◌else◌, length,
}
use token_route.Base.Int.{ℤ, pos, leb_ℤ, ltb_ℤ, ◌+ℤ◌, ◌-ℤ◌}
use token_route.Base.Text.{Text, text_eq}
use token_route.Base.Dict.{lookup, text_key}
use token_route.Base.Float.{Float64}
use token_route.Base.Sort.{sort_by, rotate, pull, move_front}
use token_route.Router.Defs.{Candidate, Route, Window, sticky_next}
use token_route.Router.Lookups.{count_or_zero}

abbrev reqs_in : Option Window → ℕ
reqs_in none = 0
reqs_in (some w) = w.reqs

abbrev toks_in : Option Window → ℤ
toks_in none = pos 0
toks_in (some w) = w.toks

-- `counts[c.Provider.Name()]` and `toks[c.Provider.Name()]`
abbrev pub reqs_of : List (Text × Window) → Candidate → ℕ
reqs_of windows c = reqs_in (lookup c.provider.name windows)

abbrev pub toks_of : List (Text × Window) → Candidate → ℤ
toks_of windows c = toks_in (lookup c.provider.name windows)

abbrev pub fewer_reqs : List (Text × Window) → Candidate → Candidate → Bool
fewer_reqs windows a b = ltb (reqs_of windows a) (reqs_of windows b)

abbrev pub fewer_toks : List (Text × Window) → Candidate → Candidate → Bool
fewer_toks windows a b = ltb_ℤ (toks_of windows a) (toks_of windows b)

-- The case `StrategyHeadroom`
unfoldable pub by_headroom : List (Text × Window) → List Candidate → List Candidate
by_headroom windows cs = sort_by (fewer_reqs windows) cs

-- The case `StrategyLowestUsage`
unfoldable pub by_lowest_usage : List (Text × Window) → List Candidate → List Candidate
by_lowest_usage windows cs = sort_by (fewer_toks windows) cs

abbrev pub next_index : Option ℕ → Option ℕ
next_index none = none
next_index (some i) = some (i + 1)

-- The first candidate of a provider.
unfoldable pub index_of_provider : Text → List Candidate → Option ℕ
index_of_provider name [] = none
index_of_provider name (c ∷ cs) =
    let rest = next_index (index_of_provider name cs) in
    if text_eq c.provider.name name then some 0 else rest

abbrev pub to_front : Option ℕ → List Candidate → List Candidate
to_front none cs = cs
to_front (some i) cs = move_front i cs

-- The strategy `StrategyLKGP`; the empty name is no provider.
unfoldable pub by_last_good : Text → List Candidate → List Candidate
unfolding index_of_provider
by_last_good [] cs = cs
by_last_good (c ∷ name) cs = to_front (index_of_provider (c ∷ name) cs) cs

-- `total`
unfoldable pub total_weight : List Candidate → ℤ
total_weight [] = pos 0
total_weight (c ∷ cs) = c.weight +ℤ total_weight cs

-- The loop over the weights: the first candidate at which `n` becomes negative.
unfoldable pub pick_weighted : ℤ → List Candidate → Option ℕ
pick_weighted n [] = none
pick_weighted n (c ∷ cs) =
    let m = n -ℤ c.weight in
    let rest = next_index (pick_weighted m cs) in if ltb_ℤ m (pos 0) then some 0 else rest

-- The case `StrategyWeighted`, for the draw `n`.
unfoldable pub by_weight : ℤ → List Candidate → List Candidate
unfolding pick_weighted
by_weight n cs =
    if ltb 1 (length cs)
    then move_front (elim (pick_weighted n cs) [ none ↦ 0 | some i ↦ i ]) cs
    else cs

-- The lower of two, then the other, then the rest. A draw is an index of its list; for one that is
-- not, where Go would panic, the order stays.
abbrev pub winner_first :
    (Candidate → Candidate → Bool)
    → Candidate
    → List Candidate
    → Option (Candidate × List Candidate)
    → List Candidate
winner_first less a others none = a ∷ others
winner_first less a others (some (b, rest)) = if less b a then b ∷ a ∷ rest else a ∷ b ∷ rest

abbrev pub two_first :
    (Candidate → Candidate → Bool)
    → ℕ
    → List Candidate
    → Option (Candidate × List Candidate)
    → List Candidate
two_first less j cs none = cs
two_first less j cs (some (a, others)) = winner_first less a others (pull j others)

-- The case `StrategyP2C`, for the draws `i` and `j`. The candidate at `j`, raised by one from `i` on,
-- is the one at `j` in the list without the first.
unfoldable pub by_two_choices : List (Text × Window) → ℕ → ℕ → List Candidate → List Candidate
by_two_choices windows i j cs =
    if ltb 1 (length cs) then two_first (fewer_reqs windows) j cs (pull i cs) else cs

-- The loop over `origIdx`: the first admitted candidate at or after the cursor, or 0.
unfoldable pub survivor : ℕ → ℕ → List (ℕ × Candidate) → ℕ
survivor want i [] = 0
survivor want i ((orig, c) ∷ allowed) =
    let rest = survivor want (i + 1) allowed in if leb want orig then i else rest

-- The case `StrategyRoundRobin`. The counter of requests stays below 2 ^ 63.
unfoldable pub round_robin : Route → List (ℕ × Candidate) → Route × List Candidate
unfolding survivor sticky_next
round_robin rt allowed =
    let cs = map (λ p. p.1) allowed in
    let (rt', want) = sticky_next rt in
    if ltb 1 (length allowed)
    then (if ltb_ℤ (pos 1) rt.sticky
        then (rt', rotate (survivor want 0 allowed) cs)
        else (record rt { rr = rt.rr + 1 }, rotate (rt.rr % length allowed) cs))
    else (rt, cs)

module _ (fl : Float64) where
  open fl use {F, of_int, div, lt, add}

  -- `(inflight + 1) / weight`
  abbrev score : List (Text × ℕ) → Candidate → F
  score inflight c =
      let n = count_or_zero (lookup c.provider.name inflight) in
      div (of_int (pos (n + 1))) (of_int (if leb_ℤ c.weight (pos 0) then pos 1 else c.weight))

  abbrev pub less_loaded : List (Text × ℕ) → Candidate → Candidate → Bool
  less_loaded inflight a b = lt (score inflight a) (score inflight b)

  -- The case `StrategyLeastConn`
  unfoldable pub by_connections : List (Text × ℕ) → List Candidate → List Candidate
  by_connections inflight cs = sort_by (less_loaded inflight) cs
