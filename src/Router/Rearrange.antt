-- ===== src/Router/Rearrange.antt =====
-- internal/router/router.go: a strategy loses no candidate, and the sorting ones sort.
use token_route.Base.{
  ℕ, Bool, true, false, Option, none, some, List, [], ◌∷◌, arith, ltb, if◌then◌else◌, length, map,
}
use token_route.Base.Int.{ℤ, pos, ltb_ℤ}
use token_route.Base.Text.{Text}
use token_route.Base.Float.{Float64}
use token_route.Base.Sort.{
  pull, cons_pulled, sort_by-perm, rotate-perm, pull-perm, move_front-perm, IsOrdered, IsWeakOrder,
  sort_by-IsOrdered,
}
use mathlib.Core.List.{Perm}
use mathlib.Core.List.Perm
use token_route.Router.Defs.{Candidate, Route, Window}
use token_route.Router.Orders.{
  by_headroom, by_lowest_usage, by_last_good, by_weight, by_two_choices, round_robin,
  by_connections, fewer_reqs, fewer_toks, index_of_provider, winner_first, two_first, to_front,
}

to_front-perm : (o : Option ℕ) (cs : List Candidate) → Perm (to_front o cs) cs
to_front-perm none cs = Perm.rfl
to_front-perm (some i) cs = move_front-perm i cs

pub by_last_good-perm : (name : Text) (cs : List Candidate) → Perm (by_last_good name cs) cs
unfolding by_last_good
by_last_good-perm [] cs = Perm.rfl
by_last_good-perm (c ∷ name) cs = to_front-perm (index_of_provider (c ∷ name) cs) cs

pub if-perm :
    (b : Bool) (xs ys cs : List Candidate)
    → Perm xs cs
    → Perm ys cs
    → Perm (if b then xs else ys) cs
if-perm true xs ys cs h k = h
if-perm false xs ys cs h k = k

pub by_weight-perm : (n : ℤ) (cs : List Candidate) → Perm (by_weight n cs) cs
unfolding by_weight
by_weight-perm n cs = if-perm (ltb 1 (length cs)) _ cs cs (move_front-perm _ cs) Perm.rfl

module _ (less : Candidate → Candidate → Bool) where
  winner_first-perm :
      (a : Candidate) (others : List Candidate) (o : Option (Candidate × List Candidate))
      → Perm (cons_pulled others o) others
      → Perm (winner_first less a others o) (a ∷ others)
  winner_first-perm a others none h = Perm.rfl
  winner_first-perm a others (some (b, rest)) h =
      if-perm (less b a) _ _ (a ∷ others) (Perm.trans (Perm.swap a b rest) (Perm.cons a h))
        (Perm.cons a h)

  pub two_first-perm :
      (j : ℕ) (cs : List Candidate) (o : Option (Candidate × List Candidate))
      → Perm (cons_pulled cs o) cs
      → Perm (two_first less j cs o) cs
  two_first-perm j cs none h = Perm.rfl
  two_first-perm j cs (some (a, others)) h =
      Perm.trans (winner_first-perm a others (pull j others) (pull-perm j others)) h

pub by_two_choices-perm :
    (windows : List (Text × Window)) (i j : ℕ) (cs : List Candidate)
    → Perm (by_two_choices windows i j cs) cs
unfolding by_two_choices
by_two_choices-perm windows i j cs =
    if-perm (ltb 1 (length cs)) _ cs cs
      (two_first-perm (fewer_reqs windows) j cs (pull i cs) (pull-perm i cs)) Perm.rfl

if-round_robin :
    (b : Bool) (x y : Route × List Candidate) (cs : List Candidate)
    → Perm (x.1) cs
    → Perm (y.1) cs
    → Perm ((if b then x else y).1) cs
if-round_robin true x y cs h k = h
if-round_robin false x y cs h k = k

pub round_robin-perm :
    (rt : Route) (allowed : List (ℕ × Candidate))
    → Perm ((round_robin rt allowed).1) (map (λ p. p.1) allowed)
unfolding round_robin
round_robin-perm rt allowed =
    let cs = map (λ p. p.1) allowed in
    if-round_robin (ltb 1 (length allowed)) _ _ cs
      (if-round_robin (ltb_ℤ (pos 1) rt.sticky) _ _ cs (rotate-perm _ cs) (rotate-perm _ cs))
      Perm.rfl

-- Whatever was drawn and counted, an ordering strategy returns the admitted candidates, each as often
-- as it was admitted: round robin, last known good, weighted, headroom, lowest usage, two choices
-- and least connections drop no fallback and add none.
pub strategies_keep_candidates :
    (fl : Float64) (rt : Route) (allowed : List (ℕ × Candidate)) (windows : List (Text × Window))
    (inflight : List (Text × ℕ)) (name : Text) (draw : ℤ) (i j : ℕ)
    → let cs = map (λ p. p.1) allowed in
      Perm ((round_robin rt allowed).1) cs
      × Perm (by_last_good name cs) cs
      × Perm (by_weight draw cs) cs
      × Perm (by_headroom windows cs) cs
      × Perm (by_lowest_usage windows cs) cs
      × Perm (by_two_choices windows i j cs) cs
      × Perm (by_connections fl inflight cs) cs
unfolding by_headroom by_lowest_usage by_connections
strategies_keep_candidates fl rt allowed windows inflight name draw i j =
    let cs = map (λ p. p.1) allowed in
    (
      round_robin-perm rt allowed,
      by_last_good-perm name cs,
      by_weight-perm draw cs,
      sort_by-perm _ cs,
      sort_by-perm _ cs,
      by_two_choices-perm windows i j cs,
      sort_by-perm _ cs,
    )

fewer_reqs-IsWeakOrder : (windows : List (Text × Window)) → IsWeakOrder (fewer_reqs windows)
fewer_reqs-IsWeakOrder windows = record {
  irrefl = λ a b h. ground arith;
  negative = λ a b c h k. ground arith;
}

fewer_toks-IsWeakOrder : (windows : List (Text × Window)) → IsWeakOrder (fewer_toks windows)
fewer_toks-IsWeakOrder windows = record {
  irrefl = λ a b h. ground arith;
  negative = λ a b c h k. ground arith;
}

-- Headroom puts the candidates in ascending order of their providers' requests in the window, lowest
-- usage in ascending order of their tokens: none is before a candidate with fewer.
pub headroom_and_usage_sort :
    (windows : List (Text × Window)) (cs : List Candidate)
    → IsOrdered (fewer_reqs windows) (by_headroom windows cs)
      × IsOrdered (fewer_toks windows) (by_lowest_usage windows cs)
unfolding by_headroom by_lowest_usage
headroom_and_usage_sort windows cs = (
  sort_by-IsOrdered _ (fewer_reqs-IsWeakOrder windows) cs,
  sort_by-IsOrdered _ (fewer_toks-IsWeakOrder windows) cs,
)
