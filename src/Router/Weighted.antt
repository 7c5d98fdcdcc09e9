-- ===== src/Router/Weighted.antt =====
-- internal/router/router.go: what a weighted draw chooses.
use token_route.Base.{
  ℕ, ◌≡◌, refl, true, false, some, List, [], ◌∷◌, ◌++◌, arith, ltb, if◌then◌else◌, length,
  length-append, All, ap,
}
use token_route.Base.Int.{ℤ, pos, pos_part, ltb_ℤ, ◌+ℤ◌, ◌-ℤ◌}
use token_route.Base.Sort.{pull, move_front, behind}
use token_route.Router.Defs.{Candidate}
use token_route.Router.Orders.{total_weight, pick_weighted, by_weight}

-- Every candidate has a weight of at least 1, as `New` provides.
abbrev pub IsWeighted : List Candidate → Type 0
IsWeighted cs = All (λ c. ltb_ℤ (pos 0) c.weight ≡ true) cs

positive : (w : ℤ) → ltb_ℤ (pos 0) w ≡ true → w ≡ pos (pos_part w)
positive w h = ground arith

total_weight_positive :
    (cs : List Candidate) → IsWeighted cs → total_weight cs ≡ pos (pos_part (total_weight cs))
unfolding total_weight
total_weight_positive [] h = refl
total_weight_positive (c ∷ cs) h =
    ground (arith, positive c.weight h.0, total_weight_positive cs h.1)

after_first :
    (w t : ℤ) (m : ℕ)
    → w ≡ pos (pos_part w)
    → t ≡ pos (pos_part t)
    → ((w +ℤ t) +ℤ pos m) -ℤ w ≡ t +ℤ pos m
after_first w t m h k = ground arith

not_negative : (t : ℤ) (m : ℕ) → t ≡ pos (pos_part t) → ltb_ℤ (t +ℤ pos m) (pos 0) ≡ false
not_negative t m h = ground arith

pick_weighted-append :
    (before after : List Candidate) (c : Candidate) (m : ℕ)
    → IsWeighted before
    → ltb_ℤ (pos m) c.weight ≡ true
    → pick_weighted (total_weight before +ℤ pos m) (before ++ (c ∷ after)) ≡ some (length before)
unfolding total_weight pick_weighted
pick_weighted-append [] after c m h k = ground arith
pick_weighted-append (b ∷ before) after c m h k =
    let t = total_weight_positive before h.1 in
    rw
      (
        after_first b.weight (total_weight before) m (positive b.weight h.0) t,
        not_negative (total_weight before) m t,
        pick_weighted-append before after c m h.1 k,
      )
      (ground arith)

pull-append :
    (before after : List Candidate) (c : Candidate)
    → pull (length before) (before ++ (c ∷ after)) ≡ some (c, before ++ after)
unfolding pull
pull-append [] after c = refl
pull-append (b ∷ before) after c = ap (behind b) (pull-append before after c)

-- In a list of one, the pick is first already.
alone :
    (before after : List Candidate) (c : Candidate)
    → (if ltb 1 (length (before ++ (c ∷ after)))
        then c ∷ (before ++ after)
        else before ++ (c ∷ after))
      ≡ c ∷ (before ++ after)
alone [] after c = ground arith
alone (b ∷ before) after c = ground (arith, length-append before (c ∷ after))

-- Each candidate owns an interval of the draws as long as its weight: a draw that exceeds the weights
-- of the candidates before it, each of them at least 1, by some m below its own weight puts it first
-- and leaves the others in their order.
pub by_weight_intervals :
    (before after : List Candidate) (c : Candidate) (m : ℕ)
    → IsWeighted before
    → ltb_ℤ (pos m) c.weight ≡ true
    → by_weight (total_weight before +ℤ pos m) (before ++ (c ∷ after)) ≡ c ∷ (before ++ after)
unfolding by_weight move_front
by_weight_intervals before after c m h k =
    rw (pick_weighted-append before after c m h k, pull-append before after c)
      (alone before after c)
