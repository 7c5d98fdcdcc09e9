-- ===== src/Config/Routes.antt =====
-- internal/config/config.go: the checks on a route accept what is sound.
use token_route.Base.{
  ℕ, Bool, true, false, ◌&&◌, not, ◌≡◌, ◌≢◌, ◌↔◌, ◌⊎◌, none, List, [], ◌∷◌, arith, ltb, ◌≤◌,
}
use token_route.Base.Int.{ℤ, pos, ltb_ℤ, ◌≤ℤ◌}
use token_route.Base.Text.{Text, codes, text_eq, text_eq_iff, has_prefix}
use token_route.Base.Float.{Float64}
use token_route.RetryPolicy.Defs.{is_blank}
use token_route.Config.Types.{RouteConfig}
use token_route.Config.Check.{
  refuse_if, has, valid_strategy, check_candidate, check_route, unknown_fallback,
}
use token_route.Config.Steps.{
  ⨾-none, ⨾_none, peel, unpeel, refuse_if-none, check_all-All, All-check_all,
}
use token_route.Config.Spec.{RouteSound}
use token_route.Config.Parts.{
  check_candidate-Sound, check_candidate_complete, check_fusion_judge-Sound,
  check_fusion_judge_complete,
}

-- The conditions of the checks, without their order.
pub given_test : (s : Text) → (is_blank s ≡ false) ↔ (s ≢ [])
given_test [] = ground arith
given_test (c ∷ s) = ground arith

strategy_test :
    (s : Text)
    → (not (is_blank s) && not (valid_strategy s) ≡ false) ↔ ((s ≡ []) ⊎ (valid_strategy s ≡ true))
strategy_test s = ground arith

hash_test :
    (s : Text)
    → (not (is_blank s) && not (text_eq s (codes "key")) && not (has_prefix s (codes "header:"))
        ≡ false)
      ↔ ((s ≡ []) ⊎ ((s ≡ codes "key") ⊎ (has_prefix s (codes "header:") ≡ true)))
hash_test s = ground (arith, text_eq_iff s (codes "key"))

used_test : (s name : Text) (b : Bool) → (text_eq s name && b ≡ false) ↔ (s ≡ name → b ≡ false)
used_test s name b = ground (arith, text_eq_iff s name)

sticky_test : (n : ℤ) → (ltb_ℤ n (pos 0) ≡ false) ↔ (pos 0 ≤ℤ n)
sticky_test n = ground arith

sticky_used_test :
    (n : ℤ) (s : Text)
    → (ltb_ℤ (pos 1) n && not (text_eq s (codes "round_robin")) ≡ false)
      ↔ (pos 2 ≤ℤ n → s ≡ codes "round_robin")
sticky_used_test n s = ground (arith, text_eq_iff s (codes "round_robin"))

panel_test : (n : ℕ) → (ltb n 2 ≡ false) ↔ (2 ≤ n)
panel_test n = ground arith

known_test : (b : Bool) → (not b ≡ false) ↔ (b ≡ true)
known_test b = ground arith

module _ (fl : Float64) (known models : List Text) where
  open fl use {F}

  pub check_route-Sound :
      (r : RouteConfig F) → check_route fl known models r ≡ none → RouteSound fl known models r
  unfolding check_route
  check_route-Sound r h =
      let (a₁, h₁) = peel _ _ _ h in
      let (a₂, h₂) = peel _ _ _ h₁ in
      let (a₃, h₃) = peel _ _ _ h₂ in
      let (a₄, h₄) = peel _ _ _ h₃ in
      let (a₅, h₅) = peel _ _ _ h₄ in
      let (a₆, h₆) = peel _ _ _ h₅ in
      let (a₇, h₇) = ⨾-none _ _ h₆ in
      let (a₈, h₈) = peel _ _ _ h₇ in
      let (a₉, a₁₀) = ⨾-none _ _ h₈ in
      record {
        model_given = (given_test _).0 a₁;
        strategy_known = (strategy_test _).0 a₂;
        hash_on_sound = (hash_test _).0 a₃;
        hash_on_given = λ e. (given_test _).0 ((used_test _ _ _).0 a₄ e);
        sticky_sound = (sticky_test _).0 a₅;
        sticky_used = (sticky_used_test _ _).0 a₆;
        judge_sound = check_fusion_judge-Sound known r.model r.strategy r.fusion_judge a₇;
        panel_given = λ e. (panel_test _).0 ((used_test _ _ _).0 a₈ e);
        candidates_sound =
            check_all-All (check_candidate known r.model) (check_candidate-Sound known r.model)
              r.candidates a₉;
        fallbacks_known =
            check_all-All (λ fb. refuse_if (not (has models fb)) (unknown_fallback r.model))
              (λ fb k. (known_test _).0 ((refuse_if-none _ _).0 k)) r.fallback_routes a₁₀;
      }

  pub check_route_complete :
      (r : RouteConfig F) → RouteSound fl known models r → check_route fl known models r ≡ none
  unfolding check_route
  check_route_complete r s = unpeel _ _ _ ((given_test _).1 s.model_given) (
      unpeel _ _ _ ((strategy_test _).1 s.strategy_known) (
        unpeel _ _ _ ((hash_test _).1 s.hash_on_sound) (
          unpeel _ _ _ ((used_test _ _ _).1 (λ e. (given_test _).1 (s.hash_on_given e))) (
            unpeel _ _ _ ((sticky_test _).1 s.sticky_sound) (
              unpeel _ _ _ ((sticky_used_test _ _).1 s.sticky_used) (
                ⨾_none _ _
                  (check_fusion_judge_complete known r.model r.strategy r.fusion_judge
                    s.judge_sound)
                  (unpeel _ _ _ ((used_test _ _ _).1 (λ e. (panel_test _).1 (s.panel_given e))) (
                    ⨾_none _ _
                      (All-check_all (check_candidate known r.model)
                        (check_candidate_complete known r.model) r.candidates s.candidates_sound)
                      (All-check_all
                        (λ fb. refuse_if (not (has models fb)) (unknown_fallback r.model))
                        (λ fb k. (refuse_if-none _ _).1 ((known_test _).1 k)) r.fallback_routes
                        s.fallbacks_known)))))))))
