-- ===== src/Config/Parts.antt =====
-- internal/config/config.go: the checks on candidates, judges and probes accept what is sound.
use token_route.Base.{
  Option-cases, not, ◌≡◌, inl, inr, refl, Option, none, some, List, [], ◌∷◌, arith,
}
use token_route.Base.Text.{Text, codes, text_eq_iff}
use token_route.Base.Float.{Float64}
use token_route.Config.Types.{BalanceProbeConfig, CandidateConfig, FusionJudgeConfig}
use token_route.Config.Check.{
  has, judge_provider, unknown_judge, check_judge, check_fusion_judge, check_candidate, check_probe,
}
use token_route.Config.Steps.{⨾-none, ⨾_none, peel, unpeel, refuse_if-none}
use token_route.Config.Spec.{JudgeSound, JudgesSound, CandidateSound, ProbesSound}

pub check_candidate-Sound :
    (known : List Text) (route : Text) (c : CandidateConfig)
    → check_candidate known route c ≡ none
    → CandidateSound known c
unfolding check_candidate
check_candidate-Sound known route c h =
    let (a, h₁) = peel _ _ _ h in
    let (b, h₂) = peel _ _ _ h₁ in
    let d = (refuse_if-none _ _).0 h₂ in
    record {
      provider_known = ground arith;
      model_given = ground arith;
      weight_sound = ground arith;
    }

pub check_candidate_complete :
    (known : List Text) (route : Text) (c : CandidateConfig)
    → CandidateSound known c
    → check_candidate known route c ≡ none
unfolding check_candidate
check_candidate_complete known route c s =
    let a = s.provider_known in
    let b = s.model_given in
    let d = s.weight_sound in
    unpeel _ _ _ (ground arith)
      (unpeel _ _ _ (ground arith) ((refuse_if-none _ _).1 (ground arith)))

check_judge-Sound :
    (known : List Text) (route j : Text) → check_judge known route j ≡ none → JudgeSound known j
unfolding check_judge
check_judge-Sound known route [] h = inl refl
check_judge-Sound known route (c ∷ j) h = elim (Option-cases (judge_provider (c ∷ j))) [
  | inl nothing ↦ ground arith
  | inr (name, found) ↦
      inr (name, found, ground (arith, refuse_if-none (not (has known name)) (unknown_judge route)))
]

check_judge_complete :
    (known : List Text) (route j : Text) → JudgeSound known j → check_judge known route j ≡ none
unfolding check_judge
check_judge_complete known route [] s = refl
check_judge_complete known route (c ∷ j) (inl blank) = cc
check_judge_complete known route (c ∷ j) (inr (name, found, known_name)) =
    rw found ((refuse_if-none _ _).1 (ground arith))

pub check_fusion_judge-Sound :
    (known : List Text) (route strategy : Text) (f : Option FusionJudgeConfig)
    → check_fusion_judge known route strategy f ≡ none
    → JudgesSound known strategy f
unfolding check_fusion_judge
check_fusion_judge-Sound known route strategy none h = tt
check_fusion_judge-Sound known route strategy (some f) h =
    let (a, h₁) = peel _ _ _ h in
    let (b, h₂) = ⨾-none _ _ h₁ in
    let d = (refuse_if-none _ _).0 h₂ in
    record {
      used = ground (arith, text_eq_iff strategy (codes "fusion_judge"));
      judge_sound = check_judge-Sound known route f.judge b;
      panel_sound = ground arith;
      grace_sound = ground arith;
      timeout_sound = ground arith;
    }

pub check_fusion_judge_complete :
    (known : List Text) (route strategy : Text) (f : Option FusionJudgeConfig)
    → JudgesSound known strategy f
    → check_fusion_judge known route strategy f ≡ none
unfolding check_fusion_judge
check_fusion_judge_complete known route strategy none s = refl
check_fusion_judge_complete known route strategy (some f) s =
    let a = s.used in
    let b = s.panel_sound in
    let c = s.grace_sound in
    let d = s.timeout_sound in
    unpeel _ _ _ (ground (arith, text_eq_iff strategy (codes "fusion_judge"))) (
      ⨾_none _ _ (check_judge_complete known route f.judge s.judge_sound)
        ((refuse_if-none _ _).1 (ground arith)))

module _ (fl : Float64) where
  open fl use {F, of_int, lt}

  pub check_probe-Sound :
      (name : Text) (bp : Option (BalanceProbeConfig F))
      → check_probe fl name bp ≡ none
      → ProbesSound fl bp
  unfolding check_probe
  check_probe-Sound name none h = tt
  check_probe-Sound name (some bp) h =
      let (a, h₁) = peel _ _ _ h in
      let b = (refuse_if-none _ _).0 h₁ in
      record {
        url_given = ground arith;
        interval_sound = ground arith;
        minimum_sound = ground arith;
      }

  pub check_probe_complete :
      (name : Text) (bp : Option (BalanceProbeConfig F))
      → ProbesSound fl bp
      → check_probe fl name bp ≡ none
  unfolding check_probe
  check_probe_complete name none s = refl
  check_probe_complete name (some bp) s =
      let a = s.url_given in
      let b = s.interval_sound in
      let c = s.minimum_sound in unpeel _ _ _ (ground arith) ((refuse_if-none _ _).1 (ground arith))
