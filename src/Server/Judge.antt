-- ===== src/Server/Judge.antt =====
-- internal/server/fusionjudge.go: the knobs of the judge, the collection of the panel's answers and the
-- choice of the judge. The panel's goroutines are the order in which their results arrive, between
-- which the grace period or the deadline may end.
use token_route.Base.{
  ℕ, ◌+◌, Bool, true, false, ◌&&◌, ◌||◌, Option, none, some, List, [], ◌∷◌, ◌++◌, ◌==◌, length,
  if◌then◌else◌,
}
use token_route.Base.Int.{ℤ, pos, leb_ℤ, ltb_ℤ}
use token_route.Base.Text.{Text, text_eq, cut}
use token_route.Base.Time.{Duration, of_millis}
use token_route.RetryPolicy.Defs.{is_blank}
use token_route.Router.Defs.{Provider, Candidate}

-- `FusionJudge`
pub record FusionJudge : Type 0 where
  pub judge : Text
  pub min_panel : ℤ
  pub grace_ms : ℤ
  pub timeout_ms : ℤ

pub record Knobs : Type 0 where
  pub min_panel : ℤ
  pub grace : Duration
  pub timeout : Duration

abbrev pub positive_or_default : ℤ → ℕ → ℤ
positive_or_default n default = if leb_ℤ n (pos 0) then pos default else n

-- `resolve`
unfoldable pub resolve : FusionJudge → ℕ → Knobs
resolve cfg panel_size =
    let wanted = positive_or_default cfg.min_panel 2 in
    record {
      min_panel = if ltb_ℤ (pos panel_size) wanted then pos panel_size else wanted;
      grace = of_millis (positive_or_default cfg.grace_ms 1500);
      timeout = of_millis (positive_or_default cfg.timeout_ms 60000);
    }

-- What the loop of `runPanel` selects.
pub data Event (Answer Reply Error : Type 0) : Type 0 where
  answered : Answer → Event Answer Reply Error
  refused : Reply → Event Answer Reply Error
  broken : Error → Event Answer Reply Error
  grace_over deadline : Event Answer Reply Error

pub record Collected (Answer Reply Error : Type 0) : Type 0 where
  pub answers : List Answer
  pub fails : List Reply
  pub errs : List Error
  pub in_grace : Bool

module _ {Answer Reply Error : Type 0} where
  abbrev pub nothing_yet : Collected Answer Reply Error
  nothing_yet = record { answers = []; fails = []; errs = []; in_grace = false }

  abbrev pub landed : Collected Answer Reply Error → ℕ
  landed c = length c.answers + length c.fails + length c.errs

  abbrev pub quorum : ℤ → Collected Answer Reply Error → Collected Answer Reply Error
  quorum min_panel c =
      if leb_ℤ min_panel (pos (length c.answers)) then record c { in_grace = true } else c

  -- The loop of `runPanel`; the channel is closed after the last result. The timer of the grace period
  -- is nil before the quorum.
  unfoldable pub run_panel :
      ℕ
      → ℤ
      → List (Event Answer Reply Error)
      → Collected Answer Reply Error
      → Collected Answer Reply Error
  run_panel panel_size min_panel [] c = c
  run_panel panel_size min_panel (answered a ∷ events) c =
      let next = quorum min_panel (record c { answers = c.answers ++ (a ∷ []) }) in
      let rest = run_panel panel_size min_panel events next in
      if landed next == panel_size then next else rest
  run_panel panel_size min_panel (refused reply ∷ events) c =
      let next = quorum min_panel (record c { fails = c.fails ++ (reply ∷ []) }) in
      let rest = run_panel panel_size min_panel events next in
      if landed next == panel_size then next else rest
  run_panel panel_size min_panel (broken e ∷ events) c =
      let next = quorum min_panel (record c { errs = c.errs ++ (e ∷ []) }) in
      let rest = run_panel panel_size min_panel events next in
      if landed next == panel_size then next else rest
  run_panel panel_size min_panel (grace_over ∷ events) c =
      let rest = run_panel panel_size min_panel events c in if c.in_grace then c else rest
  run_panel panel_size min_panel (deadline ∷ events) c = c

-- `resolveJudge`
unfoldable pub find_panelist : Text → Text → List Candidate → Option Candidate
find_panelist name model [] = none
find_panelist name model (c ∷ cs) =
    let rest = find_panelist name model cs in
    if text_eq c.provider.name name && text_eq c.model model then some c else rest

unfoldable pub find_provider : Text → List Provider → Option Provider
find_provider name [] = none
find_provider name (p ∷ ps) =
    let rest = find_provider name ps in if text_eq p.name name then some p else rest

abbrev pub outside : Text → Option Provider → Candidate → Candidate
outside model none first = first
outside model (some p) first = record {
  provider = p;
  model = model;
  weight = pos 0;
  groups = [];
  tags = [];
}

abbrev pub panelist_or : Option Candidate → Candidate → Candidate
panelist_or none other = other
panelist_or (some c) other = c

abbrev pub judge_for : Text × Option Text → Candidate → List Candidate → List Provider → Candidate
judge_for (name, none) first others providers = first
judge_for (name, some model) first others providers =
    if is_blank name || is_blank model
    then first
    else panelist_or (find_panelist name model (first ∷ others))
        (outside model (find_provider name providers) first)

-- The panel is not empty: `first` stands for `panel[0]`.
unfoldable pub resolve_judge : Text → Candidate → List Candidate → List Provider → Candidate
unfolding find_panelist find_provider
resolve_judge spec first others providers = judge_for (cut b'/' spec) first others providers
