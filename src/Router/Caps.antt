-- ===== src/Router/Caps.antt =====
-- internal/router/capabilities.go: candidates that accept the media of a request go first. What the
-- model catalog knows is the router's `modalities`; `lower` is the case folding of a code point.
use token_route.Base.{
  ℕ, Bool, true, false, ◌&&◌, ◌||◌, not, Option, none, some, List, [], ◌∷◌, map, any, length, ltb,
  if◌then◌else◌,
}
use token_route.Base.Text.{Text, text_eq}
use token_route.Base.Sort.{sort_by}
use token_route.Tags.Defs.{is_nil}
use token_route.Router.Defs.{Router, Candidate}

module _ (lower : ℕ → ℕ) where
  -- `strings.EqualFold`
  abbrev equal_fold : Text → Text → Bool
  equal_fold s t = text_eq (map lower s) (map lower t)

  -- The loops of `coversModalities`.
  unfoldable pub all_supported : List Text → List Text → Bool
  all_supported supported [] = true
  all_supported supported (need ∷ required) =
      if any (λ have. equal_fold have need) supported
      then all_supported supported required
      else false

  abbrev pub known_covers : List Text → Option (List Text) → Bool
  known_covers required none = false
  known_covers required (some supported) = all_supported supported required

  abbrev pub covers_with : Option (Text → Option (List Text)) → Text → List Text → Bool
  covers_with none model required = true
  covers_with (some modalities) model required = known_covers required (modalities model)

  -- `coversModalities`
  unfoldable pub covers_modalities : {F : Type 0} → Router F → List Text → Text → Bool
  unfolding all_supported
  covers_modalities r required model =
      if is_nil required then true else covers_with r.modalities model required

  abbrev pub has_lookup : Option (Text → Option (List Text)) → Bool
  has_lookup none = false
  has_lookup (some f) = true

  -- The test of the stable sort.
  abbrev pub better_covered : {F : Type 0} → Router F → List Text → Candidate → Candidate → Bool
  better_covered r required a b =
      covers_modalities r required a.model && not (covers_modalities r required b.model)

  -- `reorderByModalities`
  unfoldable pub reorder_by_modalities :
      {F : Type 0} → Router F → List Text → List Candidate → List Candidate
  reorder_by_modalities r required cs =
      if is_nil required || ltb (length cs) 2 || not (has_lookup r.modalities)
      then cs
      else sort_by (better_covered r required) cs
