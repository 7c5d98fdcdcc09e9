-- ===== src/Command/Restart.antt =====
-- cmd/tokenroute/reloader.go: what a reload refuses, and what only a restart changes.
use token_route.Base.{◌≡◌, refl, ◌∙◌, Option, none, some, List, [], ◌∷◌, inl, inr, ℕ, if◌then◌else◌}
use token_route.Prices.{is_some}
use token_route.Base.Text.{Text}
use token_route.Base.Float.{Float64}
use token_route.Catalog.{Api}
use token_route.Config.Types.{Config}
use token_route.Command.State.{ServerState, Result, ok, err}
use token_route.Command.Assemble.{build_state}
use token_route.Command.Outcomes.{Result-cases}
use token_route.Command.Reload.{
  Process, effective, overlay_restart_fields, swap, swapped, apply, validate_apply, refused_by,
}

module _ (fl : Float64) (lower : ℕ → ℕ) (disk : Text → Option Api) where
  open fl use {F}

  swapped-refused_by :
      (c : Config F) (r : Result (ServerState F)) (p : Process F)
      → (swapped fl lower disk c r p).1 ≡ refused_by fl lower disk r
  swapped-refused_by c (ok st) p = refl
  swapped-refused_by c (err e) p = refl

  -- `Apply` refuses a configuration exactly when `Validate` does, with the same error, and then leaves
  -- the process as it was; a configuration that is accepted becomes the active one, with the four
  -- bootstrap fields of the configuration before it when it comes from the admin API.
  pub apply-validate_apply :
      (c : Config F) (paths : Option (List Text)) (p : Process F)
      → ((apply fl lower disk c paths p).1 ≡ validate_apply fl lower disk c paths p)
        × ((apply fl lower disk c paths p).0 ≡ (
            if is_some (validate_apply fl lower disk c paths p)
            then p
            else (apply fl lower disk c paths p).0))
        × ((apply fl lower disk c paths p).0.active ≡ (
            if is_some (validate_apply fl lower disk c paths p)
            then p.active
            else effective c paths p.active))
  unfolding apply validate_apply swap
  apply-validate_apply c paths p =
      elim (Result-cases (build_state fl lower (effective c paths p.active) none)) [
        | inl (refused, fails) ↦ rw fails (refl, refl, refl)
        | inr (st, builds) ↦ rw builds (refl, refl, refl)
      ]

  -- Edits through the admin API, one after the other.
  unfoldable pub run_edits : List (Config F × List Text) → Process F → Process F
  run_edits [] p = p
  run_edits ((c, paths) ∷ edits) p = run_edits edits (apply fl lower disk c (some paths) p).0

  -- The fields that only a restart changes.
  abbrev pub bootstrap : Process F → Text × Text × Text × Text × Text
  bootstrap p =
      (p.active.listen, p.active.admin_listen, p.active.usage_db, p.active.admin_key, p.serving)

  apply-bootstrap :
      (c : Config F) (paths : List Text) (p : Process F)
      → bootstrap (apply fl lower disk c (some paths) p).0 ≡ bootstrap p
  unfolding apply effective overlay_restart_fields swap
  apply-bootstrap c paths p =
      elim (Result-cases (build_state fl lower (overlay_restart_fields c p.active) none)) [
        | inl (refused, fails) ↦ rw fails refl
        | inr (st, builds) ↦ rw builds refl
      ]

  -- No sequence of edits through the admin API changes the listen address, the admin listen address,
  -- the usage database or the admin key of the active configuration, or the address being served.
  pub run_edits-bootstrap :
      (edits : List (Config F × List Text)) (p : Process F)
      → bootstrap (run_edits edits p) ≡ bootstrap p
  unfolding run_edits
  run_edits-bootstrap [] p = refl
  run_edits-bootstrap ((c, paths) ∷ edits) p =
      run_edits-bootstrap edits _ ∙ apply-bootstrap c paths p
