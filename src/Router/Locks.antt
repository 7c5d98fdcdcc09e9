-- ===== src/Router/Locks.antt =====
-- internal/router/router.go: the locks of single models.
use token_route.Base.{◌≡◌, arith, not, if◌then◌else◌}
use token_route.Base.Text.{Text}
use token_route.Base.Time.{Instant, Duration, add_time, after}
use token_route.Base.Dict.{text_key, lookup-insert, ◌==◌}
use token_route.Router.Defs.{Router}
use token_route.Router.Lookups.{lock_key, lock_model, is_model_locked}
use token_route.Router.Admission.{is_model_locked-held}

module _ {F : Type 0} where
  -- A lock holds up to and including its end, replaces an earlier lock of its model, and leaves the
  -- locks under other keys as they were.
  pub is_model_locked-lock_model :
      (now later : Instant) (provider model other_provider other : Text) (d : Duration)
      (r : Router F)
      → (is_model_locked later other_provider other (lock_model now provider model d r)).1 ≡ (
          if lock_key provider model == lock_key other_provider other
          then not (after later (add_time now d))
          else (is_model_locked later other_provider other r).1)
  unfolding lock_model
  is_model_locked-lock_model now later provider model other_provider other d r =
      let j = lock_key provider model in
      let k = lock_key other_provider other in
      let until = add_time now d in
      ground (
        arith,
        is_model_locked-held later other_provider other (lock_model now provider model d r),
        is_model_locked-held later other_provider other r,
        lookup-insert j k until r.model_lock,
      )
