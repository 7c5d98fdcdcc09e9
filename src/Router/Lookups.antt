-- ===== src/Router/Lookups.antt =====
-- internal/router/router.go: aliases, model locks, routes by name and the counts of live requests.
use token_route.Base.{
  ℕ, ◌+◌, ◌-◌, Bool, true, false, Option, none, some, List, [], ◌∷◌, ◌++◌, ltb, if◌then◌else◌,
}
use token_route.Base.Text.{Text, text_eq, codes}
use token_route.Base.Time.{Instant, Duration, add_time, after}
use token_route.Base.Dict.{lookup, insert, delete, text_key}
use token_route.Router.Defs.{Router, Route}

-- `providerName + "|" + model`
abbrev pub lock_key : Text → Text → Text
lock_key provider model = provider ++ (codes "|" ++ model)

abbrev nonempty_or : Text → Text → Text
nonempty_or [] d = d
nonempty_or (c ∷ t) d = c ∷ t

abbrev mapped : Text → Option (List (Text × Text)) → Text
mapped model none = model
mapped model (some m) = elim (lookup model m) [ none ↦ model | some up ↦ up ]

-- The first of the routes with the model's name.
unfoldable pub find_route : Text → List Route → Option Route
find_route model [] = none
find_route model (rt ∷ routes) = if text_eq rt.model model then some rt else find_route model routes

abbrev pub count_or_zero : Option ℕ → ℕ
count_or_zero none = 0
count_or_zero (some n) = n

module _ {F : Type 0} where
  -- `ResolveAlias`
  unfoldable pub resolve_alias : Text → Router F → Text
  resolve_alias model r = elim (lookup model r.aliases) [
    | none ↦ model
    | some target ↦ nonempty_or target model
  ]

  -- `MapModel`
  unfoldable pub map_model : Text → Text → Router F → Text
  map_model provider model r = mapped model (lookup provider r.mappings)

  -- `LockModel`
  unfoldable pub lock_model : Instant → Text → Text → Duration → Router F → Router F
  lock_model now provider model d r = record r {
    model_lock = insert (lock_key provider model) (add_time now d) r.model_lock;
  }

  abbrev lock_until : Instant → Text → Option Instant → Router F → Router F × Instant
  lock_until now k none r = (r, 0)
  lock_until now k (some t) r =
      if after now t then (record r { model_lock = delete k r.model_lock }, 0) else (r, t)

  -- `ModelLockUntil`; 0 is the zero time.
  unfoldable pub model_lock_until : Instant → Text → Text → Router F → Router F × Instant
  model_lock_until now provider model r =
      let k = lock_key provider model in lock_until now k (lookup k r.model_lock) r

  abbrev lock_held : Instant → Text → Option Instant → Router F → Router F × Bool
  lock_held now k none r = (r, false)
  lock_held now k (some t) r =
      if after now t then (record r { model_lock = delete k r.model_lock }, false) else (r, true)

  -- `IsModelLocked`: a lock that has expired is deleted.
  unfoldable pub is_model_locked : Instant → Text → Text → Router F → Router F × Bool
  is_model_locked now provider model r =
      let k = lock_key provider model in lock_held now k (lookup k r.model_lock) r

  -- `Resolve`
  unfoldable pub resolve : Text → Router F → Option Route
  unfolding find_route
  resolve model r = find_route model r.routes

  -- `Inflight`
  unfoldable pub inflight_of : Text → Router F → ℕ
  inflight_of name r = count_or_zero (lookup name r.inflight)

  -- `IncInflight`
  unfoldable pub inc_inflight : Text → Router F → Router F
  unfolding inflight_of
  inc_inflight name r = record r { inflight = insert name (inflight_of name r + 1) r.inflight }

  -- `DecInflight`
  unfoldable pub dec_inflight : Text → Router F → Router F
  unfolding inflight_of
  dec_inflight name r =
      if ltb 0 (inflight_of name r)
      then record r { inflight = insert name (inflight_of name r - 1) r.inflight }
      else r
