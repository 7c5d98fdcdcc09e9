-- ===== src/Server/Granted.antt =====
-- internal/server/server.go: what `prepareRequest` grants, said without the tests that it makes.
use mathlib.Core.List.{Memᴰ}
use mathlib.Core.Path.{subst}
use token_route.Base.{
  ℕ, ◌≤◌, ◌≡◌, refl, sym, arith, Bool, true, false, Bool-cases, ◌&&◌, ◌||◌, all, any, Option, none,
  some, List, [], ◌∷◌, ◌⊎◌, inl, inr, length, ◌==◌,
}
use token_route.Base.Int.{pos, leb_ℤ, ltb_ℤ}
use token_route.Base.Text.{Text, text_eq, text_eq_iff}
use token_route.Base.Time.{Instant}
use token_route.Base.Float.{Float64}
use token_route.RateLimit.Registry.{Registry}
use token_route.Router.Defs.{Router, Candidate}
use token_route.Router.Lookups.{resolve_alias}
use token_route.Router.Order.{Draws}
use token_route.Server.Fallback.{Request}
use token_route.Server.Keys.{ApiKey, Refusal, model_allowed}
use token_route.Server.Prepare.{
  Prepared, Ready, refused, ready, groups_intersect, with_access, in_groups, of_groups,
  filter_groups, checked, key_check, key_groups, prepare_request,
}
use token_route.Server.Entitled.{
  is_sound, entitled, key_entitled, find_candidates-model, prepare_request-is_sound,
}

module _ {ℓ} {A : Type ℓ} where
  Memᴰ_of_any : (p : A → Bool) (xs : List A) → any p xs ≡ true → (x : A) × Memᴰ x xs × (p x ≡ true)
  Memᴰ_of_any p [] h = cc
  Memᴰ_of_any p (x ∷ xs) h = elim (Bool-cases (p x)) [
    | inl e ↦ (x, Memᴰ.head refl, e)
    | inr n ↦ let (y, there, e) = Memᴰ_of_any p xs (ground arith) in (y, Memᴰ.tail there, e)
  ]

  all-Memᴰ : (p : A → Bool) (xs : List A) (x : A) → all p xs ≡ true → Memᴰ x xs → p x ≡ true
  all-Memᴰ p [] x h m = elim m [ ]
  all-Memᴰ p (y ∷ xs) x h (Memᴰ.head e) = rw e (ground arith)
  all-Memᴰ p (y ∷ xs) x h (Memᴰ.tail m) = all-Memᴰ p xs x (ground arith) m

-- Both lists have a group, or one of them is empty.
abbrev pub Together : List Text → List Text → Type 0
Together a b = (a ≡ []) ⊎ ((b ≡ []) ⊎ ((g : Text) × Memᴰ g a × Memᴰ g b))

groups_intersect-Together : (a b : List Text) → groups_intersect a b ≡ true → Together a b
unfolding groups_intersect
groups_intersect-Together [] b e = inl refl
groups_intersect-Together (g ∷ a) [] e = inr (inl refl)
groups_intersect-Together (g ∷ a) (h ∷ b) e =
    let (x, here, some_eq) = Memᴰ_of_any (λ y. any (text_eq y) (h ∷ b)) (g ∷ a) e in
    let (y, there, eq) = Memᴰ_of_any (text_eq x) (h ∷ b) some_eq in
    inr (inr (x, here, rw ((text_eq_iff x y).0 eq) there))

module _ (fl : Float64) where
  open fl use {F, of_int, lt, le}

  -- What a key must allow: the model is listed or the list is empty, and no budget is spent, where a
  -- limit of 0 or less is none.
  pub record Allows (model : Text) (k : ApiKey F) : Type 0 where
    pub listed : (k.allowed_models ≡ []) ⊎ Memᴰ model k.allowed_models
    pub tokens_left : (leb_ℤ k.quota_tokens (pos 0) || ltb_ℤ k.spent_tokens k.quota_tokens) ≡ true
    pub budget_left : (lt (of_int (pos 0)) k.budget_usd && le k.budget_usd k.spent_usd) ≡ false
    pub requests_left : (leb_ℤ k.daily_quota (pos 0) || ltb_ℤ k.daily_used k.daily_quota) ≡ true

  -- What a granted request goes on with: the alias is resolved, there is a candidate, and the key, if
  -- one is required, allows the model and shares a group with each candidate.
  pub record Granted (model : Text) (key : Option (ApiKey F)) (p : Ready F) : Type 0 where
    pub resolved : p.model ≡ model
    pub served : 1 ≤ length p.candidates
    pub allowed : (k : ApiKey F) → key ≡ some k → Allows model k
    pub together :
        (k : ApiKey F) (c : Candidate)
        → key ≡ some k
        → Memᴰ c p.candidates
        → Together k.groups c.groups

  listed_of_allowed :
      (model : Text) (k : ApiKey F)
      → model_allowed model k ≡ true
      → (k.allowed_models ≡ []) ⊎ Memᴰ model k.allowed_models
  unfolding model_allowed
  listed_of_allowed model k h = listed k.allowed_models h
    where
      listed :
          (ms : List Text)
          → (elim ms [ [] ↦ true | m ∷ rest ↦ any (λ n. text_eq n model) (m ∷ rest) ]) ≡ true
          → (ms ≡ []) ⊎ Memᴰ model ms
      listed [] e = inl refl
      listed (m ∷ rest) e =
          let (n, there, eq) = Memᴰ_of_any (λ n. text_eq n model) (m ∷ rest) e in
          inr (rw (sym ((text_eq_iff n model).0 eq)) there)

  entitled-Allows : (model : Text) (k : ApiKey F) → entitled fl model k ≡ true → Allows model k
  entitled-Allows model k h = record {
    listed = listed_of_allowed model k (ground arith);
    tokens_left = ground arith;
    budget_left = ground arith;
    requests_left = ground arith;
  }

  -- A refusal, or a request for the model.
  abbrev IsFor : Text → Prepared F → Type 0
  IsFor model (refused refusal limiter counted) = Unit
  IsFor model (ready p) = p.model ≡ model

  in_groups-IsFor : (p : Ready F) (cs : List Candidate) → IsFor p.model (in_groups p cs)
  in_groups-IsFor p [] = tt
  in_groups-IsFor p (c ∷ cs) = refl

  with_access-IsFor : (groups : List Text) (p : Ready F) → IsFor p.model (with_access groups p)
  unfolding with_access
  with_access-IsFor groups p = elim (Bool-cases (length p.candidates == 0)) [
    | inl n ↦ rw n tt
    | inr n ↦ rw n (grouped groups)
  ]
    where
      grouped : (gs : List Text) → IsFor p.model (of_groups gs p)
      grouped [] = refl
      grouped (g ∷ gs) = in_groups-IsFor p (filter_groups (g ∷ gs) p.candidates)

  checked-IsFor :
      (lower : ℕ → ℕ) (now : Instant) (d : Draws) (q : Request) (model : Text)
      (key : Option (ApiKey F)) (r : Router F) (x : Option (Registry F) × Option Refusal)
      → IsFor model (checked fl lower now d q model key r x)
  checked-IsFor lower now d q model key r (l, some refusal) = tt
  checked-IsFor lower now d q model key r (l, none) =
      subst (λ m. IsFor m (checked fl lower now d q model key r (l, none)))
        (find_candidates-model fl lower now d q _) (with_access-IsFor (key_groups key) _)

  prepare_request-IsFor :
      (lower : ℕ → ℕ) (now : Instant) (d : Draws) (q : Request) (name : Text)
      (key : Option (ApiKey F)) (limiter : Option (Registry F)) (r : Router F)
      → IsFor (resolve_alias name r) (prepare_request fl lower now d q name key limiter r)
  unfolding prepare_request
  prepare_request-IsFor lower now d q [] key limiter r = tt
  prepare_request-IsFor lower now d q (x ∷ name) key limiter r =
      let model = resolve_alias (x ∷ name) r in
      checked-IsFor lower now d q model key r (key_check fl lower now d q model key limiter)

  sound-Granted :
      (model : Text) (key : Option (ApiKey F)) (p : Ready F)
      → p.model ≡ model
      → is_sound fl key (ready p) ≡ true
      → Granted model key p
  sound-Granted model key p same h = record {
    resolved = same;
    served = ground arith;
    allowed = λ k e. entitled-Allows model k (granted k e);
    together = λ k c e m. groups_intersect-Together k.groups c.groups (shared k c e m);
  }
    where
      granted : (k : ApiKey F) → key ≡ some k → entitled fl model k ≡ true
      granted k e =
          let ok : key_entitled fl p.model key ≡ true = ground arith in rw (← same) (rw e at ok)

      shared :
          (k : ApiKey F) (c : Candidate)
          → key ≡ some k
          → Memᴰ c p.candidates
          → groups_intersect k.groups c.groups ≡ true
      shared k c e m =
          let every : all (λ c. groups_intersect (key_groups key) c.groups) p.candidates ≡ true =
            ground arith in
          all-Memᴰ (λ c. groups_intersect k.groups c.groups) p.candidates c (rw e at every) m

  -- Where `prepareRequest` lets a request through, it goes on under the model's name after the
  -- aliases and with at least one candidate. If a key is required, its list of models is empty or has
  -- the model, none of its three budgets is spent, and with each candidate it has a group in common,
  -- unless the one or the other has no groups at all.
  pub prepare_request-Granted :
      (lower : ℕ → ℕ) (now : Instant) (d : Draws) (q : Request) (name : Text)
      (key : Option (ApiKey F)) (limiter : Option (Registry F)) (r : Router F) (p : Ready F)
      → prepare_request fl lower now d q name key limiter r ≡ ready p
      → Granted (resolve_alias name r) key p
  prepare_request-Granted lower now d q name key limiter r p e =
      sound-Granted (resolve_alias name r) key p
        (subst (IsFor (resolve_alias name r)) e
          (prepare_request-IsFor lower now d q name key limiter r))
        (rw e at (prepare_request-is_sound fl lower now d q name key limiter r))
