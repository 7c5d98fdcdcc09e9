-- ===== src/Server/Entitled.antt =====
-- internal/server/server.go: the checks that a request passes which `prepareRequest` lets through.
use token_route.Base.{
  ℕ, ◌≡◌, refl, ◌∙◌, ap, arith, Bool, true, false, Bool-cases, ◌&&◌, ◌||◌, not, all, Option, none,
  some, List, [], ◌∷◌, inl, inr, leb, length, ◌==◌,
}
use token_route.Base.Int.{pos, leb_ℤ, ltb_ℤ}
use token_route.Base.Text.{Text}
use token_route.Base.Time.{Instant}
use token_route.Base.Float.{Float64}
use token_route.Prices.{is_some}
use token_route.RateLimit.Registry.{Registry}
use token_route.Router.Defs.{Router, Route, Candidate}
use token_route.Router.Lookups.{resolve, resolve_alias}
use token_route.Router.Order.{Draws}
use token_route.Server.Fallback.{Request}
use token_route.Server.Headers.{Header}
use token_route.Server.Keys.{
  ApiKey, Refusal, model_allowed, account_refusal, after_account, check_key,
}
use token_route.Server.Prepare.{
  Prepared, Ready, refused, ready, groups_intersect, filter_groups, with_access, in_groups,
  of_groups, candidates_of, find_candidates, checked, key_check, key_groups, prepare_request,
}

filter_groups-all :
    (groups : List Text) (cs : List Candidate)
    → all (λ c. groups_intersect groups c.groups) (filter_groups groups cs) ≡ true
unfolding filter_groups
filter_groups-all groups [] = refl
filter_groups-all groups (c ∷ cs) = let rest = filter_groups-all groups cs in ground arith

groups_intersect-all : (cs : List Candidate) → all (λ c. groups_intersect [] c.groups) cs ≡ true
unfolding groups_intersect
groups_intersect-all [] = refl
groups_intersect-all (c ∷ cs) = groups_intersect-all cs

module _ (fl : Float64) where
  open fl use {F, of_int, lt, le}

  -- The key may use the model, and no budget of it is spent; a limit of 0 or less is none.
  abbrev pub entitled : Text → ApiKey F → Bool
  entitled model k =
      model_allowed model k
      && (leb_ℤ k.quota_tokens (pos 0) || ltb_ℤ k.spent_tokens k.quota_tokens)
      && not (lt (of_int (pos 0)) k.budget_usd && le k.budget_usd k.spent_usd)
      && (leb_ℤ k.daily_quota (pos 0) || ltb_ℤ k.daily_used k.daily_quota)

  account_refusal-entitled :
      (model : Text) (k : ApiKey F) → is_some (account_refusal fl model k) ≡ not (entitled model k)
  unfolding account_refusal
  account_refusal-entitled model k = ground arith

  after_account-refused :
      (now : Instant) (h : Header) (model : Text) (k : ApiKey F) (limiter : Option (Registry F))
      (o : Option Refusal)
      → is_some o ≡ true
      → ((after_account fl now h model k limiter o).0 ≡ limiter)
        × (is_some (after_account fl now h model k limiter o).1 ≡ true)
  after_account-refused now h model k limiter none e = ground arith
  after_account-refused now h model k limiter (some refusal) e = (refl, refl)

  -- A request whose key is not entitled to it is refused, and takes nothing from any bucket.
  pub check_key-entitled :
      (now : Instant) (h : Header) (model : Text) (k : ApiKey F) (limiter : Option (Registry F))
      → entitled model k ≡ false
      → ((check_key fl now h model k limiter).0 ≡ limiter)
        × (is_some (check_key fl now h model k limiter).1 ≡ true)
  unfolding check_key
  check_key-entitled now h model k limiter e =
      after_account-refused now h model k limiter (account_refusal fl model k)
        (account_refusal-entitled model k ∙ ap not e)

  after_account-granted :
      (now : Instant) (h : Header) (model : Text) (k : ApiKey F) (limiter : Option (Registry F))
      (o : Option Refusal)
      → is_some (after_account fl now h model k limiter o).1 ≡ false
      → is_some o ≡ false
  after_account-granted now h model k limiter none e = refl
  after_account-granted now h model k limiter (some refusal) e = e

  -- No key is required, or the key is entitled.
  abbrev pub key_entitled : Text → Option (ApiKey F) → Bool
  key_entitled model none = true
  key_entitled model (some k) = entitled model k

  key_check-entitled :
      (lower : ℕ → ℕ) (now : Instant) (d : Draws) (q : Request) (model : Text)
      (key : Option (ApiKey F)) (limiter : Option (Registry F))
      → is_some (key_check fl lower now d q model key limiter).1 ≡ false
      → key_entitled model key ≡ true
  unfolding check_key
  key_check-entitled lower now d q model none limiter e = refl
  key_check-entitled lower now d q model (some k) limiter e =
      let granted =
        after_account-granted now q.header model k limiter (account_refusal fl model k) e in
      let same = account_refusal-entitled model k in ground arith

  -- A refusal, or some candidates, all in the groups, for a model that the key is entitled to.
  abbrev pub is_sound : Option (ApiKey F) → Prepared F → Bool
  is_sound key (refused refusal limiter counted) = true
  is_sound key (ready p) =
      key_entitled p.model key
      && all (λ c. groups_intersect (key_groups key) c.groups) p.candidates
      && leb 1 (length p.candidates)

  in_groups-is_sound :
      (key : Option (ApiKey F)) (p : Ready F) (cs : List Candidate)
      → key_entitled p.model key ≡ true
      → all (λ c. groups_intersect (key_groups key) c.groups) cs ≡ true
      → is_sound key (in_groups p cs) ≡ true
  in_groups-is_sound key p [] e h = refl
  in_groups-is_sound key p (c ∷ cs) e h = ground arith

  of_groups-is_sound :
      (key : Option (ApiKey F)) (groups : List Text) (p : Ready F)
      → key_groups key ≡ groups
      → key_entitled p.model key ≡ true
      → leb 1 (length p.candidates) ≡ true
      → is_sound key (of_groups groups p) ≡ true
  of_groups-is_sound key [] p g e h =
      let wild : all (λ c. groups_intersect (key_groups key) c.groups) p.candidates ≡ true =
        rw g (groups_intersect-all p.candidates) in
      ground arith
  of_groups-is_sound key (x ∷ groups) p g e h =
      in_groups-is_sound key p (filter_groups (x ∷ groups) p.candidates) e
        (rw g (filter_groups-all (x ∷ groups) p.candidates))

  with_access-is_sound :
      (key : Option (ApiKey F)) (p : Ready F)
      → key_entitled p.model key ≡ true
      → is_sound key (with_access (key_groups key) p) ≡ true
  unfolding with_access
  with_access-is_sound key p e = elim (Bool-cases (length p.candidates == 0)) [
    | inl n ↦ rw n refl
    | inr n ↦ rw n (of_groups-is_sound key (key_groups key) p refl e (ground arith))
  ]

  candidates_of-model :
      (lower : ℕ → ℕ) (now : Instant) (d : Draws) (q : Request) (o : Option Route) (p : Ready F)
      → (candidates_of fl lower now d q o p).model ≡ p.model
  candidates_of-model lower now d q none p = refl
  candidates_of-model lower now d q (some rt) p = refl

  pub find_candidates-model :
      (lower : ℕ → ℕ) (now : Instant) (d : Draws) (q : Request) (p : Ready F)
      → (find_candidates fl lower now d q p).model ≡ p.model
  unfolding find_candidates
  find_candidates-model lower now d q p =
      candidates_of-model lower now d q (resolve p.model p.router) p

  checked-is_sound :
      (lower : ℕ → ℕ) (now : Instant) (d : Draws) (q : Request) (model : Text)
      (key : Option (ApiKey F)) (r : Router F) (x : Option (Registry F) × Option Refusal)
      → (is_some x.1 ≡ false → key_entitled model key ≡ true)
      → is_sound key (checked fl lower now d q model key r x) ≡ true
  checked-is_sound lower now d q model key r (l, some refusal) h = refl
  checked-is_sound lower now d q model key r (l, none) h =
      with_access-is_sound key _
        (ap (λ m. key_entitled m key) (find_candidates-model lower now d q _) ∙ h refl)

  pub prepare_request-is_sound :
      (lower : ℕ → ℕ) (now : Instant) (d : Draws) (q : Request) (name : Text)
      (key : Option (ApiKey F)) (limiter : Option (Registry F)) (r : Router F)
      → is_sound key (prepare_request fl lower now d q name key limiter r) ≡ true
  unfolding prepare_request
  prepare_request-is_sound lower now d q [] key limiter r = refl
  prepare_request-is_sound lower now d q (x ∷ name) key limiter r =
      let model = resolve_alias (x ∷ name) r in
      checked-is_sound lower now d q model key r (key_check fl lower now d q model key limiter)
        (λ e. key_check-entitled lower now d q model key limiter e)
