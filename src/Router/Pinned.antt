-- ===== src/Router/Pinned.antt =====
-- internal/router/router.go and affinity.go: where the candidate that served a prefix goes.
use mathlib.Core.List.{Perm}
use mathlib.Core.List.Perm
use token_route.Base.{
  ℕ, suc, ◌≡◌, refl, ◌∙◌, ◌≢◌, arith, Bool, true, false, Bool-cases, ◌&&◌, ◌||◌, not, any, Option,
  none, some, List, [], ◌∷◌, inl, inr, ltb, length,
}
use token_route.Base.Text.{Text, text_eq}
use token_route.Base.Time.{Instant, Duration, add_time, after}
use token_route.Base.Sort.{pull, behind, cons_pulled, move_front, move_front-perm}
use token_route.Prices.{is_some}
use token_route.Affinity.Defs.{AffinityCache, AffinityPin, get, ttl_or}
use token_route.Affinity.Pins.{get-put_ttl}
use token_route.Router.Defs.{Router, Candidate}
use token_route.Router.Pin.{
  is_pinned, next_index, pinned_index, brought_forward, pin_first, pin_by_affinity,
  record_affinity_ttl,
}

-- The candidate is the provider's, for the model.
abbrev pub serves : Text → Text → Candidate → Bool
serves name model c = text_eq c.provider.name name && text_eq c.model model

-- The first candidate is the provider's, for the model.
abbrev pub first_serves : Text → Text → List Candidate → Bool
first_serves name model [] = false
first_serves name model (c ∷ cs) = serves name model c

abbrev pulled : AffinityPin → Option (Candidate × List Candidate) → Bool
pulled p none = false
pulled p (some (c, cs)) = is_pinned p c

-- What is at the index, if there is one, is pinned.
abbrev found : AffinityPin → Option ℕ → List Candidate → Bool
found p none cs = true
found p (some i) cs = pulled p (pull i cs)

pulled-behind :
    (p : AffinityPin) (c : Candidate) (o : Option (Candidate × List Candidate))
    → pulled p (behind c o) ≡ pulled p o
pulled-behind p c none = refl
pulled-behind p c (some (d, ds)) = refl

found-next_index :
    (p : AffinityPin) (c : Candidate) (o : Option ℕ) (cs : List Candidate)
    → found p (next_index o) (c ∷ cs) ≡ found p o cs
unfolding pull
found-next_index p c none cs = refl
found-next_index p c (some i) cs = pulled-behind p c (pull i cs)

found-pinned_index : (p : AffinityPin) (cs : List Candidate) → found p (pinned_index p cs) cs ≡ true
unfolding pinned_index pull
found-pinned_index p [] = refl
found-pinned_index p (c ∷ cs) = elim (Bool-cases (is_pinned p c)) [
  | inl e ↦ rw e e
  | inr e ↦ rw e (found-next_index p c (pinned_index p cs) cs ∙ found-pinned_index p cs)
]

is_some-next_index : (o : Option ℕ) → is_some (next_index o) ≡ is_some o
is_some-next_index none = refl
is_some-next_index (some i) = refl

is_some-pinned_index :
    (p : AffinityPin) (cs : List Candidate) → is_some (pinned_index p cs) ≡ any (is_pinned p) cs
unfolding pinned_index
is_some-pinned_index p [] = refl
is_some-pinned_index p (c ∷ cs) = elim (Bool-cases (is_pinned p c)) [
  | inl e ↦ rw e refl
  | inr e ↦ rw e (is_some-next_index (pinned_index p cs) ∙ is_some-pinned_index p cs)
]

-- What the reordering returns, for the list that it is given.
abbrev IsPinnedFirst : AffinityPin → List Candidate → List Candidate × Bool → Type 0
IsPinnedFirst p cs (out, hit) =
    (hit ≡ any (is_pinned p) cs)
    × Perm out cs
    × ((not hit || first_serves p.provider p.model out) ≡ true)

first_serves-pulled :
    (p : AffinityPin) (o : Option (Candidate × List Candidate)) (cs : List Candidate)
    → pulled p o ≡ true
    → first_serves p.provider p.model (cons_pulled cs o) ≡ true
first_serves-pulled p none cs k = ground arith
first_serves-pulled p (some (c, rest)) cs k = k

brought_forward-IsPinnedFirst :
    (p : AffinityPin) (o : Option ℕ) (cs : List Candidate)
    → is_some o ≡ any (is_pinned p) cs
    → found p o cs ≡ true
    → IsPinnedFirst p cs (brought_forward o cs)
unfolding move_front
brought_forward-IsPinnedFirst p none cs h k = (h, Perm.rfl, refl)
brought_forward-IsPinnedFirst p (some i) cs h k =
    (h, move_front-perm i cs, first_serves-pulled p (pull i cs) cs k)

module _ {F : Type 0} where
  pin_by_affinity-pin_first :
      (now : Instant) (hash : ℕ) (p : AffinityPin) (cs : List Candidate) (r : Router F)
      → (get now hash r.affinity).1 ≡ some p
      → hash ≢ 0
      → ltb (length cs) 2 ≡ false
      → (pin_by_affinity now hash cs r).1 ≡ pin_first (some p) cs
  unfolding pin_by_affinity
  pin_by_affinity-pin_first now hash p cs r h nz two = ground arith

  pin_by_affinity-found :
      (now : Instant) (hash : ℕ) (p : AffinityPin) (cs : List Candidate) (r : Router F)
      → (get now hash r.affinity).1 ≡ some p
      → hash ≢ 0
      → ltb (length cs) 2 ≡ false
      → IsPinnedFirst p cs (pin_by_affinity now hash cs r).1
  pin_by_affinity-found now hash p cs r h nz two =
      rw (pin_by_affinity-pin_first now hash p cs r h nz two) (
        brought_forward-IsPinnedFirst p (pinned_index p cs) cs (is_some-pinned_index p cs)
          (found-pinned_index p cs))

  -- Where a response of a provider's model was recorded for a hash other than 0 and its time to live
  -- has not passed, a later request with the hash and two candidates or more is a hit if and only if
  -- the provider's model is among them; it then comes first, and on every request no candidate is
  -- lost or added.
  pub pin_by_affinity-record_affinity_ttl :
      (now later : Instant) (hash : ℕ) (name model : Text) (ttl : Duration) (a : AffinityCache)
      (cs : List Candidate) (r : Router F)
      → r.affinity ≡ some a
      → hash ≢ 0
      → after later (add_time now (ttl_or ttl a)) ≡ false
      → ltb (length cs) 2 ≡ false
      → let (out, hit) =
          (pin_by_affinity later hash cs (record_affinity_ttl now hash name model ttl r)).1 in
        (hit ≡ any (serves name model) cs)
        × Perm out cs
        × ((not hit || first_serves name model out) ≡ true)
  unfolding record_affinity_ttl
  pin_by_affinity-record_affinity_ttl now later hash name model ttl a cs r e nz live two =
      let p : AffinityPin = record {
        provider = name;
        model = model;
        expires_at = add_time now (ttl_or ttl a);
      } in
      let fresh = (get-put_ttl now later hash (suc hash) name model ttl a nz (ground arith)).0 in
      pin_by_affinity-found later hash p cs (record_affinity_ttl now hash name model ttl r)
        (rw (← e, live) at fresh) nz two
