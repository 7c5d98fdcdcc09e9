-- ===== src/Router/Pin.antt =====
-- internal/router/router.go: `PinByAffinity` and `RecordAffinityTTL`, and the setters of the tables
-- that the server shares with the router.
use token_route.Base.{
  ℕ, suc, Bool, true, false, ◌&&◌, ◌||◌, Option, none, some, List, [], ◌∷◌, ltb, ◌==◌,
  if◌then◌else◌, length,
}
use token_route.Base.Text.{Text, text_eq}
use token_route.Base.Time.{Instant, Duration}
use token_route.Base.Sort.{move_front}
use token_route.Affinity.Defs.{AffinityCache, AffinityPin, get, put, put_ttl}
use token_route.Prices.{PriceStore}
use token_route.Router.Defs.{Router, Candidate}

abbrev pub is_pinned : AffinityPin → Candidate → Bool
is_pinned p c = text_eq c.provider.name p.provider && text_eq c.model p.model

abbrev pub next_index : Option ℕ → Option ℕ
next_index none = none
next_index (some i) = some (suc i)

-- The first candidate that the pin names.
unfoldable pub pinned_index : AffinityPin → List Candidate → Option ℕ
pinned_index p [] = none
pinned_index p (c ∷ cs) =
    let rest = pinned_index p cs in if is_pinned p c then some 0 else next_index rest

abbrev pub brought_forward : Option ℕ → List Candidate → List Candidate × Bool
brought_forward none cs = (cs, false)
brought_forward (some i) cs = (move_front i cs, true)

abbrev pub pin_first : Option AffinityPin → List Candidate → List Candidate × Bool
pin_first none cs = (cs, false)
pin_first (some p) cs = brought_forward (pinned_index p cs) cs

module _ {F : Type 0} where
  -- `PinByAffinity`
  unfoldable pub pin_by_affinity :
      Instant → ℕ → List Candidate → Router F → Router F × (List Candidate × Bool)
  unfolding pinned_index
  pin_by_affinity now hash cs r =
      let (a, pin) = get now hash r.affinity in
      if hash == 0 || ltb (length cs) 2
      then (r, (cs, false))
      else (record r { affinity = a }, pin_first pin cs)

  -- `RecordAffinity`
  unfoldable pub record_affinity : Instant → ℕ → Text → Text → Router F → Router F
  record_affinity now hash name model r = record r { affinity = put now hash name model r.affinity }

  -- `RecordAffinityTTL`
  unfoldable pub record_affinity_ttl : Instant → ℕ → Text → Text → Duration → Router F → Router F
  record_affinity_ttl now hash name model ttl r = record r {
    affinity = put_ttl now hash name model ttl r.affinity;
  }

  -- `SetAffinity`
  unfoldable pub set_affinity : Option AffinityCache → Router F → Router F
  set_affinity a r = record r { affinity = a }

  -- `SetPrices`
  unfoldable pub set_prices : Option (PriceStore F) → Router F → Router F
  set_prices ps r = record r { prices = ps }

  -- `SetModalityLookup`
  unfoldable pub set_modality_lookup : Option (Text → Option (List Text)) → Router F → Router F
  set_modality_lookup look r = record r { modalities = look }
