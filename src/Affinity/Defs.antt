-- ===== src/Affinity/Defs.antt =====
-- internal/router/affinity.go: `AffinityCache`. The hashes of bodies and headers are its keys; 0
-- stands for "not cacheable". A nil cache is `none`.
use token_route.Base.{ℕ, Option, none, some, List, [], ◌∷◌, ◌++◌, ◌==◌, if◌then◌else◌}
use token_route.Base.Int.{pos, leb_ℤ}
use token_route.Base.Text.{Text, codes}
use token_route.Base.Time.{Instant, Duration, add_time, after, hour}
use token_route.Base.Hash.{fnv64a}
use token_route.Base.Dict.{lookup, insert, delete, number_key}

-- `HeaderKeyHash`
unfoldable pub header_key_hash : Text → ℕ
header_key_hash [] = 0
header_key_hash (c ∷ value) = fnv64a (codes "hdr:" ++ (c ∷ value))

pub record AffinityPin : Type 0 where
  pub provider : Text
  pub model : Text
  pub expires_at : Instant

pub record AffinityCache : Type 0 where
  pub pins : List (ℕ × AffinityPin)
  pub ttl : Duration

-- `NewAffinityCache`
unfoldable pub new : Duration → AffinityCache
new ttl = record { pins = []; ttl = if leb_ℤ ttl (pos 0) then pos hour else ttl }

abbrev live : Instant → ℕ → AffinityCache → Option AffinityPin → AffinityCache × Option AffinityPin
live now hash a none = (a, none)
live now hash a (some p) =
    if after now p.expires_at then (record a { pins = delete hash a.pins }, none) else (a, some p)

-- `Get`: an expired pin is deleted.
unfoldable pub get : Instant → ℕ → Option AffinityCache → Option AffinityCache × Option AffinityPin
get now hash none = (none, none)
get now hash (some a) =
    let (a', p) = live now hash a (lookup hash a.pins) in
    if hash == 0 then (some a, none) else (some a', p)

abbrev pub ttl_or : Duration → AffinityCache → Duration
ttl_or ttl a = if leb_ℤ ttl (pos 0) then a.ttl else ttl

-- `PutTTL`
unfoldable pub put_ttl :
    Instant → ℕ → Text → Text → Duration → Option AffinityCache → Option AffinityCache
put_ttl now hash provider model ttl none = none
put_ttl now hash provider model ttl (some a) =
    let pin : AffinityPin = record {
      provider = provider;
      model = model;
      expires_at = add_time now (ttl_or ttl a);
    } in
    if hash == 0 then some a else some (record a { pins = insert hash pin a.pins })

-- `Put`
unfoldable pub put : Instant → ℕ → Text → Text → Option AffinityCache → Option AffinityCache
unfolding put_ttl
put now hash provider model a = put_ttl now hash provider model (pos 0) a
