-- ===== src/Affinity/Pins.antt =====
-- internal/router/affinity.go: which pin a request finds.
use token_route.Base.{ℕ, ◌≡◌, ◌≢◌, none, some, arith, if◌then◌else◌}
use token_route.Base.Text.{Text}
use token_route.Base.Time.{Instant, Duration, add_time, after}
use token_route.Base.Dict.{number_key, lookup-insert, lookup-insert_self}
use token_route.Affinity.Defs.{AffinityCache, AffinityPin, get, put_ttl, ttl_or}

-- A pin that was put under a hash other than 0 is found until its time to live has passed, and no
-- longer; the pins of other hashes are found as before.
pub get-put_ttl :
    (now later : Instant) (hash other : ℕ) (provider model : Text) (ttl : Duration)
    (a : AffinityCache)
    → hash ≢ 0
    → hash ≢ other
    → let expiry = add_time now (ttl_or ttl a) in
      let stored = put_ttl now hash provider model ttl (some a) in
      ((get later hash stored).1 ≡ (
        if after later expiry
        then none
        else some (record { provider = provider; model = model; expires_at = expiry })))
      × ((get later other stored).1 ≡ (get later other (some a)).1)
unfolding get put_ttl
get-put_ttl now later hash other provider model ttl a nz ne =
    let expiry = add_time now (ttl_or ttl a) in
    let pin : AffinityPin = record { provider = provider; model = model; expires_at = expiry } in
    (
      ground (arith, lookup-insert_self hash pin a.pins),
      ground (arith, lookup-insert hash other pin a.pins),
    )
