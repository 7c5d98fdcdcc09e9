-- ===== src/Server/Cache.antt =====
-- internal/server/cache.go: `RespCache`. The key of a request is a parameter: a hash of its body. Which
-- entry `Range` visits first is the parameter `victim`, an index that is cut to the last entry.
use token_route.Base.{
  ℕ, ◌-◌, min, Bool, Option, none, some, List, [], length, get_elem?, if◌then◌else◌,
}
use token_route.Base.Int.{ℤ, pos, leb_ℤ, ltb_ℤ, ◌+ℤ◌, ◌-ℤ◌}
use token_route.Base.Text.{Text}
use token_route.Base.Time.{Instant, Duration, sub_time, of_seconds}
use token_route.Base.Dict.{lookup, insert, delete, text_key}
use token_route.RetryPolicy.Defs.{is_blank}

pub record CacheEntry : Type 0 where
  pub body : Text
  pub status : ℕ
  pub content_type : Text
  pub stored_at : Instant
  pub prompt_tokens : ℤ
  pub completion_tokens : ℤ
  pub total_tokens : ℤ

pub record RespCache : Type 0 where
  pub entries : List (Text × CacheEntry)
  pub ttl : Duration
  pub n : ℤ

-- `cacheCap`
abbrev pub cache_cap : ℕ
cache_cap = 1000

-- `newRespCache`
unfoldable pub new_resp_cache : ℤ → RespCache
new_resp_cache seconds = record {
  entries = [];
  ttl = of_seconds (if leb_ℤ seconds (pos 0) then pos 300 else seconds);
  n = pos 0;
}

-- `NewCache`; `none` is the cache that is disabled.
unfoldable pub new_cache : Bool → ℤ → Option RespCache
unfolding new_resp_cache
new_cache enabled seconds = if enabled then some (new_resp_cache seconds) else none

-- `c.m.Delete(key); c.n.Add(-1)`
unfoldable pub evict : Text → RespCache → RespCache
evict key c = record c { entries = delete key c.entries; n = c.n -ℤ pos 1 }

abbrev pub is_stale : Instant → RespCache → CacheEntry → Bool
is_stale now c e = ltb_ℤ c.ttl (sub_time now e.stored_at)

abbrev pub loaded : Instant → Text → Option CacheEntry → RespCache → RespCache × Option CacheEntry
loaded now key none c = (c, none)
loaded now key (some e) c = if is_stale now c e then (evict key c, none) else (c, some e)

-- `get`
unfoldable pub get : Instant → Text → RespCache → RespCache × Option CacheEntry
unfolding evict
get now key c =
    let found = loaded now key (lookup key c.entries) c in if is_blank key then (c, none) else found

-- The first entry that `Range` visits.
abbrev pub drop_victim : Option (Text × CacheEntry) → RespCache → RespCache
drop_victim none c = c
drop_victim (some (key, e)) c = evict key c

abbrev pub trimmed : ℕ → RespCache → RespCache
trimmed victim c =
    if ltb_ℤ (pos cache_cap) c.n
    then drop_victim (get_elem? c.entries (min victim (length c.entries - 1))) c
    else c

abbrev pub stored : ℕ → Text → CacheEntry → Option CacheEntry → RespCache → RespCache
stored victim key e (some old) c = c
stored victim key e none c =
    trimmed victim (record c { entries = insert key e c.entries; n = c.n +ℤ pos 1 })

-- `store`
unfoldable pub store : ℕ → Text → CacheEntry → RespCache → RespCache
unfolding evict
store victim key e c =
    let kept = stored victim key e (lookup key c.entries) c in if is_blank key then c else kept
