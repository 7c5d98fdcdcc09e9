-- ===== src/Server/Capacity.antt =====
-- internal/server/cache.go: how many entries the response cache holds.
use token_route.Base.{
  ℕ, zero, suc, ◌+◌, ◌≤◌, ◌<◌, ◌≡◌, refl, ap, arith, Bool, true, false, Bool-cases, Option, none,
  some, List, [], ◌∷◌, length, get_elem?, inl, inr, if◌then◌else◌,
}
use token_route.Base.Int.{ℤ, pos, ltb_ℤ, ◌+ℤ◌}
use token_route.Base.Text.{Text, text_eq}
use token_route.Base.Time.{Instant}
use token_route.Base.Dict.{lookup, insert, delete, text_key}
use token_route.RetryPolicy.Defs.{is_blank}
use token_route.Server.Cache.{
  CacheEntry, RespCache, cache_cap, new_resp_cache, evict, loaded, get, drop_victim, trimmed,
  stored, store, is_stale,
}

abbrev Entries : Type 0
Entries = List (Text × CacheEntry)

-- How many entries have a key.
abbrev count : Text → Entries → ℕ
count k [] = 0
count k ((j, e) ∷ m) = if text_eq j k then suc (count k m) else count k m

length-delete : (k : Text) (m : Entries) → length (delete k m) + count k m ≡ length m
unfolding delete
length-delete k [] = omega arith
length-delete k ((j, e) ∷ m) = let rest = length-delete k m in ground arith

count-delete : (k x : Text) (m : Entries) → count x (delete k m) ≤ count x m
unfolding delete
count-delete k x [] = omega arith
count-delete k x ((j, e) ∷ m) = let rest = count-delete k x m in ground arith

count-lookup : (k : Text) (m : Entries) → lookup k m ≡ none → count k m ≡ 0
unfolding lookup
count-lookup k [] h = refl
count-lookup k ((j, e) ∷ m) h = elim (Bool-cases (text_eq j k)) [
  | inl y ↦ ground arith
  | inr n ↦ rw n (count-lookup k m (rw n at h))
]

count-found : (k : Text) (e : CacheEntry) (m : Entries) → lookup k m ≡ some e → 1 ≤ count k m
unfolding lookup
count-found k e [] h = ground arith
count-found k e ((j, e') ∷ m) h = elim (Bool-cases (text_eq j k)) [
  | inl y ↦ rw y (omega arith)
  | inr n ↦ rw n (count-found k e m (rw n at h))
]

length-insert :
    (k : Text) (e : CacheEntry) (m : Entries)
    → lookup k m ≡ none
    → length (insert k e m) ≡ suc (length m)
unfolding insert lookup
length-insert k e [] h = refl
length-insert k e ((j, e') ∷ m) h = elim (Bool-cases (text_eq j k)) [
  | inl y ↦ ground arith
  | inr n ↦ rw n (ap suc (length-insert k e m (rw n at h)))
]

count-insert :
    (k x : Text) (e : CacheEntry) (m : Entries)
    → lookup k m ≡ none
    → count x (insert k e m) ≡ (if text_eq k x then suc (count x m) else count x m)
unfolding insert lookup
count-insert k x e [] h = refl
count-insert k x e ((j, e') ∷ m) h = elim (Bool-cases (text_eq j k)) [
  | inl y ↦ ground arith
  | inr n ↦ let rest = count-insert k x e m (rw n at h) in rw n (ground arith)
]

count-elem :
    (i : ℕ) (k : Text) (e : CacheEntry) (m : Entries) → get_elem? m i ≡ some (k, e) → 1 ≤ count k m
count-elem i k e [] h = ground arith
count-elem zero k e ((j, e') ∷ m) h = ground (arith, text_key.same_iff j k)
count-elem (suc i) k e ((j, e') ∷ m) h = let rest = count-elem i k e m h in ground arith

-- Every key has one entry at most, and `n` counts the entries, of which there are no more than the cap.
pub record IsCounted (c : RespCache) : Type 0 where
  pub unique : (k : Text) → count k c.entries ≤ 1
  pub counted : c.n ≡ pos (length c.entries)
  pub capped : length c.entries ≤ cache_cap

evict-IsCounted :
    (key : Text) (c : RespCache)
    → ((k : Text) → count k c.entries ≤ 1)
    → c.n ≡ pos (length c.entries)
    → 1 ≤ count key c.entries
    → length c.entries ≤ suc cache_cap
    → IsCounted (evict key c)
unfolding evict
evict-IsCounted key c u n h b = record {
  unique = λ k. omega (arith, count-delete key k c.entries, u k);
  counted = let kept = length-delete key c.entries in let once = u key in rw n (ground arith);
  capped = omega (arith, length-delete key c.entries, h, b);
}

new_resp_cache-IsCounted : (seconds : ℤ) → IsCounted (new_resp_cache seconds)
unfolding new_resp_cache
new_resp_cache-IsCounted seconds = record {
  unique = λ k. omega arith;
  counted = refl;
  capped = omega arith;
}

if-IsCounted :
    {B : Type 0} (b : Bool) (x y : RespCache × B)
    → IsCounted x.0
    → IsCounted y.0
    → IsCounted (if b then x else y).0
if-IsCounted true x y h k = h
if-IsCounted false x y h k = k

loaded-IsCounted :
    (now : Instant) (key : Text) (o : Option CacheEntry) (c : RespCache)
    → lookup key c.entries ≡ o
    → IsCounted c
    → IsCounted (loaded now key o c).0
loaded-IsCounted now key none c e i = i
loaded-IsCounted now key (some x) c e i =
    let present = count-found key x c.entries e in
    if-IsCounted (is_stale now c x) _ _
      (evict-IsCounted key c i.unique i.counted present (omega (arith, i.capped))) i

if-kept : (b : Bool) (x y : RespCache) → IsCounted x → IsCounted y → IsCounted (if b then x else y)
if-kept true x y h k = h
if-kept false x y h k = k

get_elem?-none : (i : ℕ) (m : Entries) → get_elem? m i ≡ none → length m ≤ i
get_elem?-none i [] h = omega arith
get_elem?-none zero (x ∷ m) h = ground arith
get_elem?-none (suc i) (x ∷ m) h = omega (arith, get_elem?-none i m h)

drop_victim-IsCounted :
    (i : ℕ) (o : Option (Text × CacheEntry)) (c : RespCache)
    → get_elem? c.entries i ≡ o
    → i < length c.entries
    → ((k : Text) → count k c.entries ≤ 1)
    → c.n ≡ pos (length c.entries)
    → length c.entries ≤ suc cache_cap
    → IsCounted (drop_victim o c)
drop_victim-IsCounted i none c e b u n l =
    let few = get_elem?-none i c.entries e in
    record { unique = u; counted = n; capped = omega arith }
drop_victim-IsCounted i (some (key, x)) c e b u n l =
    evict-IsCounted key c u n (count-elem i key x c.entries e) l

trimmed-IsCounted :
    (victim : ℕ) (c : RespCache)
    → ((k : Text) → count k c.entries ≤ 1)
    → c.n ≡ pos (length c.entries)
    → length c.entries ≤ suc cache_cap
    → IsCounted (trimmed victim c)
trimmed-IsCounted victim c u n l = elim (Bool-cases (ltb_ℤ (pos cache_cap) c.n)) [
  | inl y ↦ rw y (drop_victim-IsCounted _ _ c refl (let m = rw n at y in ground arith) u n l)
  | inr y ↦ rw y (record { unique = u; counted = n; capped = let m = rw n at y in ground arith })
]

stored-IsCounted :
    (victim : ℕ) (key : Text) (e : CacheEntry) (o : Option CacheEntry) (c : RespCache)
    → lookup key c.entries ≡ o
    → IsCounted c
    → IsCounted (stored victim key e o c)
stored-IsCounted victim key e (some old) c h i = i
stored-IsCounted victim key e none c h i =
    trimmed-IsCounted victim (record c { entries = insert key e c.entries; n = c.n +ℤ pos 1 })
      (λ k.
        let before = i.unique k in
        let absent = count-lookup key c.entries h in
        let after = count-insert key k e c.entries h in ground (arith, text_key.same_iff key k))
      (rw (i.counted, length-insert key e c.entries h) (ground arith))
      (omega (arith, length-insert key e c.entries h, i.capped))

-- The caches that calls of `get` and `store` lead to.
pub data Reached (seconds : ℤ) : RespCache → Type 0 where
  fresh : Reached seconds (new_resp_cache seconds)
  after_get :
      (now : Instant) (key : Text) (c : RespCache)
      → Reached seconds c
      → Reached seconds (get now key c).0
  after_store :
      (victim : ℕ) (key : Text) (e : CacheEntry) (c : RespCache)
      → Reached seconds c
      → Reached seconds (store victim key e c)

-- However `get` and `store` are called, one after the other, and whichever entries are given up, the
-- response cache holds at most 1000 entries, no two for one key, and `n` is their number.
pub Reached-IsCounted : (seconds : ℤ) (c : RespCache) → Reached seconds c → IsCounted c
unfolding get store
Reached-IsCounted seconds c fresh = new_resp_cache-IsCounted seconds
Reached-IsCounted seconds _ (after_get now key c r) =
    let i = Reached-IsCounted seconds c r in
    if-IsCounted (is_blank key) _ _ i (loaded-IsCounted now key _ c refl i)
Reached-IsCounted seconds _ (after_store victim key e c r) =
    let i = Reached-IsCounted seconds c r in
    if-kept (is_blank key) c _ i (stored-IsCounted victim key e _ c refl i)
