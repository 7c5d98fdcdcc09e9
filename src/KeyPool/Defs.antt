-- ===== src/KeyPool/Defs.antt =====
-- internal/provider/keypool.go. `now` is the clock that the method reads.
use token_route.Base.{
  ℕ, zero, suc, ◌+◌, ◌*◌, ◌%◌, Bool, true, false, ◌||◌, Option, none, some, List, [], ◌∷◌, length,
  get_or, ltb, if◌then◌else◌,
}
use token_route.Base.Int.{pos, leb_ℤ}
use token_route.Base.Text.{Text}
use token_route.Base.Time.{Instant, sub_time, add_time, before, after, is_zero, second}
use token_route.Base.Dict.{lookup, insert, text_key}

pub record KeyWindow : Type 0 where
  pub start : Instant
  pub reqs : ℕ

pub record KeyPool : Type 0 where
  pub keys : List Text
  pub next : ℕ
  pub cool : List (Text × Instant)
  pub uses : List (Text × KeyWindow)

abbrev pub key_cooldown : ℕ
key_cooldown = 60 * second

abbrev pub is_blank : Text → Bool
is_blank [] = true
is_blank (_ ∷ _) = false

-- The loop of `NewKeyPool`.
unfoldable pub drop_blank : List Text → List Text
drop_blank [] = []
drop_blank (k ∷ ks) = let rest = drop_blank ks in if is_blank k then rest else k ∷ rest

-- `NewKeyPool`
unfoldable pub new : List Text → KeyPool
unfolding drop_blank
new keys = record { keys = drop_blank keys; next = 0; cool = []; uses = [] }

-- `time.Duration(60 s)` has passed since the window began.
abbrev pub is_stale : Instant → KeyWindow → Bool
is_stale now w = leb_ℤ (pos (60 * second)) (sub_time now w.start)

abbrev pub fresh : Instant → KeyWindow
fresh now = record { start = now; reqs = 0 }

-- `windowReqs`: a stale window is reset in place.
unfoldable pub window_reqs : Text → Instant → List (Text × KeyWindow) → List (Text × KeyWindow) × ℕ
window_reqs k now uses = elim (lookup k uses) [
  | none ↦ (uses, 0)
  | some w ↦ if is_stale now w then (insert k (fresh now) uses, 0) else (uses, w.reqs)
]

-- `until, ok := p.cool[k]; ok && now.Before(until)`
unfoldable pub cooling : Text → Instant → List (Text × Instant) → Bool
cooling k now cool = elim (lookup k cool) [ none ↦ false | some until ↦ before now until ]

-- `best < 0 || reqs < bestReqs`, and the index and the count that are best then.
abbrev pub better : ℕ → ℕ → Option (ℕ × ℕ) → Option (ℕ × ℕ)
better idx reqs none = some (idx, reqs)
better idx reqs (some (best, best_reqs)) =
    if ltb reqs best_reqs then some (idx, reqs) else some (best, best_reqs)

abbrev pub Scan : Type 0
Scan = List (Text × KeyWindow) × Option (ℕ × ℕ)

-- One round of the loop of `Pick`.
unfoldable pub visit : Instant → List (Text × Instant) → ℕ → Text → Scan → Scan
visit now cool idx k (uses, best) =
    let (uses', reqs) = window_reqs k now uses in
    if cooling k now cool then (uses, best) else (uses', better idx reqs best)

module _ (now : Instant) (cool : List (Text × Instant)) (keys : List Text) (start : ℕ) where
  -- The loop of `Pick`: the rounds that are left, and the round `i`.
  unfoldable pub scan : ℕ → ℕ → Scan → Scan
  scan zero i s = s
  scan (suc rounds) i s =
      let idx = (start + i) % length keys in
      scan rounds (i + 1) (visit now cool idx (get_or keys idx []) s)

abbrev pub choose : KeyPool → Scan → KeyPool × Text × Bool
choose p (uses, none) = (record p { uses = uses }, [], false)
choose p (uses, some (best, _)) =
    (record p { uses = uses; next = best + 1 }, get_or p.keys best [], true)

abbrev pub no_keys : List Text → Bool
no_keys [] = true
no_keys (_ ∷ _) = false

-- `Pick`
unfoldable pub pick : Instant → KeyPool → KeyPool × Text × Bool
unfolding scan visit
pick now p =
    let n = length p.keys in
    let picked = choose p (scan now p.cool p.keys (p.next % n) n 0 (p.uses, none)) in
    if no_keys p.keys then (p, [], true) else picked

abbrev used : Instant → Option KeyWindow → KeyWindow
used now none = record { start = now; reqs = 1 }
used now (some w) =
    if is_stale now w then record { start = now; reqs = 1 } else record w { reqs = w.reqs + 1 }

-- `RecordUse`
unfoldable pub record_use : Text → Instant → KeyPool → KeyPool
record_use key now p =
    if is_blank key then p else record p { uses = insert key (used now (lookup key p.uses)) p.uses }

-- `CoolUntil`
unfoldable pub cool_until : Text → Instant → KeyPool → KeyPool
cool_until key until p = if is_blank key then p else record p { cool = insert key until p.cool }

-- `Cool`
unfoldable pub cool_key : Text → Instant → KeyPool → KeyPool
unfolding cool_until
cool_key key now p = cool_until key (add_time now (pos key_cooldown)) p

-- The loop of `EarliestCooldown` over the map: what stays of it, and the soonest expiry.
unfoldable pub earliest :
    Instant → List (Text × Instant) → Instant → List (Text × Instant) × Instant
earliest now [] soonest = ([], soonest)
earliest now ((k, until) ∷ cool) soonest =
    let gone = earliest now cool soonest in
    let sooner = if is_zero soonest || before until soonest then until else soonest in
    let (kept, result) = earliest now cool sooner in
    if after now until then gone else ((k, until) ∷ kept, result)

-- `EarliestCooldown`; 0 is the zero time.
unfoldable pub earliest_cooldown : Instant → KeyPool → KeyPool × Instant
unfolding earliest
earliest_cooldown now p =
    let (kept, soonest) = earliest now p.cool 0 in (record p { cool = kept }, soonest)

-- `Cooling`
unfoldable pub is_cooling : Text → Instant → KeyPool → Bool
unfolding cooling
is_cooling key now p = cooling key now p.cool
