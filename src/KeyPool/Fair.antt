-- ===== src/KeyPool/Fair.antt =====
-- internal/provider/keypool.go: `Pick` takes a key that is not cooling and was used least.
use native.Mathlib.Nat.{mod-lt, mod-eq_of_lt, add-zero, add-suc, suc-add, add-mod_right, zero-add}
use native.Mathlib.Numerals.{add-one}
use native.Mathlib.Decide.{dec_lt}
use mathlib.Core.Path.{subst}
use token_route.Base.{
  ℕ, zero, suc, ◌+◌, ◌-◌, ◌%◌, ◌≤◌, ◌<◌, ◌≡◌, ◌⊎◌, Bool, true, false, Option, none, some, List, [],
  ◌∷◌, arith, refl, length, get_or, ltb, ltb→lt, Bool-cases, ◌∙◌, inl, inr,
}
use token_route.Base.Text.{Text, text_eq_iff}
use token_route.Base.Time.{Instant}
use token_route.Base.Dict.{text_key, lookup-insert}
use token_route.KeyPool.Defs.{
  KeyPool, KeyWindow, fresh, window_reqs, cooling, better, Scan, visit, scan, pick, no_keys, choose,
}

-- The requests of a key in its window at this moment.
abbrev pub count_at : Instant → Text → List (Text × KeyWindow) → ℕ
count_at now k uses = (window_reqs k now uses).1

count_at-window_reqs :
    (now : Instant) (k j : Text) (uses : List (Text × KeyWindow))
    → count_at now j (window_reqs k now uses).0 ≡ count_at now j uses
unfolding window_reqs
count_at-window_reqs now k j uses =
    ground (arith, lookup-insert k j (fresh now) uses, text_eq_iff k j)

split_last : (i j : ℕ) → j < i + 1 → (j ≡ i) ⊎ (j < i)
split_last i j h = omega arith

module _ (now : Instant) (p : KeyPool) where
  abbrev key : ℕ → Text
  key i = get_or p.keys i []

  abbrev count : ℕ → ℕ
  count i = count_at now (key i) p.uses

  abbrev is_cool : ℕ → Bool
  is_cool i = cooling (key i) now p.cool

  -- What the caller of `Pick` gets.
  abbrev pub IsFair : KeyPool × Text × Bool → Type 0
  IsFair (_, k, true) =
      (b : ℕ) × (b < length p.keys)
      × (k ≡ key b)
      × (is_cool b ≡ false)
      × ((j : ℕ) → j < length p.keys → is_cool j ≡ false → count b ≤ count j)
  IsFair (_, k, false) = (j : ℕ) → j < length p.keys → is_cool j ≡ true

  module _ (start : ℕ) where
    abbrev slot : ℕ → ℕ
    slot i = (start + i) % length p.keys

    -- What is best among the keys of the first `i` rounds.
    abbrev IsBest : ℕ → Option (ℕ × ℕ) → Type 0
    IsBest i none = (j : ℕ) → j < i → is_cool (slot j) ≡ true
    IsBest i (some (b, r)) =
        (b < length p.keys)
        × (is_cool b ≡ false)
        × (r ≡ count b)
        × ((j : ℕ) → j < i → is_cool (slot j) ≡ false → r ≤ count (slot j))

    record Scanned (i : ℕ) (s : Scan) : Type 0 where
      same : (k : Text) → count_at now k s.0 ≡ count_at now k p.uses
      best : IsBest i s.1

    IsBest-skip :
        (i : ℕ) (o : Option (ℕ × ℕ)) → is_cool (slot i) ≡ true → IsBest i o → IsBest (i + 1) o
    IsBest-skip i none c h = λ j l. elim (split_last i j l) [ inl e ↦ rw e c | inr m ↦ h j m ]
    IsBest-skip i (some (b, r)) c h = (
      h.0,
      h.1,
      h.2,
      λ j l n. elim (split_last i j l) [ inl e ↦ absurd (clash j e n) | inr m ↦ h.3 j m n ],
    )
      where
        clash : (j : ℕ) → j ≡ i → is_cool (slot j) ≡ false → ⊥
        clash j e n = cc

    at_most : (i j r : ℕ) → r ≤ count (slot i) → j ≡ i → r ≤ count (slot j)
    at_most i j r h e = rw e h

    IsBest-take :
        (i : ℕ) (o : Option (ℕ × ℕ))
        → 0 < length p.keys
        → is_cool (slot i) ≡ false
        → IsBest i o
        → IsBest (i + 1) (better (slot i) (count (slot i)) o)
    IsBest-take i none n c h = (
      mod-lt _ n,
      c,
      refl,
      λ j l m. elim (split_last i j l) [
        | inl e ↦ at_most i j (count (slot i)) (omega arith) e
        | inr before ↦ absurd (cc (h j before))
      ],
    )
    IsBest-take i (some (b, r)) n c h = elim (Bool-cases (ltb (count (slot i)) r)) [
      | inl less ↦ rw less (
        mod-lt _ n,
        c,
        refl,
        λ j l m. elim (split_last i j l) [
          | inl e ↦ at_most i j (count (slot i)) (omega arith) e
          | inr before ↦ omega (arith, h.3 j before m, ltb→lt _ _ less)
        ],
      )
      | inr more ↦ rw more (
        h.0,
        h.1,
        h.2,
        λ j l m. elim (split_last i j l) [
          | inl e ↦ at_most i j r (ground arith) e
          | inr before ↦ h.3 j before m
        ],
      )
    ]

    visit-Scanned :
        (i : ℕ) (s : Scan)
        → 0 < length p.keys
        → Scanned i s
        → Scanned (i + 1) (visit now p.cool (slot i) (key (slot i)) s)
    unfolding visit
    visit-Scanned i (uses, o) n g = elim (Bool-cases (is_cool (slot i))) [
      | inl c ↦ rw c (record { same = g.same; best = IsBest-skip i o c g.best })
      | inr c ↦
          rw (c, g.same (key (slot i)))
            (record {
              same = λ k. count_at-window_reqs now (key (slot i)) k uses ∙ g.same k;
              best = IsBest-take i o n c g.best;
            })
    ]

    scan-Scanned :
        (rounds i : ℕ) (s : Scan)
        → 0 < length p.keys
        → Scanned i s
        → Scanned (i + rounds) (scan now p.cool p.keys start rounds i s)
    unfolding scan
    scan-Scanned zero i s n g = rw add-zero g
    scan-Scanned (suc rounds) i s n g =
        rw (add-suc, ← suc-add, ← add-one i)
          (scan-Scanned rounds (i + 1) (visit now p.cool (slot i) (key (slot i)) s) n
            (visit-Scanned i s n g))

    -- The rounds reach every index.
    slot_of :
        (j : ℕ)
        → start < length p.keys
        → j < length p.keys
        → (i : ℕ) × (i < length p.keys) × (slot i ≡ j)
    slot_of j s l = elim (dec_lt j start) [
      | yes under ↦
          let e : start + (j + length p.keys - start) ≡ j + length p.keys = omega arith in
          (j + length p.keys - start, omega arith, rw e (add-mod_right j _ ∙ mod-eq_of_lt l))
      | no over ↦
          let e : start + (j - start) ≡ j = omega arith in
          (j - start, omega arith, rw e (mod-eq_of_lt l))
    ]

    IsBest-all :
        (o : Option (ℕ × ℕ)) (uses : List (Text × KeyWindow))
        → start < length p.keys
        → IsBest (length p.keys) o
        → IsFair (choose p (uses, o))
    IsBest-all none uses s h =
        λ j l. let (i, m, e) = slot_of j s l in subst (λ t. is_cool t ≡ true) e (h i m)
    IsBest-all (some (b, r)) uses s h = (
      b,
      h.0,
      refl,
      h.1,
      λ j l.
          let (i, m, e) = slot_of j s l in
          subst (λ t. is_cool t ≡ false → count b ≤ count t) e (λ c. omega (arith, h.3 i m c, h.2)),
    )

    scan-IsFair :
        start < length p.keys
        → IsFair (choose p (scan now p.cool p.keys start (length p.keys) 0 (p.uses, none)))
    scan-IsFair s =
        let first : Scanned 0 (p.uses, none) = record {
          same = λ k. refl;
          best = λ j l. elim l [ ];
        } in
        let last = scan-Scanned (length p.keys) 0 (p.uses, none) (omega arith) first in
        let done = scan now p.cool p.keys start (length p.keys) 0 (p.uses, none) in
        IsBest-all done.1 done.0 s (subst (λ n. IsBest n done.1) (zero-add _) last.best)

some_key : (ks : List Text) → 0 < length ks → no_keys ks ≡ false
some_key [] n = elim n [ ]
some_key (k ∷ ks) n = refl

-- From a pool with keys, `Pick` returns a key of the pool that is not cooling, and no other such key
-- has fewer requests in its current window; it returns none exactly when all keys are cooling.
pub pick-IsFair : (now : Instant) (p : KeyPool) → 0 < length p.keys → IsFair now p (pick now p)
unfolding pick
pick-IsFair now p n =
    rw (some_key p.keys n) (scan-IsFair now p (p.next % length p.keys) (mod-lt p.next n))
