-- ===== src/Tags/Laws.antt =====
-- internal/router/tags.go: what a selector admits.
use mathlib.Core.List.{Memᴰ}
use token_route.Base.{
  ◌≡◌, ◌↔◌, true, ◌&&◌, some, List, [], ◌∷◌, arith, refl, sym, Bool-cases, inl, inr,
}
use token_route.Base.Text.{Text, text_eq, text_eq_iff}
use token_route.Tags.Defs.{TagSelector, have, all_have, none_have, match_tags, is_nil}

have-Memᴰ : (tags : List Text) (t : Text) → have tags t ≡ true → Memᴰ t tags
unfolding have
have-Memᴰ [] t h = cc
have-Memᴰ (u ∷ tags) t h = elim (Bool-cases (text_eq u t)) [
  | inl e ↦ Memᴰ.head (sym ((text_eq_iff u t).0 e))
  | inr n ↦ Memᴰ.tail (have-Memᴰ tags t (ground arith))
]

Memᴰ-have : (tags : List Text) (t : Text) → Memᴰ t tags → have tags t ≡ true
unfolding have
Memᴰ-have [] t m = elim m [ ]
Memᴰ-have (u ∷ tags) t (Memᴰ.head e) = ground (arith, text_eq_iff u t)
Memᴰ-have (u ∷ tags) t (Memᴰ.tail m) = ground (arith, Memᴰ-have tags t m)

all_have-sound :
    (tags ts : List Text) → all_have tags ts ≡ true → (t : Text) → Memᴰ t ts → Memᴰ t tags
unfolding all_have
all_have-sound tags [] h t m = elim m [ ]
all_have-sound tags (u ∷ ts) h t (Memᴰ.head e) = rw e (have-Memᴰ tags u (ground arith))
all_have-sound tags (u ∷ ts) h t (Memᴰ.tail m) = all_have-sound tags ts (ground arith) t m

all_have_complete :
    (tags ts : List Text) → ((t : Text) → Memᴰ t ts → Memᴰ t tags) → all_have tags ts ≡ true
unfolding all_have
all_have_complete tags [] h = refl
all_have_complete tags (u ∷ ts) h =
    rw (Memᴰ-have tags u (h u (Memᴰ.head refl)))
      (all_have_complete tags ts (λ t m. h t (Memᴰ.tail m)))

none_have_sound :
    (tags ts : List Text) → none_have tags ts ≡ true → (t : Text) → Memᴰ t ts → ¬ Memᴰ t tags
unfolding none_have
none_have_sound tags [] h t m = elim m [ ]
none_have_sound tags (u ∷ ts) h t (Memᴰ.head e) = λ m. ground (arith, Memᴰ-have tags u (rw (← e) m))
none_have_sound tags (u ∷ ts) h t (Memᴰ.tail m) = none_have_sound tags ts (ground arith) t m

none_have_complete :
    (tags ts : List Text) → ((t : Text) → Memᴰ t ts → ¬ Memᴰ t tags) → none_have tags ts ≡ true
unfolding none_have
none_have_complete tags [] h = refl
none_have_complete tags (u ∷ ts) h = elim (Bool-cases (have tags u)) [
  | inl there ↦ absurd (h u (Memᴰ.head refl) (have-Memᴰ tags u there))
  | inr gone ↦ rw gone (none_have_complete tags ts (λ t m. h t (Memᴰ.tail m)))
]

-- A selector admits a candidate exactly when the candidate carries every required tag, no excluded
-- tag and every plain tag.
pub match_tags_iff :
    (sel : TagSelector) (tags : List Text)
    → (match_tags (some sel) tags ≡ true) ↔ (
        ((t : Text) → Memᴰ t sel.require → Memᴰ t tags)
        × ((t : Text) → Memᴰ t sel.exclude → ¬ Memᴰ t tags)
        × ((t : Text) → Memᴰ t sel.plain → Memᴰ t tags))
unfolding match_tags
match_tags_iff sel tags = (
  (λ h. (
    all_have-sound tags sel.require (ground arith),
    none_have_sound tags sel.exclude (ground arith),
    all_have-sound tags sel.plain (ground arith),
  )),
  λ h. rw (
    all_have_complete tags sel.require h.0,
    none_have_complete tags sel.exclude h.1,
    all_have_complete tags sel.plain h.2,
  ),
)

all_have_untagged : (ts : List Text) → all_have [] ts ≡ is_nil ts
unfolding all_have have
all_have_untagged [] = refl
all_have_untagged (t ∷ ts) = refl

none_have_untagged : (ts : List Text) → none_have [] ts ≡ true
unfolding none_have have
none_have_untagged [] = refl
none_have_untagged (t ∷ ts) = none_have_untagged ts

-- A candidate with no tags passes a selector exactly when that has no required and no plain tag.
pub match_tags_untagged :
    (sel : TagSelector) → match_tags (some sel) [] ≡ (is_nil sel.require && is_nil sel.plain)
unfolding match_tags
match_tags_untagged sel = ground (
  arith,
  all_have_untagged sel.require,
  none_have_untagged sel.exclude,
  all_have_untagged sel.plain,
)
