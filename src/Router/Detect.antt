-- ===== src/Router/Detect.antt =====
-- internal/router/capabilities.go: the media that `DetectRequiredModalities` returns.
use token_route.Base.{
  ℕ, ◌≡◌, refl, ◌∙◌, ap, arith, Bool, true, false, Bool-cases, ◌||◌, ◌&&◌, not, all, any, Option,
  none, some, List, [], ◌∷◌, ◌⊎◌, inl, inr,
}
use token_route.Base.Text.{Text, text_eq, text_eq_iff}
use token_route.Base.Json.{
  Json, null, bool, number, text, array, object, Items, no_items, item, Fields, no_fields,
  text_member, member,
}
use token_route.Base.Sort.{sort_by, insert_by}
use token_route.RetryPolicy.Defs.{is_blank}
use token_route.Router.Strategies.{text_lt}
use token_route.Router.Asked.{asks, block_modality-asks}
use token_route.Router.Media.{
  block_modality, block_of, blocks_in, list_or_nil, content_blocks, add_modality, collect_blocks,
  collect_messages, detect_required_modalities,
}

module _ {ℓ} {A : Type ℓ} where
  any-insert_by :
      (holds : A → Bool) (less : A → A → Bool) (x : A) (xs : List A)
      → any holds (insert_by less x xs) ≡ holds x || any holds xs
  unfolding insert_by
  any-insert_by holds less x [] = refl
  any-insert_by holds less x (y ∷ ys) = let rest = any-insert_by holds less x ys in ground arith

  any-sort_by :
      (holds : A → Bool) (less : A → A → Bool) (xs : List A)
      → any holds (sort_by less xs) ≡ any holds xs
  unfolding sort_by
  any-sort_by holds less [] = refl
  any-sort_by holds less (x ∷ xs) =
      let rest = any-sort_by holds less xs in
      let first = any-insert_by holds less x (sort_by less xs) in ground arith

or_assoc : (a b c : Bool) → ((a || b) || c) ≡ (a || (b || c))
or_assoc true b c = refl
or_assoc false b c = refl

abbrev elements : Items → List Json
elements no_items = []
elements (item v xs) = v ∷ elements xs

-- An object, or null in the place of one.
abbrev pub is_block : Json → Bool
is_block (object fs) = true
is_block null = true
is_block (array xs) = false
is_block (bool b) = false
is_block (number n) = false
is_block (text s) = false

module _ (lower : ℕ → ℕ) where
  -- What the code asks of a block; the empty text is no medium.
  abbrev required_by : Text → Fields → Bool
  required_by x b = not (is_blank (block_modality lower b)) && text_eq x (block_modality lower b)

  abbrev pub asks_in : Text → Json → Bool
  asks_in x (object fs) = asks lower x fs
  asks_in x null = false
  asks_in x (array xs) = false
  asks_in x (bool b) = false
  asks_in x (number n) = false
  asks_in x (text s) = false

  -- A message asks for a medium if its content is an array of nothing but objects and nulls, and one
  -- of the objects asks for it.
  abbrev pub message_asks : Text → Option Json → Bool
  message_asks x none = false
  message_asks x (some null) = false
  message_asks x (some (bool b)) = false
  message_asks x (some (number n)) = false
  message_asks x (some (text s)) = false
  message_asks x (some (object fs)) = false
  message_asks x (some (array xs)) = all is_block (elements xs) && any (asks_in x) (elements xs)

  -- How the elements of an array decode.
  Decodes : Text → Items → Type 0
  Decodes x xs =
      ((blocks_in xs ≡ none) × (all is_block (elements xs) ≡ false))
      ⊎ ((bs : List Fields) × (blocks_in xs ≡ some bs)
          × (all is_block (elements xs) ≡ true)
          × (any (required_by x) bs ≡ any (asks_in x) (elements xs)))

  block-Decodes :
      (x : Text) (v : Json) (b : Fields) (xs : Items)
      → block_of v ≡ some b
      → is_block v ≡ true
      → required_by x b ≡ asks_in x v
      → Decodes x xs
      → Decodes x (item v xs)
  unfolding Decodes
  block-Decodes x v b xs e ok same (inl (failed, mixed)) = inl (ground arith, ground arith)
  block-Decodes x v b xs e ok same (inr (bs, there, good, eq)) =
      inr (b ∷ bs, rw (e, there) refl, ground arith, ground arith)

  other-Decodes :
      (x : Text) (v : Json) (xs : Items)
      → block_of v ≡ none
      → is_block v ≡ false
      → Decodes x (item v xs)
  unfolding Decodes
  other-Decodes x v xs e bad = inl (rw e refl, ground arith)

  null_asks : (x : Text) → required_by x no_fields ≡ false
  unfolding block_modality text_member member
  null_asks x = refl

  array-Decodes : (x : Text) (xs : Items) → Decodes x xs
  unfolding Decodes
  array-Decodes x no_items = inr ([], refl, refl, refl)
  array-Decodes x (item (object fs) xs) =
      block-Decodes x (object fs) fs xs refl refl (block_modality-asks lower x fs)
        (array-Decodes x xs)
  array-Decodes x (item null xs) =
      block-Decodes x null no_fields xs refl refl (null_asks x) (array-Decodes x xs)
  array-Decodes x (item (array ys) xs) = other-Decodes x (array ys) xs refl refl
  array-Decodes x (item (bool b) xs) = other-Decodes x (bool b) xs refl refl
  array-Decodes x (item (number n) xs) = other-Decodes x (number n) xs refl refl
  array-Decodes x (item (text s) xs) = other-Decodes x (text s) xs refl refl

  array_asks :
      (x : Text) (xs : Items)
      → any (required_by x) (list_or_nil (blocks_in xs))
        ≡ all is_block (elements xs) && any (asks_in x) (elements xs)
  unfolding Decodes
  array_asks x xs = elim (array-Decodes x xs) [
    | inl (failed, mixed) ↦ rw (failed, mixed) refl
    | inr (bs, there, good, eq) ↦ rw (there, good) eq
  ]

  content_blocks-asks :
      (x : Text) (m : Option Json) → any (required_by x) (content_blocks m) ≡ message_asks x m
  unfolding content_blocks
  content_blocks-asks x none = refl
  content_blocks-asks x (some null) = refl
  content_blocks-asks x (some (bool b)) = refl
  content_blocks-asks x (some (number n)) = refl
  content_blocks-asks x (some (text s)) = refl
  content_blocks-asks x (some (object fs)) = refl
  content_blocks-asks x (some (array xs)) = array_asks x xs

  any-messages :
      (x : Text) (ms : List (Option Json))
      → any (λ m. any (required_by x) (content_blocks m)) ms ≡ any (message_asks x) ms
  any-messages x [] = refl
  any-messages x (m ∷ ms) = rw (content_blocks-asks x m, any-messages x ms) refl

  any-add_modality :
      (x medium : Text) (set : List Text)
      → any (text_eq x) (add_modality medium set)
        ≡ any (text_eq x) set || (not (is_blank medium) && text_eq x medium)
  any-add_modality x [] set = ground arith
  any-add_modality x (c ∷ m) set = elim (Bool-cases (any (text_eq (c ∷ m)) set)) [
    | inl e ↦ elim (Bool-cases (text_eq x (c ∷ m))) [
      | inl f ↦ let same = (text_eq_iff x (c ∷ m)).0 f in ground (arith, same)
      | inr f ↦ ground arith
    ]
    | inr e ↦ ground arith
  ]

  any-collect_blocks :
      (x : Text) (bs : List Fields) (set : List Text)
      → any (text_eq x) (collect_blocks lower bs set)
        ≡ any (text_eq x) set || any (required_by x) bs
  unfolding collect_blocks
  any-collect_blocks x [] set = ground arith
  any-collect_blocks x (b ∷ bs) set =
      any-collect_blocks x bs (add_modality (block_modality lower b) set)
      ∙ ap (λ k. k || any (required_by x) bs) (any-add_modality x (block_modality lower b) set)
      ∙ or_assoc (any (text_eq x) set) (required_by x b) (any (required_by x) bs)

  any-collect_messages :
      (x : Text) (ms : List (Option Json)) (set : List Text)
      → any (text_eq x) (collect_messages lower ms set)
        ≡ any (text_eq x) set || any (λ m. any (required_by x) (content_blocks m)) ms
  unfolding collect_messages
  any-collect_messages x [] set = ground arith
  any-collect_messages x (m ∷ ms) set =
      any-collect_messages x ms (collect_blocks lower (content_blocks m) set)
      ∙ ap (λ k. k || any (λ n. any (required_by x) (content_blocks n)) ms)
          (any-collect_blocks x (content_blocks m) set)
      ∙ or_assoc (any (text_eq x) set) (any (required_by x) (content_blocks m)) _

  -- `DetectRequiredModalities` returns a medium if and only if some message asks for it: its content
  -- is an array of objects, or nulls, and one of these asks for the medium, by its type or, for a file,
  -- by the MIME type that `blockMIME` finds in it; a file that this names no medium for counts as a
  -- PDF. A content with anything else in the array asks for nothing.
  pub detect_required_modalities-asks :
      (x : Text) (ms : List (Option Json))
      → any (text_eq x) (detect_required_modalities lower (some ms)) ≡ any (message_asks x) ms
  unfolding detect_required_modalities
  detect_required_modalities-asks x ms =
      any-sort_by (text_eq x) text_lt (collect_messages lower ms [])
      ∙ any-collect_messages x ms []
      ∙ any-messages x ms
