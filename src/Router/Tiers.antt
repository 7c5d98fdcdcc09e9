-- ===== src/Router/Tiers.antt =====
-- internal/router/capabilities.go: the two tiers of a stable reordering.
use token_route.Base.{
  ℕ, ◌≡◌, refl, sym, ap, ◌∙◌, Bool, true, false, ◌&&◌, ◌||◌, not, Option, none, some, List, [], ◌∷◌,
  ◌++◌, arith, ltb, length, all, any, map, Option-cases, if◌then◌else◌, Bool-cases, inl, inr,
}
use mathlib.Core.Path.{fun_ext}
use token_route.Base.Text.{Text, text_eq}
use token_route.Base.Sort.{sort_by, insert_by}
use token_route.Tags.Defs.{is_nil}
use token_route.Router.Defs.{Router, Candidate}
use token_route.Router.Caps.{
  covers_with, all_supported, covers_modalities, reorder_by_modalities, has_lookup,
}

module _ {ℓ} {A : Type ℓ} where
  -- The elements that `p` holds of, in their order.
  abbrev pub those : (A → Bool) → List A → List A
  those p [] = []
  those p (x ∷ xs) = let rest = those p xs in if p x then x ∷ rest else rest

  -- Those that `p` holds of, then the others.
  abbrev pub tiers : (A → Bool) → List A → List A
  tiers p xs = those p xs ++ those (λ x. not (p x)) xs

  abbrev ahead : (A → Bool) → A → A → Bool
  ahead p x y = p x && not (p y)

  insert_by-first :
      (p : A → Bool) (x : A) (ys : List A) → p x ≡ true → insert_by (ahead p) x ys ≡ x ∷ ys
  unfolding insert_by
  insert_by-first p x [] h = refl
  insert_by-first p x (y ∷ ys) h = ground arith

  insert_by-others :
      (p : A → Bool) (x : A) (zs : List A)
      → p x ≡ false
      → insert_by (ahead p) x (those (λ z. not (p z)) zs) ≡ x ∷ those (λ z. not (p z)) zs
  unfolding insert_by
  insert_by-others p x [] h = refl
  insert_by-others p x (z ∷ zs) h = ground (arith, insert_by-others p x zs h)

  insert_by-last :
      (p : A → Bool) (x : A) (xs zs : List A)
      → p x ≡ false
      → insert_by (ahead p) x (those p xs ++ those (λ z. not (p z)) zs)
        ≡ those p xs ++ (x ∷ those (λ z. not (p z)) zs)
  unfolding insert_by
  insert_by-last p x [] zs h = insert_by-others p x zs h
  insert_by-last p x (y ∷ xs) zs h = ground (arith, insert_by-last p x xs zs h)

  sort_by-tiers : (p : A → Bool) (xs : List A) → sort_by (ahead p) xs ≡ tiers p xs
  unfolding sort_by
  sort_by-tiers p [] = refl
  sort_by-tiers p (x ∷ xs) = elim (Bool-cases (p x)) [
    | inl e ↦ rw (sort_by-tiers p xs, e) (insert_by-first p x (tiers p xs) e)
    | inr e ↦ rw (sort_by-tiers p xs, e) (insert_by-last p x xs xs e)
  ]

  tiers_of_all : (p : A → Bool) (xs : List A) → ((x : A) → p x ≡ true) → tiers p xs ≡ xs
  tiers_of_all p [] h = refl
  tiers_of_all p (x ∷ xs) h = ground (arith, h x, tiers_of_all p xs h)

  tiers_of_few : (p : A → Bool) (xs : List A) → ltb (length xs) 2 ≡ true → tiers p xs ≡ xs
  tiers_of_few p [] h = refl
  tiers_of_few p (x ∷ []) h = ground arith
  tiers_of_few p (x ∷ y ∷ xs) h = ground arith

module _ (lower : ℕ → ℕ) where
  -- A model accepts all required media: some medium of the catalog's list for it, in upper or lower
  -- case, is the required one. A model that the catalog does not know accepts none; without a
  -- catalog every model accepts all.
  abbrev pub accepts : Option (Text → Option (List Text)) → List Text → Text → Bool
  accepts none required model = true
  accepts (some catalog) [] model = true
  accepts (some catalog) (need ∷ required) model = elim (catalog model) [
    | none ↦ false
    | some supported ↦
        all (λ wanted. any (λ have. text_eq (map lower have) (map lower wanted)) supported)
          (need ∷ required)
  ]

  all_supported-all :
      (supported required : List Text)
      → all_supported lower supported required
        ≡ all
            (λ wanted. any (λ have. text_eq (map lower have) (map lower wanted)) supported)
            required
  unfolding all_supported
  all_supported-all supported [] = refl
  all_supported-all supported (need ∷ required) =
      let rest = all_supported-all supported required in ground arith

  accepts_nothing :
      (o : Option (Text → Option (List Text))) (model : Text) → accepts o [] model ≡ true
  accepts_nothing none model = refl
  accepts_nothing (some catalog) model = refl

  not_reordered :
      (o : Option (Text → Option (List Text))) (required : List Text) (cs : List Candidate)
      → (is_nil required || ltb (length cs) 2 || not (has_lookup lower o)) ≡ true
      → tiers (λ c. accepts o required c.model) cs ≡ cs
  not_reordered o [] cs h = tiers_of_all _ cs (λ c. accepts_nothing o c.model)
  not_reordered none (need ∷ required) cs h = tiers_of_all _ cs (λ c. refl)
  not_reordered (some catalog) (need ∷ required) cs h = tiers_of_few _ cs (ground arith)

  module _ {F : Type 0} where
    covers-accepts :
        (r : Router F) (required : List Text) (model : Text)
        → covers_modalities lower r required model ≡ accepts r.modalities required model
    unfolding covers_modalities
    covers-accepts r required model = covered r.modalities required model
      where
        covered :
            (o : Option (Text → Option (List Text))) (required : List Text) (model : Text)
            → (if is_nil required then true else covers_with lower o model required)
              ≡ accepts o required model
        covered none [] model = refl
        covered none (need ∷ required) model = refl
        covered (some catalog) [] model = refl
        covered (some catalog) (need ∷ required) model = elim (Option-cases (catalog model)) [
          | inl e ↦ rw e refl
          | inr (supported, e) ↦ rw e (all_supported-all supported (need ∷ required))
        ]

    -- The reordering puts the candidates whose model accepts all required media first and the others
    -- behind them, and keeps the strategy's order in both tiers. With no required media, and with no
    -- catalog, it keeps the whole order.
    pub reorder_by_modalities-tiers :
        (r : Router F) (required : List Text) (cs : List Candidate)
        → (reorder_by_modalities lower r required cs
            ≡ tiers (λ c. accepts r.modalities required c.model) cs)
          × (reorder_by_modalities lower r [] cs ≡ cs)
          × (reorder_by_modalities lower (record r { modalities = none }) required cs ≡ cs)
    unfolding reorder_by_modalities
    reorder_by_modalities-tiers r required cs = (
      elim (Bool-cases
          (is_nil required || ltb (length cs) 2 || not (has_lookup lower r.modalities))) [
            | inl skip ↦ rw skip (sym (not_reordered r.modalities required cs skip))
            | inr go ↦ rw go (
                sort_by-tiers _ cs
                ∙ ap (λ (p : Candidate → Bool). tiers p cs)
                    (fun_ext (λ (c : Candidate). covers-accepts r required c.model)))
          ],
      refl,
      ground arith,
    )
