-- ===== src/Base/Sort.antt =====
-- `sort.SliceStable` on a strict weak order, and the rearrangements of a list that the program makes.
use token_route.Base.{
  ℕ, zero, suc, Bool, true, false, ◌≡◌, List, [], ◌∷◌, ◌++◌, if◌then◌else◌, Option, none, some,
  take, drop, Bool-cases, inl, inr, take-append-drop,
}
use mathlib.Core.List.{Perm, Pairwise, Pairwise-singleton, perm_append_comm, Mem, forall_mem-cons}
use mathlib.Core.List.Perm

module _ {ℓ} {A : Type ℓ} where
  -- An element goes before the first one that is not less than it.
  unfoldable pub insert_by : (A → A → Bool) → A → List A → List A
  insert_by less x [] = x ∷ []
  insert_by less x (y ∷ ys) =
      let rest = insert_by less x ys in if less y x then y ∷ rest else x ∷ y ∷ ys

  -- From the right, so that equal elements keep their order.
  unfoldable pub sort_by : (A → A → Bool) → List A → List A
  sort_by less [] = []
  sort_by less (x ∷ xs) = insert_by less x (sort_by less xs)

  -- `append(xs[n:], xs[:n]...)`
  unfoldable pub rotate : ℕ → List A → List A
  rotate n xs = drop n xs ++ take n xs

  abbrev pub behind : A → Option (A × List A) → Option (A × List A)
  behind x none = none
  behind x (some (y, ys)) = some (y, x ∷ ys)

  -- The element at an index, and the list without it.
  unfoldable pub pull : ℕ → List A → Option (A × List A)
  pull i [] = none
  pull zero (x ∷ xs) = some (x, xs)
  pull (suc i) (x ∷ xs) = behind x (pull i xs)

  abbrev pub cons_pulled : List A → Option (A × List A) → List A
  cons_pulled xs none = xs
  cons_pulled xs (some (y, ys)) = y ∷ ys

  -- The element at an index is put first, and the others keep their order.
  unfoldable pub move_front : ℕ → List A → List A
  unfolding pull
  move_front i xs = cons_pulled xs (pull i xs)

  insert_by-perm : (less : A → A → Bool) (x : A) (xs : List A) → Perm (insert_by less x xs) (x ∷ xs)
  unfolding insert_by
  insert_by-perm less x [] = Perm.rfl
  insert_by-perm less x (y ∷ ys) = elim (Bool-cases (less y x)) [
    | inl e ↦ rw e (Perm.trans (Perm.cons y (insert_by-perm less x ys)) (Perm.swap x y ys))
    | inr e ↦ rw e Perm.rfl
  ]

  pub sort_by-perm : (less : A → A → Bool) (xs : List A) → Perm (sort_by less xs) xs
  unfolding sort_by
  sort_by-perm less [] = Perm.rfl
  sort_by-perm less (x ∷ xs) =
      Perm.trans (insert_by-perm less x (sort_by less xs)) (Perm.cons x (sort_by-perm less xs))

  pub rotate-perm : (n : ℕ) (xs : List A) → Perm (rotate n xs) xs
  unfolding rotate
  rotate-perm n xs =
      Perm.trans (perm_append_comm (drop n xs) (take n xs)) (rw (take-append-drop n xs) Perm.rfl)

  behind-perm :
      (x : A) (xs : List A) (o : Option (A × List A))
      → Perm (cons_pulled xs o) xs
      → Perm (cons_pulled (x ∷ xs) (behind x o)) (x ∷ xs)
  behind-perm x xs none h = Perm.rfl
  behind-perm x xs (some (y, ys)) h = Perm.trans (Perm.swap x y ys) (Perm.cons x h)

  pub pull-perm : (i : ℕ) (xs : List A) → Perm (cons_pulled xs (pull i xs)) xs
  unfolding pull
  pull-perm i [] = Perm.rfl
  pull-perm zero (x ∷ xs) = Perm.rfl
  pull-perm (suc i) (x ∷ xs) = behind-perm x xs (pull i xs) (pull-perm i xs)

  pub move_front-perm : (i : ℕ) (xs : List A) → Perm (move_front i xs) xs
  unfolding move_front
  move_front-perm i xs = pull-perm i xs

  -- No element is less than one before it.
  abbrev pub IsOrdered : (A → A → Bool) → List A → Type ℓ
  IsOrdered less = Pairwise (λ a b. less b a ≡ false)

  -- A strict weak order, as `sort` asks for one.
  pub record IsWeakOrder (less : A → A → Bool) : Type ℓ where
    pub irrefl : (a b : A) → less a b ≡ true → less b a ≡ false
    pub negative : (a b c : A) → less b a ≡ false → less c b ≡ false → less c a ≡ false

  -- What `Pairwise.cons` asks of a new head.
  abbrev IsBelow : (A → A → Bool) → A → List A → Type ℓ
  IsBelow less a xs = (b : A) → Mem b xs → less b a ≡ false

  IsBelow-cons :
      (less : A → A → Bool) (a x : A) (xs : List A)
      → less x a ≡ false
      → IsBelow less a xs
      → IsBelow less a (x ∷ xs)
  IsBelow-cons less a x xs h k = (forall_mem-cons (λ b. hlevel)).1 (h, k)

  module _ (less : A → A → Bool) (o : IsWeakOrder less) where
    insert_by-IsBelow :
        (a x : A) (xs : List A)
        → less x a ≡ false
        → IsBelow less a xs
        → IsBelow less a (insert_by less x xs)
    insert_by-IsBelow a x xs h k b m =
        IsBelow-cons less a x xs h k b (Perm.subset (insert_by-perm less x xs) b m)

    insert_by-IsOrdered :
        (x : A) {xs : List A} → IsOrdered less xs → IsOrdered less (insert_by less x xs)
    unfolding insert_by
    insert_by-IsOrdered x Pairwise.nil = Pairwise-singleton _ x
    insert_by-IsOrdered x (Pairwise.cons {a = y} {l = ys} below s) = elim (Bool-cases (less y x)) [
      | inl e ↦ rw e (
          Pairwise.cons (insert_by-IsBelow y x ys (o.irrefl y x e) below) (insert_by-IsOrdered x s))
      | inr e ↦ rw e (
          Pairwise.cons (IsBelow-cons less x y ys e (λ b m. o.negative x y b e (below b m)))
            (Pairwise.cons below s))
    ]

    pub sort_by-IsOrdered : (xs : List A) → IsOrdered less (sort_by less xs)
    unfolding sort_by
    sort_by-IsOrdered [] = Pairwise.nil
    sort_by-IsOrdered (x ∷ xs) = insert_by-IsOrdered x (sort_by-IsOrdered xs)
