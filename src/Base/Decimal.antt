-- ===== src/Base/Decimal.antt =====
-- Reading a number back from its decimal digits.
use native.Mathlib.Numerals.{add-one, add-two}
use token_route.Base.{
  ℕ, zero, suc, ◌+◌, ◌*◌, ◌/◌, ◌%◌, ◌<◌, ◌≡◌, Bool, true, ◌&&◌, not, some, [], ◌∷◌, ◌++◌, arith,
  refl, ap, ◌∙◌, sym, ltb, ltb→lt, ◌==◌, Bool-cases, inl, inr,
}
use token_route.Base.Int.{ℤ, pos, negsuc}
use token_route.Base.Text.{Text, text_eq, has_prefix, digits_value, atoi, put_digits, format_int}

digits_value-cons :
    (acc d : ℕ) (s : Text)
    → d < 10
    → digits_value acc ((b'0' + d) ∷ s) ≡ digits_value (acc * 10 + d) s
unfolding digits_value
digits_value-cons acc d s h = ground arith

put_digits-value :
    (fuel n : ℕ) (s : Text) → n < fuel → digits_value 0 (put_digits fuel n s) ≡ digits_value n s
unfolding put_digits digits_value
put_digits-value zero n s h = elim h [ ]
put_digits-value (suc fuel) n s h = elim (Bool-cases (ltb n 10)) [
  | inl small ↦ rw small (
      digits_value-cons 0 (n % 10) s (omega arith)
      ∙ ap (λ k. digits_value k s) (omega (arith, ltb→lt n 10 small)))
  | inr large ↦ rw large (
      put_digits-value fuel (n / 10) ((b'0' + n % 10) ∷ s) (ground arith)
      ∙ digits_value-cons (n / 10) (n % 10) s (omega arith)
      ∙ ap (λ k. digits_value k s) (omega arith))
]

put_digits-cons :
    (fuel n c : ℕ) (s : Text) → (d : ℕ) × (t : Text) × (put_digits fuel n (c ∷ s) ≡ d ∷ t)
unfolding put_digits
put_digits-cons zero n c s = (c, s, refl)
put_digits-cons (suc fuel) n c s = elim (Bool-cases (ltb n 10)) [
  | inl small ↦ (b'0' + n % 10, c ∷ s, rw small)
  | inr large ↦
      let (d, t, e) = put_digits-cons fuel (n / 10) (b'0' + n % 10) (c ∷ s) in (d, t, rw large e)
]

put_digits-nonempty : (fuel n : ℕ) → (d : ℕ) × (t : Text) × (put_digits (suc fuel) n [] ≡ d ∷ t)
unfolding put_digits
put_digits-nonempty fuel n = elim (Bool-cases (ltb n 10)) [
  | inl small ↦ (b'0' + n % 10, [], rw small)
  | inr large ↦
      let (d, t, e) = put_digits-cons fuel (n / 10) (b'0' + n % 10) [] in (d, t, rw large e)
]

atoi_digits :
    (c : ℕ) (s : Text) (n : ℕ) → digits_value 0 (c ∷ s) ≡ some n → atoi (c ∷ s) ≡ some (pos n)
unfolding atoi
atoi_digits c s n h = ground arith

atoi_minus :
    (c : ℕ) (s : Text) (n : ℕ)
    → digits_value 0 (c ∷ s) ≡ some (suc n)
    → atoi (b'-' ∷ c ∷ s) ≡ some (negsuc n)
unfolding atoi
atoi_minus c s n h = rw h (ground arith)

-- A number is read back from the text that it is printed as.
pub atoi-format_int : (n : ℤ) → atoi (format_int n) ≡ some n
unfolding format_int digits_value
atoi-format_int (pos n) =
    let (c, s, e) = put_digits-nonempty n n in
    rw (add-one n, e)
      (atoi_digits c s n
        (sym (ap (digits_value 0) e) ∙ put_digits-value (suc n) n [] (omega arith)))
atoi-format_int (negsuc n) =
    let (c, s, e) = put_digits-nonempty (suc n) (suc n) in
    rw (add-two n, add-one n, e)
      (atoi_minus c s n
        (sym (ap (digits_value 0) e) ∙ put_digits-value (suc (suc n)) (suc n) [] (omega arith)))

abbrev pub colon_free : Text → Bool
colon_free [] = true
colon_free (c ∷ s) = not (c == b':') && colon_free s

put_digits-colon_free :
    (fuel n : ℕ) (s : Text) → colon_free s ≡ true → colon_free (put_digits fuel n s) ≡ true
unfolding put_digits
put_digits-colon_free zero n s h = h
put_digits-colon_free (suc fuel) n s h =
    ground (arith, put_digits-colon_free fuel (n / 10) ((b'0' + n % 10) ∷ s))

-- Up to a colon, a prefix is the whole of what stands before the colon.
pub has_prefix-colon :
    (a b m : Text)
    → colon_free a ≡ true
    → colon_free b ≡ true
    → has_prefix (a ++ b':' ∷ m) (b ++ b':' ∷ []) ≡ text_eq a b
unfolding has_prefix
has_prefix-colon [] [] m h k = refl
has_prefix-colon [] (d ∷ b) m h k = ground arith
has_prefix-colon (c ∷ a) [] m h k = ground arith
has_prefix-colon (c ∷ a) (d ∷ b) m h k = ground (arith, has_prefix-colon a b m)

pub format_int-colon_free : (n : ℤ) → colon_free (format_int n) ≡ true
unfolding format_int
format_int-colon_free (pos n) = put_digits-colon_free (n + 1) n [] refl
format_int-colon_free (negsuc n) = put_digits-colon_free (n + 2) (n + 1) [] refl

pub format_int-injective : (a b : ℤ) → format_int a ≡ format_int b → a ≡ b
format_int-injective a b e = cc (atoi-format_int a, atoi-format_int b)
