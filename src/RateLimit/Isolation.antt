-- ===== src/RateLimit/Isolation.antt =====
-- internal/ratelimit/ratelimit.go: what a key's calls leave of the other keys' buckets.
use mathlib.Core.List.{append_assoc}
use token_route.Base.{
  ◌∙◌, ◌≡◌, false, none, List, [], ◌∷◌, ◌++◌, ◌||◌, Bool-cases, inl, inr, arith, refl,
  if◌then◌else◌,
}
use token_route.Base.Int.{ℤ, pos, eqb_ℤ, leb_ℤ}
use token_route.Base.Text.{Text, codes, text_eq, text_eq_iff, has_prefix, format_int}
use token_route.Base.Decimal.{has_prefix-colon, format_int-colon_free, format_int-injective}
use token_route.Base.Time.{Instant}
use token_route.Base.Dict.{
  lookup, insert, text_key, int_key, eqb_ℤ_iff, lookup-insert, lookup-delete,
}
use token_route.Base.Float.{Float64}
use token_route.RateLimit.Bucket.{TokenBucket}
use token_route.RateLimit.Registry.{
  Registry, Buckets, drop_prefix, key_prefix, invalidate, get, allow_rpm, deduct_tpm,
  allow_model_rpm,
}

lookup-drop_prefix :
    {F : Type 0} (p k : Text) (m : List (Text × TokenBucket F))
    → lookup k (drop_prefix p m) ≡ (if has_prefix k p then none else lookup k m)
unfolding lookup drop_prefix
lookup-drop_prefix p k [] = ground arith
lookup-drop_prefix p k ((j, b) ∷ m) = ground (arith, text_eq_iff j k, lookup-drop_prefix p k m)

format_int-eq : (a b : ℤ) → text_eq (format_int a) (format_int b) ≡ eqb_ℤ a b
format_int-eq a b =
    ground
      (arith, text_eq_iff (format_int a) (format_int b), eqb_ℤ_iff a b, format_int-injective a b)

has_prefix-key_prefix :
    (id other : ℤ) (model : Text)
    → has_prefix (key_prefix other ++ model) (key_prefix id) ≡ eqb_ℤ other id
unfolding key_prefix
has_prefix-key_prefix id other model = rw (append_assoc (format_int other) (codes ":") model) (
    has_prefix-colon (format_int other) (format_int id) model (format_int-colon_free other)
      (format_int-colon_free id)
    ∙ format_int-eq other id)

-- `Invalidate` drops all buckets of its key, those for single models included, and keeps every
-- bucket of every other key: no key's number is the beginning of another's entry.
pub invalidate-lookup :
    {F : Type 0} (id other : ℤ) (model : Text) (r : Registry F)
    → (lookup other (invalidate id r).by_id
        ≡ (if eqb_ℤ id other then none else lookup other r.by_id))
      × (lookup (key_prefix other ++ model) (invalidate id r).model_rpm
          ≡ (if eqb_ℤ id other then none else lookup (key_prefix other ++ model) r.model_rpm))
unfolding invalidate
invalidate-lookup id other model r = (
  lookup-delete id other r.by_id,
  ground (
    arith,
    lookup-drop_prefix (key_prefix id) (key_prefix other ++ model) r.model_rpm,
    has_prefix-key_prefix id other model,
  ),
)

insert_other :
    {F : Type 0} (id other : ℤ) (b : Buckets F) (m : List (ℤ × Buckets F))
    → eqb_ℤ id other ≡ false
    → lookup other (insert id b m) ≡ lookup other m
insert_other id other b m h = ground (arith, lookup-insert id other b m)

insert_entry :
    {F : Type 0} (k entry : Text) (b : TokenBucket F) (m : List (Text × TokenBucket F))
    → text_eq k entry ≡ false
    → lookup entry (insert k b m) ≡ lookup entry m
insert_entry k entry b m h = ground (arith, lookup-insert k entry b m)

module _ (fl : Float64) where
  open fl use {F}

  get_other :
      (now : Instant) (id other rpm tpm : ℤ) (r : Registry F)
      → eqb_ℤ id other ≡ false
      → lookup other (get fl now id rpm tpm r).0.by_id ≡ lookup other r.by_id
  unfolding get
  get_other now id other rpm tpm r h = insert_other id other _ r.by_id h

  -- A call for one key leaves the buckets of every other key as they are, and a call for a key and a
  -- model those of every other entry.
  pub other_buckets :
      (now : Instant) (id other limit n : ℤ) (model entry : Text) (r : Registry F)
      → eqb_ℤ id other ≡ false
      → text_eq (key_prefix id ++ model) entry ≡ false
      → (lookup other (allow_rpm fl now id limit r).0.by_id ≡ lookup other r.by_id)
        × (lookup other (deduct_tpm fl now id limit n r).by_id ≡ lookup other r.by_id)
        × (lookup entry (allow_model_rpm fl now id model limit r).0.model_rpm
            ≡ lookup entry r.model_rpm)
        × ((allow_model_rpm fl now id model limit r).0.by_id ≡ r.by_id)
  unfolding allow_rpm deduct_tpm allow_model_rpm
  other_buckets now id other limit n model entry r h k = (
    elim (Bool-cases (leb_ℤ limit (pos 0))) [
      | inl e ↦ rw e refl
      | inr e ↦ rw e (insert_other id other _ _ h ∙ get_other now id other limit (pos 0) r h)
    ],
    elim (Bool-cases (leb_ℤ limit (pos 0) || leb_ℤ n (pos 0))) [
      | inl e ↦ rw e refl
      | inr e ↦ rw e (insert_other id other _ _ h ∙ get_other now id other (pos 0) limit r h)
    ],
    elim (Bool-cases (leb_ℤ limit (pos 0))) [
      | inl e ↦ rw e refl
      | inr e ↦ rw e (insert_entry (key_prefix id ++ model) entry _ r.model_rpm k)
    ],
    ground arith,
  )
