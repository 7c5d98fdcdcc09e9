-- ===== src/Command/Outcomes.antt =====
-- cmd/tokenroute/main.go: reasoning about chains of steps that may fail.
use mathlib.Core.Path.{subst}
use token_route.Base.{◌≡◌, refl, ap, true, ◌⊎◌, inl, inr}
use token_route.Command.State.{BuildError, Result, ok, err, ◌>>=◌, is_ok}

-- What holds of the result, if there is one.
unfoldable pub Every : {A : Type 0} (holds : A → Type 0) → Result A → Type 0
Every holds (ok a) = holds a
Every holds (err e) = Unit

pub bind-Every :
    {A B : Type 0} (holds : B → Type 0) (r : Result A) (next : A → Result B)
    → ((a : A) → Every holds (next a))
    → Every holds (r >>= next)
unfolding Every
bind-Every holds (ok a) next h = h a
bind-Every holds (err e) next h = tt

abbrev unwrap : {A : Type 0} → A → Result A → A
unwrap default (ok a) = a
unwrap default (err e) = default

pub Every-ok :
    {A : Type 0} (holds : A → Type 0) (r : Result A) (a : A) → r ≡ ok a → Every holds r → holds a
unfolding Every
Every-ok holds (ok b) a h every = subst holds (ap (unwrap b) h) every
Every-ok holds (err e) a h every = cc

pub Result-cases :
    {A : Type 0} (r : Result A) → ((e : BuildError) × (r ≡ err e)) ⊎ ((a : A) × (r ≡ ok a))
Result-cases (ok a) = inr (a, refl)
Result-cases (err e) = inl (e, refl)

-- The result of a chain that succeeds.
pub is_ok-value : {A : Type 0} (r : Result A) → is_ok r ≡ true → (a : A) × (r ≡ ok a)
is_ok-value (ok a) h = (a, refl)
is_ok-value (err e) h = cc
