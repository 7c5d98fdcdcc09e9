-- ===== src/Failure.antt =====
-- internal/router/failure.go: the kinds of upstream failure.
use token_route.Base.{ℕ, ◌≡◌, ◌↔◌, Bool, true, arith, ◌==◌}
use token_route.Base.Dict.{Key}

pub data FailureKind : Type 0 where
  unknown auth permission rate_limit quota_exhausted timeout provider_5xx : FailureKind
  invalid_request model_unavailable network : FailureKind

-- The values of the `iota` block.
abbrev pub kind_index : FailureKind → ℕ
kind_index unknown = 0
kind_index auth = 1
kind_index permission = 2
kind_index rate_limit = 3
kind_index quota_exhausted = 4
kind_index timeout = 5
kind_index provider_5xx = 6
kind_index invalid_request = 7
kind_index model_unavailable = 8
kind_index network = 9

abbrev pub kind_eq : FailureKind → FailureKind → Bool
kind_eq a b = kind_index a == kind_index b

pub kind_eq_iff : (a b : FailureKind) → (kind_eq a b ≡ true) ↔ (a ≡ b)
kind_eq_iff a b = ground arith

instance abbrev pub kind_key : Key FailureKind
kind_key = record { same = kind_eq; same_iff = kind_eq_iff }

pub record Failure : Type 0 where
  pub kind : FailureKind
  pub retryable : Bool
