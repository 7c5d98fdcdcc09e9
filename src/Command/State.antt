-- ===== src/Command/State.antt =====
-- cmd/tokenroute/main.go: `serverState`, and the providers that a configuration is built into. A pointer
-- to a service of the process is its identity, a number, and `none` while it is nil; the overrides,
-- which the source keeps in the router, stand beside it.
use token_route.Base.{ℕ, Bool, true, false, Option, List}
use token_route.Base.Int.{ℤ}
use token_route.Base.Text.{Text}
use token_route.Base.Json.{Fields}
use token_route.KeyPool.Defs.{KeyPool}
use token_route.Prices.{PriceStore}
use token_route.RetryPolicy.Defs.{RetryPolicy, PolicyError}
use token_route.FailureRules.Defs.{RuleError}
use token_route.Router.Defs.{Router}
use token_route.Server.Cache.{RespCache}

pub data Adapter : Type 0 where
  openai anthropic gemini : Adapter

-- What `openai.New`, `anthropic.New` and `gemini.New` are given.
pub record AdapterConfig : Type 0 where
  pub name : Text
  pub base_url : Text
  pub api_key : Text
  pub api_keys : List Text
  pub priority : ℤ
  pub timeout_ms : ℤ
  pub response_header_timeout_ms : ℤ

pub data Backend : Type 0 where
  tavily brave exa : Backend

-- `router.ProviderOverride`
pub record ProviderOverride : Type 0 where
  pub param_set : Option Fields
  pub param_del : Option (List Text)
  pub header_set : Option (List (Text × Text))
  pub header_pass : Option (List Text)

-- `usage`, `keys`, `limiter` and `metrics`, which live as long as the process.
pub record Services : Type 0 where
  pub usage : ℕ
  pub keys : ℕ
  pub limiter : ℕ
  pub metrics : ℕ

pub record ServerState (F : Type 0) : Type 0 where
  pub router : Router F
  pub overrides : List (Text × ProviderOverride)
  pub adapters : List (Adapter × AdapterConfig)
  pub services : Option Services
  pub prices : PriceStore F
  pub admin_key : Text
  pub cache : Option RespCache
  pub stream_idle_ms : List (Text × ℤ)
  pub provider_types : List (Text × Text)
  pub retry_policy : Option RetryPolicy
  pub group_ratio : List (Text × F)
  pub max_body_mb : ℤ
  pub search_backends : List (Backend × KeyPool)
  pub modalities : Option (Text → Option (List Text))
  pub workers_cancel : Option ℕ

-- Why no state is built. A candidate with the nil provider is no error of the source, which would
-- dereference it as soon as the router sorts or tries it.
pub data BuildError : Type 0 where
  unknown_type : Text → Text → BuildError
  nil_provider : Text → BuildError
  unknown_backend : Text → BuildError
  policy_refused : PolicyError → BuildError
  rules_refused : RuleError → BuildError

pub data Result {ℓ} (A : Type ℓ) : Type ℓ where
  ok : A → Result A
  err : BuildError → Result A

infixl 5 ◌>>=◌
abbrev pub ◌>>=◌ {ℓ κ} : {A : Type ℓ} {B : Type κ} → Result A → (A → Result B) → Result B
ok a >>= f = f a
err e >>= f = err e

abbrev pub is_ok {ℓ} : {A : Type ℓ} → Result A → Bool
is_ok (ok a) = true
is_ok (err e) = false
