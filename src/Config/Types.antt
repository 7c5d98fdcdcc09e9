-- ===== src/Config/Types.antt =====
-- internal/config/config.go: the sections of the configuration, as the YAML decoder fills them in. A
-- pointer to a section is an `Option`, an object of free JSON the fields of one, and a map a list
-- that has each of its keys once.
use token_route.Base.{Bool, Option, List}
use token_route.Base.Int.{ℤ}
use token_route.Base.Text.{Text}
use token_route.Base.Json.{Fields}

pub record CircuitConfig (F : Type 0) : Type 0 where
  pub failure_threshold : ℤ
  pub cooldown_ms : ℤ
  pub auto_disable_after : ℤ
  pub mode : Text
  pub failure_percent : F
  pub min_requests : ℤ
  pub allowed_fails : List (Text × ℤ)

pub record HealthCheckConfig : Type 0 where
  pub enabled : Bool
  pub interval_ms : ℤ
  pub model : Text

pub record BalanceProbeConfig (F : Type 0) : Type 0 where
  pub url : Text
  pub interval_ms : ℤ
  pub min_usd : F

-- `Type` is `kind`.
pub record ProviderConfig (F : Type 0) : Type 0 where
  pub name : Text
  pub kind : Text
  pub base_url : Text
  pub api_key : Text
  pub api_keys : List Text
  pub priority : ℤ
  pub timeout_ms : ℤ
  pub response_header_timeout_ms : ℤ
  pub stream_idle_timeout_ms : ℤ
  pub model_mapping : List (Text × Text)
  pub circuit : Option (CircuitConfig F)
  pub quota_token_limit : ℤ
  pub quota_window_seconds : ℤ
  pub health_check : Option HealthCheckConfig
  pub param_override : Option Fields
  pub param_delete : Option (List Text)
  pub header_override : Option (List (Text × Text))
  pub header_pass : Option (List Text)
  pub balance_probe : Option (BalanceProbeConfig F)

pub record CandidateConfig : Type 0 where
  pub provider : Text
  pub model : Text
  pub weight : ℤ
  pub groups : List Text
  pub tags : List Text
  pub param_override : Option Fields

pub record FusionJudgeConfig : Type 0 where
  pub judge : Text
  pub min_panel : ℤ
  pub grace_ms : ℤ
  pub timeout_ms : ℤ

pub record AffinityConfig : Type 0 where
  pub enabled : Bool
  pub key_header : Text
  pub ttl_ms : ℤ
  pub skip_retry_on_failure : Bool

pub record RouteConfig (F : Type 0) : Type 0 where
  pub model : Text
  pub strategy : Text
  pub multiplier : F
  pub candidates : List CandidateConfig
  pub fallback_routes : List Text
  pub prompt_cache_affinity : Bool
  pub affinity : Option AffinityConfig
  pub hash_on : Text
  pub sticky : ℤ
  pub fusion_judge : Option FusionJudgeConfig

pub record FreeTierConfig : Type 0 where
  pub provider : Text
  pub model : Text
  pub monthly_tokens : ℤ

pub record PriceConfig (F : Type 0) : Type 0 where
  pub prompt_per_1m : F
  pub completion_per_1m : F
  pub embed_per_1m : F
  pub context_tokens : ℤ
  pub pricing_expr : Text  -- `Expr`

pub record CacheConfig : Type 0 where
  pub enabled : Bool
  pub ttl_seconds : ℤ

pub record SearchConfig : Type 0 where
  pub backend : Text
  pub api_key : Text
  pub api_keys : List Text

-- `Match` is `pattern_text`.
pub record FailureRuleConfig : Type 0 where
  pub pattern_text : Text
  pub status : ℤ
  pub cooldown_ms : ℤ
  pub backoff : Bool

pub record RetryPolicyConfig : Type 0 where
  pub retry_status_ranges : Text
  pub never_retry : List ℤ
  pub disable_status_ranges : Text
  pub disable_keywords : List Text

pub record Config (F : Type 0) : Type 0 where
  pub listen : Text
  pub admin_listen : Text
  pub usage_db : Text
  pub admin_key : Text
  pub max_body_mb : ℤ
  pub cache : CacheConfig
  pub model_catalog : Text
  pub pricing_sync : Text
  pub search : List SearchConfig
  pub providers : List (ProviderConfig F)
  pub routes : List (RouteConfig F)
  pub prices : List (Text × PriceConfig F)
  pub free_tier : List FreeTierConfig
  pub aliases : List (Text × Text)
  pub prompt_cache_affinity : Bool
  pub health_check : Option HealthCheckConfig
  pub retry_policy : Option RetryPolicyConfig
  pub group_ratio : List (Text × F)
  pub failure_rules : List FailureRuleConfig
