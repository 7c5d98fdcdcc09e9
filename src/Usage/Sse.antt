-- ===== src/Usage/Sse.antt =====
-- internal/usage/sse.go: the usage object of an upstream, and the tracker that reads it off a stream. The
-- decoder of encoding/json is the parameter `unmarshal`.
use token_route.Base.{Option, none, some, drop, if◌then◌else◌}
use token_route.Base.Int.{ℤ, pos, ltb_ℤ}
use token_route.Base.Text.{Text, codes, text_eq, has_prefix, trim_space}

pub record PromptDetails : Type 0 where
  pub cached_tokens : ℤ
  pub audio_tokens : ℤ
  pub image_tokens : ℤ

pub record CompDetails : Type 0 where
  pub audio_tokens : ℤ

pub record Usage : Type 0 where
  pub prompt_tokens : ℤ
  pub completion_tokens : ℤ
  pub total_tokens : ℤ
  pub prompt_tokens_details : Option PromptDetails
  pub completion_tokens_details : Option CompDetails
  pub cache_creation_input_tokens : ℤ
  pub cache_read_input_tokens : ℤ
  pub cache_creation_tokens : ℤ

abbrev prompt_detail : (PromptDetails → ℤ) → Option PromptDetails → ℤ
prompt_detail f none = pos 0
prompt_detail f (some d) = f d

-- `CacheRead`
unfoldable pub cache_read : Usage → ℤ
cache_read u =
    if ltb_ℤ (pos 0) u.cache_read_input_tokens
    then u.cache_read_input_tokens
    else prompt_detail (λ d. d.cached_tokens) u.prompt_tokens_details

-- `CacheCreate`
unfoldable pub cache_create : Usage → ℤ
cache_create u =
    if ltb_ℤ (pos 0) u.cache_creation_input_tokens
    then u.cache_creation_input_tokens
    else u.cache_creation_tokens

-- `ImageTokens`
unfoldable pub image_tokens : Usage → ℤ
image_tokens u = prompt_detail (λ d. d.image_tokens) u.prompt_tokens_details

-- `AudioIn`
unfoldable pub audio_in : Usage → ℤ
audio_in u = prompt_detail (λ d. d.audio_tokens) u.prompt_tokens_details

-- `AudioOut`
unfoldable pub audio_out : Usage → ℤ
audio_out u = elim (u.completion_tokens_details) [ none ↦ pos 0 | some d ↦ d.audio_tokens ]

-- The state of `SSEUsageTracker`: the last usage seen.
abbrev pub Tracker : Type 0
Tracker = Option Usage

abbrev pub keep_usage : Tracker → Option (Option Usage) → Tracker
keep_usage t none = t
keep_usage t (some none) = t
keep_usage t (some (some u)) = some u

-- `Feed`; a chunk that decodes may have no usage.
unfoldable pub feed : (Text → Option (Option Usage)) → Tracker → Text → Tracker
feed unmarshal t raw =
    let line = trim_space raw in
    let payload = trim_space (drop 5 line) in
    let read = keep_usage t (unmarshal payload) in
    if has_prefix line (codes "data:")
    then (if text_eq payload (codes "[DONE]") then t else read)
    else t
