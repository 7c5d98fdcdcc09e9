-- ===== src/Config/Decode.antt =====
-- internal/config/config.go: `Decode` and `Load` around the YAML decoder. The decoder, which refuses
-- unknown fields, and `os.ExpandEnv` are parameters; a second document is an error of the decoder.
use token_route.Base.{ℕ, Bool, Option, none, some, map, if◌then◌else◌}
use token_route.Base.Text.{Text, codes, contains}
use token_route.Base.Float.{Float64}
use token_route.RetryPolicy.Defs.{is_blank}
use token_route.Config.Types.{ProviderConfig, SearchConfig, Config}
use token_route.Config.Check.{ConfigError, Outcome, validate}

-- What `Decode` and `Load` return.
pub data Decoded (F : Type 0) : Type 0 where
  read_error parse_error : Decoded F
  invalid : ConfigError → Decoded F
  decoded : Config F → Decoded F

abbrev or_default : Text → Text → Text
or_default s default = if is_blank s then default else s

module _ (expand_env : Text → Text) where
  -- `expandIfPresent`
  unfoldable pub expand_if_present : Text → Text
  expand_if_present s = if contains s (codes "$") then expand_env s else s

  unfoldable pub expand_provider : {F : Type 0} → ProviderConfig F → ProviderConfig F
  unfolding expand_if_present
  expand_provider p = record p {
    base_url = expand_if_present p.base_url;
    api_key = expand_if_present p.api_key;
    api_keys = map expand_if_present p.api_keys;
  }

  unfoldable pub expand_search : SearchConfig → SearchConfig
  unfolding expand_if_present
  expand_search s = record s {
    api_key = expand_if_present s.api_key;
    api_keys = map expand_if_present s.api_keys;
  }

  -- `expandConfigEnv`
  unfoldable pub expand_config_env : {F : Type 0} → Config F → Config F
  unfolding expand_provider expand_search
  expand_config_env c = record c {
    providers = map expand_provider c.providers;
    admin_key = expand_if_present c.admin_key;
    search = map expand_search c.search;
  }

module _ (fl : Float64) (lower : ℕ → ℕ) (compiles : Text → Bool) (expand_env : Text → Text) where
  open fl use {F}

  -- The addresses that a configuration need not give.
  unfoldable pub with_defaults : Config F → Config F
  with_defaults c = record c {
    listen = or_default c.listen (codes ":8400");
    usage_db = or_default c.usage_db (codes "data/usage.db");
  }

  abbrev checked : Config F → Outcome → Decoded F
  checked c none = decoded c
  checked c (some e) = invalid e

  -- `Decode`, after the document was read.
  unfoldable pub decode : Option (Config F) → Bool → Decoded F
  unfolding with_defaults expand_config_env
  decode none expand = parse_error
  decode (some c) expand =
      let ready = with_defaults (if expand then expand_config_env expand_env c else c) in
      checked ready (validate fl lower compiles ready)

  -- `Load`: the file, if it can be read.
  unfoldable pub load : Option (Option (Config F)) → Decoded F
  unfolding decode
  load none = read_error
  load (some document) = decode document Bool.true
