-- ===== src/Config/Profile.antt =====
-- config/provider.rs: a connection profile and the functions that stamp, normalize and validate
-- it. What the crate `url` says of a base URL is a parameter.
use h_agent_core.Base.{
  ℕ, String, Bool, true, not, ◌&&◌, ◌||◌, List, [], ◌∷◌, Option, none, some, Result, ok, err, ltb,
  leb, ◌==◌, if◌then◌else◌, length, any, filter, codes, lower_code, map, codes_contain, one_of,
  trim, trim_end_by, is_empty,
}
use h_agent_core.Config.Types.{
  ThinkingLevel, ThinkingProfileKind, ThinkingCapability, NativeWebSearch, ProviderPreset,
  ProviderKind, MetaSource, level_eq, is_qwen37, preset_label, key_id, supports_responses,
  supports_previous_response_id,
}

-- model_meta.rs
pub record ModelMeta : Type 0 where
  pub context_window_tokens : Option ℕ
  pub max_output_tokens : Option ℕ

pub record DiscoveredMeta : Type 0 where
  pub source : MetaSource
  pub meta : ModelMeta
  pub fetched_at : ℕ

pub record ProviderConfig : Type 0 where
  pub id : String
  pub name : String
  pub preset : ProviderPreset
  pub kind : ProviderKind
  pub base_url : String
  pub model : String
  pub use_previous_response_id : Bool
  pub native_web_search : NativeWebSearch
  pub context_window_tokens : Option ℕ
  pub max_output_tokens : Option ℕ
  pub thinking : ThinkingCapability
  pub thinking_level : ThinkingLevel
  pub thinking_budget_tokens : Option ℕ
  pub enabled_models : List String
  pub retry_max_attempts : ℕ
  pub retry_initial_backoff_ms : ℕ
  pub retry_max_backoff_ms : ℕ
  pub discovered : Option DiscoveredMeta

pub record ThinkingProfile : Type 0 where
  pub options : List ThinkingLevel
  pub default : ThinkingLevel
  pub kind : ThinkingProfileKind

abbrev open_ai_levels : List ThinkingLevel
open_ai_levels =
    ThinkingLevel.auto ∷ ThinkingLevel.none ∷ ThinkingLevel.minimal ∷ ThinkingLevel.low
    ∷ ThinkingLevel.medium ∷ ThinkingLevel.high ∷ ThinkingLevel.x_high ∷ ThinkingLevel.max ∷ []

abbrev qwen38_levels : List ThinkingLevel
qwen38_levels =
    ThinkingLevel.none ∷ ThinkingLevel.low ∷ ThinkingLevel.medium ∷ ThinkingLevel.x_high ∷ []

abbrev qwen37_levels : List ThinkingLevel
qwen37_levels = ThinkingLevel.none ∷ ThinkingLevel.enabled ∷ []

abbrev deep_seek_pro_levels : List ThinkingLevel
deep_seek_pro_levels =
    ThinkingLevel.low ∷ ThinkingLevel.high ∷ ThinkingLevel.x_high ∷ ThinkingLevel.max ∷ []

abbrev deep_seek_flash_levels : List ThinkingLevel
deep_seek_flash_levels =
    ThinkingLevel.low ∷ ThinkingLevel.high ∷ ThinkingLevel.x_high ∷ ThinkingLevel.max ∷ []

abbrev volcano_levels : List ThinkingLevel
volcano_levels = ThinkingLevel.high ∷ []

abbrev compatible_levels : List ThinkingLevel
compatible_levels =
    ThinkingLevel.auto ∷ ThinkingLevel.none ∷ ThinkingLevel.low ∷ ThinkingLevel.medium
    ∷ ThinkingLevel.high ∷ ThinkingLevel.max ∷ []

abbrev is_ascii_alphanumeric : ℕ → Bool
is_ascii_alphanumeric c =
    (leb b'0' c && leb c b'9') || (leb b'A' c && leb c b'Z') || (leb b'a' c && leb c b'z')

-- The letters and digits of a model's name, in lower case.
abbrev pub squeezed : String → List ℕ
squeezed model = map lower_code (filter is_ascii_alphanumeric (codes model))

abbrev compatible : ThinkingProfile
compatible = record {
  options = compatible_levels;
  default = ThinkingLevel.auto;
  kind = ThinkingProfileKind.compatible;
}

unfoldable pub thinking_profile : ProviderPreset → String → ThinkingProfile
thinking_profile ProviderPreset.qwen model =
    if codes_contain (squeezed model) (codes "qwen38")
    then record {
      options = qwen38_levels;
      default = ThinkingLevel.x_high;
      kind = ThinkingProfileKind.qwen38;
    }
    else if codes_contain (squeezed model) (codes "qwen37")
    then record {
      options = qwen37_levels;
      default = ThinkingLevel.enabled;
      kind = ThinkingProfileKind.qwen37;
    }
    else compatible
thinking_profile ProviderPreset.deep_seek model =
    if codes_contain (squeezed model) (codes "v4pro")
    then record {
      options = deep_seek_pro_levels;
      default = ThinkingLevel.high;
      kind = ThinkingProfileKind.deep_seek_pro;
    }
    else if codes_contain (squeezed model) (codes "v4flash")
    then record {
      options = deep_seek_flash_levels;
      default = ThinkingLevel.high;
      kind = ThinkingProfileKind.deep_seek_flash;
    }
    else compatible
thinking_profile ProviderPreset.volcano model = record {
  options = volcano_levels;
  default = ThinkingLevel.high;
  kind = ThinkingProfileKind.volcano;
}
thinking_profile ProviderPreset.open_ai model = record {
  options = open_ai_levels;
  default = ThinkingLevel.auto;
  kind = ThinkingProfileKind.open_ai;
}
thinking_profile ProviderPreset.custom model = compatible

unfoldable pub ensure_id : ProviderConfig → ProviderConfig
ensure_id p = record p { id = if is_empty (trim p.id) then key_id p.preset else trim p.id }

-- `ProviderConfig::id`.
unfoldable pub id_of : ProviderConfig → String
id_of p = if is_empty p.id then key_id p.preset else p.id

unfoldable pub display_label : ProviderConfig → String
display_label p = if is_empty (trim p.name) then preset_label p.preset else trim p.name

abbrev pub max_provider_name_chars : ℕ
max_provider_name_chars = 64

-- `char::is_control`: the category Cc.
abbrev is_control : ℕ → Bool
is_control c = ltb c 32 || (leb 127 c && leb c 159)

unfoldable pub validate_name : String → Result String (Unit {0})
validate_name name =
    if is_empty (trim name)
    then ok tt
    else if ltb max_provider_name_chars (length (codes (trim name)))
    then err "provider name must be at most 64 characters"
    else if any is_control (codes (trim name))
    then err "provider name must not contain control characters"
    else ok tt

abbrev pub is_budget : Option ℕ → Bool
is_budget none = true
is_budget (some b) = (b == 1024) || (b == 4096) || (b == 8192) || (b == 16384) || (b == 32768)

-- The level that a profile keeps, or its default.
abbrev pub kept_level : ThinkingProfile → ThinkingLevel → ThinkingLevel
kept_level profile level = if any (level_eq level) profile.options then level else profile.default

abbrev pub kept_budget : ThinkingProfile → ThinkingLevel → Option ℕ → Option ℕ
kept_budget profile level budget =
    if not (is_qwen37 profile.kind)
      || not (level_eq level ThinkingLevel.enabled)
      || not (is_budget budget)
    then none
    else budget

unfoldable pub normalize_thinking : ProviderConfig → ProviderConfig
normalize_thinking p =
    let profile = thinking_profile p.preset p.model in
    let level = kept_level profile p.thinking_level in
    record p {
      thinking_level = level;
      thinking_budget_tokens = kept_budget profile level p.thinking_budget_tokens;
    }

-- What `url::Url` tells of a URL that parses.
pub record Url : Type 0 where
  pub scheme : String
  pub has_host : Bool
  pub username : String
  pub has_password : Bool

abbrev is_slash : ℕ → Bool
is_slash c = c == b'/'

abbrev is_brace : ℕ → Bool
is_brace c = (c == b'{') || (c == b'}')

-- The fields as `validate` rewrites them before its tests, and the two flags after them.
abbrev trimmed : ProviderConfig → ProviderConfig
trimmed p = record p {
  base_url = trim_end_by is_slash (trim p.base_url);
  model = trim p.model;
  name = trim p.name;
}

abbrev supported : ProviderConfig → ProviderConfig
supported p = record p {
  kind = if supports_responses p.preset then p.kind else ProviderKind.chat_completions;
  use_previous_response_id =
      supports_responses p.preset
      && (supports_previous_response_id p.preset && p.use_previous_response_id);
}

abbrev with_url : Option Url → ProviderConfig → Result String ProviderConfig
with_url none p = err "provider Base URL is invalid"
with_url (some url) p =
    if not (one_of ("http" ∷ "https" ∷ []) url.scheme) || not url.has_host
    then err "provider Base URL must be HTTP or HTTPS with a host"
    else if not (is_empty url.username) || url.has_password
    then err "provider Base URL must not contain credentials"
    else if is_empty p.model
    then err "model must not be empty"
    else ok (supported p)

abbrev named :
    Result String (Unit {0}) → Result String ProviderConfig → Result String ProviderConfig
named (ok u) next = next
named (err e) next = err e

-- `parse` is `Url::parse`. On an error the profile keeps what was trimmed, which is left out.
unfoldable pub validate : (String → Option Url) → ProviderConfig → Result String ProviderConfig
unfolding validate_name
validate parse p =
    let q = trimmed p in
    named (validate_name q.name) (
      if any is_brace (codes q.base_url)
      then err "replace placeholders in the provider Base URL"
      else with_url (parse q.base_url) q)
