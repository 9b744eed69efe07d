-- ===== src/Config/Settings.antt =====
-- config.rs: the configuration and the list of saved connection profiles. `to_lowercase` is a
-- parameter, since it follows Unicode's tables.
use h_agent_core.Base.{
  ℕ, ◌*◌, String, Bool, true, false, not, ◌&&◌, ◌||◌, List, [], ◌∷◌, Option, none, some,
  if◌then◌else◌, any, str_eq, trim, is_empty, mib,
}
use h_agent_core.Policy.{AgentMode, explore}
use h_agent_core.Limits.{
  F32, MemoryConfig, CompactionConfig, ServerConfig, RuntimeConfig, ClusterConfig, memory_default,
  compaction_default, server_default, runtime_default, cluster_default,
}
use h_agent_core.Config.Types.{
  ThinkingLevel, ThinkingCapability, NativeWebSearch, ProviderPreset, ProviderKind, all_presets,
  preset_label, key_id,
}
use h_agent_core.Config.Profile.{ProviderConfig, ensure_id, id_of, normalize_thinking}

pub record ModelMetadataConfig : Type 0 where
  pub fetch : Bool
  pub ttl_hours : ℕ
  pub timeout_ms : ℕ

pub record BrowserConfig : Type 0 where
  pub enabled : Bool
  pub command : String
  pub args : List String
  pub timeout_seconds : ℕ
  pub max_output_bytes : ℕ
  pub keep_alive_seconds : ℕ

pub record CustomCommandConfig : Type 0 where
  pub name : String
  pub description : String
  pub template : String

pub record AgentConfig : Type 0 where
  pub name : String
  pub mode : AgentMode
  pub max_turns : ℕ
  pub allowed_tools : List String
  pub system_prompt : String

pub record McpServerConfig : Type 0 where
  pub name : String
  pub command : String
  pub args : List String
  pub enabled : Bool
  pub timeout_seconds : ℕ
  pub max_output_bytes : ℕ

pub record Config (F : Type 0) : Type 0 where
  pub provider : ProviderConfig
  pub providers : List ProviderConfig
  pub provider_profiles_initialized : Bool
  pub context_meter : Bool
  pub server : ServerConfig
  pub runtime : RuntimeConfig
  pub memory : MemoryConfig
  pub compaction : CompactionConfig F
  pub model_metadata : ModelMetadataConfig
  pub allow_private_networks : Bool
  pub permissions : List (String × String)
  pub browser : BrowserConfig
  pub cluster : ClusterConfig
  pub commands : List CustomCommandConfig
  pub agents : List AgentConfig
  pub mcp_servers : List McpServerConfig
  pub data_dir : String
  pub config_path : Option String

abbrev pub provider_default : ProviderConfig
provider_default = record {
  id = "";
  name = "";
  preset = ProviderPreset.open_ai;
  kind = ProviderKind.responses;
  base_url = "https://api.openai.com/v1";
  model = "gpt-5-mini";
  use_previous_response_id = false;
  native_web_search = NativeWebSearch.auto;
  context_window_tokens = none;
  max_output_tokens = none;
  thinking = ThinkingCapability.auto;
  thinking_level = ThinkingLevel.auto;
  thinking_budget_tokens = none;
  enabled_models = [];
  retry_max_attempts = 3;
  retry_initial_backoff_ms = 500;
  retry_max_backoff_ms = 8000;
  discovered = none;
}

-- The protocol, the base URL and the model of a preset's template.
abbrev template : ProviderPreset → ProviderKind × String × String
template ProviderPreset.open_ai =
    (ProviderKind.responses, "https://api.openai.com/v1", "gpt-5-mini")
template ProviderPreset.deep_seek =
    (ProviderKind.responses, "https://api.deepseek.com", "deepseek-v4-flash")
template ProviderPreset.qwen = (
  ProviderKind.chat_completions,
  "https://{WorkspaceId}.cn-beijing.maas.aliyuncs.com/compatible-mode/v1", "qwen3.8-max",
)
template ProviderPreset.volcano = (
  ProviderKind.chat_completions, "https://ark.cn-beijing.volces.com/api/v3",
  "doubao-seed-2-1-pro-260628",
)
template ProviderPreset.custom =
    (ProviderKind.chat_completions, "https://api.example.com/v1", "model-name")

-- `ProviderPreset::defaults`: but for the template, the values of `provider_default`.
unfoldable pub preset_defaults : ProviderPreset → ProviderConfig
preset_defaults preset =
    let (kind, base_url, model) = template preset in
    normalize_thinking (record provider_default {
      id = key_id preset;
      preset = preset;
      kind = kind;
      base_url = base_url;
      model = model;
    })

abbrev pub model_metadata_default : ModelMetadataConfig
model_metadata_default = record { fetch = true; ttl_hours = 24; timeout_ms = 5000 }

abbrev pub browser_default : BrowserConfig
browser_default = record {
  enabled = false;
  command = "";
  args = [];
  timeout_seconds = 30;
  max_output_bytes = 2 * mib;
  keep_alive_seconds = 30;
}

abbrev pub agent_default : AgentConfig
agent_default = record {
  name = "";
  mode = explore;
  max_turns = 0;
  allowed_tools = [];
  system_prompt = "";
}

abbrev pub config_default : {F : Type 0} → ⦃f : F32 F⦄ → Config F
config_default = record {
  provider = provider_default;
  providers = [];
  provider_profiles_initialized = false;
  context_meter = true;
  server = server_default;
  runtime = runtime_default;
  memory = memory_default;
  compaction = compaction_default;
  model_metadata = model_metadata_default;
  allow_private_networks = false;
  permissions = [];
  browser = browser_default;
  cluster = cluster_default;
  commands = [];
  agents = [];
  mcp_servers = [];
  data_dir = "";
  config_path = none;
}

-- The loop's `iter_mut().find`: the first profile of this id is replaced, else one is added.
unfoldable pub put_profile : ProviderConfig → List ProviderConfig → List ProviderConfig
put_profile p [] = p ∷ []
put_profile p (q ∷ qs) = if str_eq (id_of q) (id_of p) then p ∷ qs else q ∷ put_profile p qs

unfoldable pub find_profile : String → List ProviderConfig → Option ProviderConfig
find_profile id [] = none
find_profile id (q ∷ qs) = if str_eq (id_of q) id then some q else find_profile id qs

unfoldable pub drop_profile : String → List ProviderConfig → List ProviderConfig
drop_profile id [] = []
drop_profile id (q ∷ qs) = if str_eq (id_of q) id then qs else q ∷ drop_profile id qs

abbrev or_else : Option ProviderConfig → Option ProviderConfig → Option ProviderConfig
or_else none o = o
or_else (some p) o = some p

abbrev unwrap_or_empty : Option String → String
unwrap_or_empty none = ""
unwrap_or_empty (some id) = id

-- The loop over the saved profiles.
unfoldable pub unique_profiles : List ProviderConfig → List ProviderConfig → List ProviderConfig
unique_profiles unique [] = unique
unique_profiles unique (p ∷ ps) = unique_profiles (put_profile (ensure_id p) unique) ps

-- The profiles without repeated ids, and with the active one if they were never initialized.
unfoldable pub saved_profiles : Bool → ProviderConfig → List ProviderConfig → List ProviderConfig
saved_profiles true active ps = unique_profiles [] ps
saved_profiles false active ps = put_profile (ensure_id (ensure_id active)) (unique_profiles [] ps)

-- Whether a profile other than the excluded one has this name, trimmed and in lower case.
abbrev pub has_name : (String → String) → String → String → ProviderConfig → Bool
has_name to_lowercase wanted exclude_id p =
    not (str_eq (id_of p) exclude_id) && str_eq (to_lowercase (trim p.name)) wanted

module _ {F : Type 0} where
  unfoldable pub provider_for_id : Config F → String → Option ProviderConfig
  provider_for_id c id =
      or_else (find_profile id c.providers)
        (if str_eq (id_of c.provider) id then some c.provider else none)

  unfoldable pub provider_for : Config F → ProviderPreset → Option ProviderConfig
  provider_for c preset = provider_for_id c (key_id preset)

  unfoldable pub upsert_provider : Config F → ProviderConfig → Config F
  upsert_provider c p = record c { providers = put_profile (ensure_id p) c.providers }

  -- The configuration after the removal, and the profile that was removed.
  unfoldable pub remove_provider_by_id : Config F → String → Config F × Option ProviderConfig
  remove_provider_by_id c id =
      (record c { providers = drop_profile id c.providers }, find_profile id c.providers)

  unfoldable pub provider_name_taken : (String → String) → Config F → String → Option String → Bool
  provider_name_taken to_lowercase c name exclude_id =
      let wanted = to_lowercase (trim name) in
      not (is_empty wanted)
      && (any (λ preset. str_eq (to_lowercase (preset_label preset)) wanted) all_presets
          || (any (has_name to_lowercase wanted (unwrap_or_empty exclude_id)) c.providers
              || has_name to_lowercase wanted (unwrap_or_empty exclude_id) c.provider))

  unfoldable pub ensure_provider_profiles : Config F → Config F
  ensure_provider_profiles c = record c {
    provider = ensure_id c.provider;
    providers = saved_profiles c.provider_profiles_initialized c.provider c.providers;
    provider_profiles_initialized = true;
  }
