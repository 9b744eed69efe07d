-- ===== src/Config/Tests.antt =====
-- Tests and examples for the configuration: config.rs, config/provider.rs and model_meta.rs.
use h_agent_core.Base.{
  ℕ, String, true, false, List, [], ◌∷◌, Option, none, some, Result, ok, err, All, if◌then◌else◌,
  codes, str_eq, ◌≡◌, ◌≢◌, refl, trim, trim_start, trim_end_by, is_whitespace, lower_code, clamp,
  clamp?,
}
use h_agent_core.Samples.{sample_f32}
use h_agent_core.Limits.{memory_normalize, compaction_normalize}
use h_agent_core.Config.Types.{
  ProviderPreset, key_id, supports_responses, supports_previous_response_id,
}
use h_agent_core.Config.Profile.{
  ProviderConfig, Url, ensure_id, id_of, thinking_profile, normalize_thinking, validate,
  validate_name,
}
use h_agent_core.Config.Registry.{
  known_model_rule, ModelRule, openai_exact_models, openai_prefix_models, lookup_model_rule,
  exact_match, longest_match, model_family_matches, rule_len, known_context_window,
}
use h_agent_core.Config.Families.{NoneLonger, lookup_model_rule_longest}
use h_agent_core.Config.Settings.{
  Config, provider_default, config_default, put_profile, find_profile, unique_profiles,
  saved_profiles, upsert_provider, remove_provider_by_id, ensure_provider_profiles,
}
use h_agent_core.Config.Profiles.{
  Distinct, IsStamped, ensure_provider_profiles-Distinct, remove_provider_by_id-upsert_provider,
}
use h_agent_core.Config.Thinking.{Offers, BudgetFits, normalize_thinking-Offers}
use h_agent_core.Config.Load.{
  LoadError, panic, overridden, bounded_provider, bounded_browser, bounded_server, bounded_runtime,
  bounded_cluster, bounded_metadata, data_dir_of, load,
}
use h_agent_core.Config.Loaded.{load_never_panics, load-saved_profiles}

abbrev dated : List ℕ
dated = codes "gpt-4.1-2025-04-14"

abbrev gpt41 : ModelRule
gpt41 = record {
  model = "gpt-4.1";
  context_window_tokens = 1047576;
  max_output_tokens = some 32768;
}

dated_rule : lookup_model_rule dated openai_exact_models openai_prefix_models ≡ some gpt41
unfolding lookup_model_rule exact_match longest_match model_family_matches
dated_rule = refl

unknown_model : known_context_window ProviderPreset.deep_seek "my-model" ≡ none
unfolding known_context_window known_model_rule lookup_model_rule exact_match longest_match
    model_family_matches trim trim_start trim_end_by is_whitespace lower_code
unknown_model = refl

lookup_model_rule_longest_example :
    (model_family_matches dated gpt41.model ≡ true)
    × NoneLonger dated (rule_len gpt41) openai_prefix_models
lookup_model_rule_longest_example =
    lookup_model_rule_longest dated openai_exact_models openai_prefix_models gpt41 dated_rule

-- Two profiles without an id of the same preset, and an active profile of another.
abbrev legacy : Config ℕ
legacy = record config_default {
  provider = record provider_default { preset = ProviderPreset.qwen };
  providers =
      record provider_default { model = "o1" }
      ∷ record provider_default { id = " openai "; model = "o3" }
      ∷ [];
}

ensure_provider_profiles-Distinct_example :
    Distinct (ensure_provider_profiles legacy).providers
    × All IsStamped (ensure_provider_profiles legacy).providers
    × (ensure_provider_profiles (ensure_provider_profiles legacy) ≡ ensure_provider_profiles legacy)
ensure_provider_profiles-Distinct_example = ensure_provider_profiles-Distinct legacy

last_one_wins :
    find_profile "openai" (ensure_provider_profiles legacy).providers
    ≡ some (record provider_default { id = "openai"; model = "o3" })
unfolding ensure_provider_profiles saved_profiles unique_profiles put_profile find_profile ensure_id
    id_of key_id trim trim_start trim_end_by is_whitespace
last_one_wins = refl

abbrev custom : ProviderConfig
custom = record provider_default { id = "custom-7"; preset = ProviderPreset.custom }

remove_provider_by_id-upsert_provider_example :
    ((remove_provider_by_id
        (upsert_provider {F = ℕ} config_default custom)
        (id_of (ensure_id custom))).1
      ≡ some (ensure_id custom))
    × (find_profile "openai"
          (remove_provider_by_id
            (upsert_provider {F = ℕ} config_default custom)
            (id_of (ensure_id custom))).0.providers
        ≡ (if str_eq (id_of (ensure_id custom)) "openai" then none else find_profile "openai" []))
    × Distinct
        (remove_provider_by_id
          (upsert_provider {F = ℕ} config_default custom)
          (id_of (ensure_id custom))).0.providers
remove_provider_by_id-upsert_provider_example =
    remove_provider_by_id-upsert_provider config_default custom "openai" tt

normalize_thinking-Offers_example :
    Offers
      (thinking_profile ProviderPreset.open_ai "gpt-5-mini")
      (normalize_thinking provider_default).thinking_level
    × BudgetFits
        (thinking_profile ProviderPreset.open_ai "gpt-5-mini")
        (normalize_thinking provider_default).thinking_level
        (normalize_thinking provider_default).thinking_budget_tokens
    × (normalize_thinking (normalize_thinking provider_default)
        ≡ normalize_thinking provider_default)
normalize_thinking-Offers_example = normalize_thinking-Offers provider_default

abbrev no_variable : String → Option String
no_variable name = none

abbrev https : String → Option Url
https url = some (record { scheme = "https"; has_host = true; username = ""; has_password = false })

abbrev loaded_default : Result LoadError (Config ℕ)
loaded_default = load no_variable https (λ a b. b) none "/work" none (ok config_default)

abbrev expected : Config ℕ
expected = record (ensure_provider_profiles config_default) { data_dir = ".1h-agent" }

default_loads : loaded_default ≡ ok expected
unfolding load ensure_provider_profiles saved_profiles unique_profiles put_profile ensure_id id_of
    key_id trim trim_start trim_end_by is_whitespace memory_normalize compaction_normalize clamp?
    clamp overridden validate validate_name supports_responses supports_previous_response_id
    bounded_provider normalize_thinking thinking_profile bounded_browser bounded_server
    bounded_runtime bounded_cluster bounded_metadata data_dir_of
default_loads = refl

load_never_panics_example : loaded_default ≢ err panic
load_never_panics_example =
    load_never_panics no_variable https (λ a b. b) none "/work" none (ok config_default)

load-saved_profiles_example :
    (expected.providers ≡ saved_profiles false provider_default []) × Distinct expected.providers
load-saved_profiles_example =
    load-saved_profiles no_variable https (λ a b. b) none "/work" none config_default expected
      default_loads
