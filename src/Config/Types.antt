-- ===== src/Config/Types.antt =====
-- config/provider.rs: the enumerations of a connection profile, with their labels and tags.
use h_agent_core.Base.{ℕ, String, Bool, true, false, List, [], ◌∷◌, ◌==◌}

pub data ThinkingLevel : Type 0 where
  auto none minimal low medium high x_high max enabled : ThinkingLevel

unfoldable pub level_label : ThinkingLevel → String
level_label auto = "auto"
level_label none = "none"
level_label minimal = "minimal"
level_label low = "low"
level_label medium = "medium"
level_label high = "high"
level_label x_high = "xhigh"
level_label max = "max"
level_label enabled = "开启"

pub data ThinkingProfileKind : Type 0 where
  open_ai qwen38 qwen37 deep_seek_pro deep_seek_flash volcano compatible : ThinkingProfileKind

pub data ThinkingCapability : Type 0 where
  auto open_ai deep_seek qwen volcano compatible disabled : ThinkingCapability

pub data NativeWebSearch : Type 0 where
  auto enabled disabled : NativeWebSearch

pub data ProviderPreset : Type 0 where
  open_ai deep_seek qwen volcano custom : ProviderPreset

pub data ProviderKind : Type 0 where
  chat_completions responses : ProviderKind

pub data MetaSource : Type 0 where
  config provider_api community registry : MetaSource

-- The derived `PartialEq` compares the discriminants.
abbrev level_discriminant : ThinkingLevel → ℕ
level_discriminant auto = 0
level_discriminant none = 1
level_discriminant minimal = 2
level_discriminant low = 3
level_discriminant medium = 4
level_discriminant high = 5
level_discriminant x_high = 6
level_discriminant max = 7
level_discriminant enabled = 8

abbrev pub level_eq : ThinkingLevel → ThinkingLevel → Bool
level_eq a b = level_discriminant a == level_discriminant b

abbrev pub is_qwen37 : ThinkingProfileKind → Bool
is_qwen37 qwen37 = true
is_qwen37 _ = false

-- `ProviderPreset::ALL`.
abbrev pub all_presets : List ProviderPreset
all_presets =
    ProviderPreset.open_ai ∷ ProviderPreset.deep_seek ∷ ProviderPreset.qwen ∷ ProviderPreset.volcano
    ∷ custom ∷ []

unfoldable pub preset_label : ProviderPreset → String
preset_label open_ai = "OpenAI"
preset_label deep_seek = "DeepSeek"
preset_label qwen = "Qwen / Bailian"
preset_label volcano = "Volcano Ark"
preset_label custom = "Custom compatible"

unfoldable pub key_id : ProviderPreset → String
key_id open_ai = "openai"
key_id deep_seek = "deepseek"
key_id qwen = "qwen"
key_id volcano = "volcano"
key_id custom = "custom"

unfoldable pub supports_responses : ProviderPreset → Bool
supports_responses volcano = false
supports_responses _ = true

unfoldable pub supports_previous_response_id : ProviderPreset → Bool
supports_previous_response_id deep_seek = false
supports_previous_response_id _ = true

-- `ProviderKind::wire_tag`.
unfoldable pub kind_tag : ProviderKind → String
kind_tag chat_completions = "chat_completions"
kind_tag responses = "responses"

abbrev pub is_config : MetaSource → Bool
is_config config = true
is_config _ = false
