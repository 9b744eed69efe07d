-- ===== src/Config/Registry.antt =====
-- config/provider.rs: the registry of models whose limits are built in. A model's name is compared
-- after `to_ascii_lowercase`, so it is here the list of its code points.
use h_agent_core.Base.{
  ℕ, String, Bool, true, false, ◌&&◌, ◌||◌, List, [], ◌∷◌, Option, none, some, leb, ◌==◌,
  if◌then◌else◌, codes, lower_codes, trim, ltb, ◌+◌, ◌>>=◌,
}
use mathlib.Core.Option
use h_agent_core.Config.Types.{ProviderPreset}

pub record ModelRule : Type 0 where
  pub model : String
  pub context_window_tokens : ℕ
  pub max_output_tokens : Option ℕ

abbrev rule : String → ℕ → Option ℕ → ModelRule
rule model window output = record {
  model = model;
  context_window_tokens = window;
  max_output_tokens = output;
}

abbrev pub openai_exact_models : List ModelRule
openai_exact_models =
    rule "o1-mini" 128000 (some 65536)
    ∷ rule "o1-preview" 128000 (some 65536)
    ∷ rule "o1" 200000 (some 100000)
    ∷ rule "o3" 200000 (some 100000)
    ∷ rule "o4-mini" 200000 (some 100000)
    ∷ rule "gpt-5.6-sol" 1050000 none
    ∷ rule "gpt-5.6-terra" 1050000 none
    ∷ rule "gpt-5.6-luna" 1050000 none
    ∷ []

abbrev pub openai_prefix_models : List ModelRule
openai_prefix_models =
    rule "o1-mini" 128000 (some 65536)
    ∷ rule "o1-preview" 128000 (some 65536)
    ∷ rule "o1" 200000 (some 100000)
    ∷ rule "o3" 200000 (some 100000)
    ∷ rule "o4-mini" 200000 (some 100000)
    ∷ rule "gpt-5.6-sol" 1050000 none
    ∷ rule "gpt-5.6-terra" 1050000 none
    ∷ rule "gpt-5.6-luna" 1050000 none
    ∷ rule "gpt-4.1" 1047576 (some 32768)
    ∷ rule "gpt-4o" 128000 (some 16384)
    ∷ rule "gpt-5" 400000 (some 128000)
    ∷ []

abbrev pub deepseek_exact_models : List ModelRule
deepseek_exact_models =
    rule "deepseek-chat" 128000 (some 8192)
    ∷ rule "deepseek-reasoner" 128000 (some 32768)
    ∷ rule "deepseek-v4-pro" 1000000 none
    ∷ rule "deepseek-v4-flash" 1000000 none
    ∷ []

abbrev pub deepseek_prefix_models : List ModelRule
deepseek_prefix_models =
    rule "deepseek-r1" 128000 (some 32768)
    ∷ rule "deepseek-v3" 128000 (some 8192)
    ∷ rule "deepseek-v4-pro" 1000000 none
    ∷ rule "deepseek-v4-flash" 1000000 none
    ∷ []

abbrev pub qwen_exact_models : List ModelRule
qwen_exact_models =
    rule "qwen-max" 32768 (some 8192)
    ∷ rule "qwen-plus" 131072 (some 8192)
    ∷ rule "qwen-turbo" 1000000 (some 8192)
    ∷ rule "qwen-long" 1000000 none
    ∷ rule "qwen3.8-max" 1000000 none
    ∷ rule "qwen3.7-max" 1000000 none
    ∷ rule "qwen3.7-plus" 1000000 none
    ∷ rule "qwen3.7-flash" 1000000 none
    ∷ []

abbrev pub qwen_prefix_models : List ModelRule
qwen_prefix_models =
    rule "qwen-max" 32768 (some 8192)
    ∷ rule "qwen-plus" 131072 (some 8192)
    ∷ rule "qwen-turbo" 1000000 (some 8192)
    ∷ rule "qwen-long" 1000000 none
    ∷ rule "qwen3.8-max" 1000000 none
    ∷ rule "qwen3.7-max" 1000000 none
    ∷ rule "qwen3.7-plus" 1000000 none
    ∷ rule "qwen3.7-flash" 1000000 none
    ∷ rule "qwen2.5" 131072 (some 8192)
    ∷ rule "qwen3" 131072 (some 32768)
    ∷ []

abbrev pub volcano_prefix_models : List ModelRule
volcano_prefix_models =
    rule "doubao-seed" 256000 none
    ∷ rule "deepseek-v4-flash" 1000000 none
    ∷ rule "glm-5.2" 1000000 none
    ∷ rule "deepseek-v4-pro" 200000 none
    ∷ rule "glm-4.7" 200000 none
    ∷ rule "minimax-m2.7" 200000 none
    ∷ rule "minimax-m2.5" 200000 none
    ∷ rule "doubao-seed-2.0-pro" 256000 none
    ∷ rule "doubao-seed-2.0-code" 256000 none
    ∷ rule "doubao-seed-2.0-lite" 256000 none
    ∷ rule "kimi-k2.6" 256000 none
    ∷ rule "kimi-k2.5" 256000 none
    ∷ rule "doubao-1-5-pro-32k" 32000 none
    ∷ rule "doubao-1-5-lite-32k" 32000 none
    ∷ rule "doubao-1-5-pro-128k" 128000 none
    ∷ rule "doubao-1-5-lite-128k" 128000 none
    ∷ rule "doubao-1-5-pro-256k" 256000 none
    ∷ rule "doubao-1-5-lite-256k" 256000 none
    ∷ rule "doubao-1-6-pro-32k" 32000 none
    ∷ rule "doubao-1-6-lite-32k" 32000 none
    ∷ rule "doubao-1-6-pro-128k" 128000 none
    ∷ rule "doubao-1-6-lite-128k" 128000 none
    ∷ rule "doubao-1-6-pro-256k" 256000 none
    ∷ rule "doubao-1-6-lite-256k" 256000 none
    ∷ rule "doubao-pro-32k" 32000 none
    ∷ rule "doubao-lite-32k" 32000 none
    ∷ rule "doubao-pro-128k" 128000 none
    ∷ rule "doubao-lite-128k" 128000 none
    ∷ rule "doubao-pro-256k" 256000 none
    ∷ rule "doubao-lite-256k" 256000 none
    ∷ []

-- `str::strip_prefix`, on code points.
abbrev pub stripped : List ℕ → List ℕ → Option (List ℕ)
stripped model [] = some model
stripped [] (f ∷ family) = none
stripped (c ∷ model) (f ∷ family) = if c == f then stripped model family else none

abbrev pub separated : Option (List ℕ) → Bool
separated none = false
separated (some []) = false
separated (some (c ∷ suffix)) = (c == b'-') || (c == b'.') || (c == b':')

abbrev pub codes_eq : List ℕ → List ℕ → Bool
codes_eq [] [] = true
codes_eq [] (y ∷ ys) = false
codes_eq (x ∷ xs) [] = false
codes_eq (x ∷ xs) (y ∷ ys) = x == y && codes_eq xs ys

unfoldable pub model_family_matches : List ℕ → String → Bool
model_family_matches model family =
    codes_eq model (codes family) || separated (stripped model (codes family))

-- `str::len`, from the code points.
abbrev utf8_len : ℕ → ℕ
utf8_len c = if ltb c 128 then 1 else if ltb c 2048 then 2 else if ltb c 65536 then 3 else 4

abbrev pub codes_len : List ℕ → ℕ
codes_len [] = 0
codes_len (c ∷ cs) = utf8_len c + codes_len cs

abbrev pub rule_len : ModelRule → ℕ
rule_len r = codes_len (codes r.model)

-- `max_by_key` gives the last of the largest.
abbrev pub later_longest : Option ModelRule → ModelRule → Option ModelRule
later_longest none r = some r
later_longest (some best) r = if leb (rule_len best) (rule_len r) then some r else some best

unfoldable pub longest_match : List ℕ → Option ModelRule → List ModelRule → Option ModelRule
longest_match model best [] = best
longest_match model best (r ∷ rules) =
    longest_match model (if model_family_matches model r.model then later_longest best r else best)
      rules

unfoldable pub exact_match : List ℕ → List ModelRule → Option ModelRule
exact_match model [] = none
exact_match model (r ∷ rules) =
    if codes_eq model (codes r.model) then some r else exact_match model rules

abbrev pub or_else {ℓ} : {A : Type ℓ} → Option A → Option A → Option A
or_else none o = o
or_else (some a) o = some a

unfoldable pub lookup_model_rule : List ℕ → List ModelRule → List ModelRule → Option ModelRule
lookup_model_rule model exact prefixes =
    or_else (exact_match model exact) (longest_match model none prefixes)

unfoldable pub known_model_rule : ProviderPreset → String → Option ModelRule
known_model_rule preset name =
    let model = lower_codes (trim name) in
    elim preset [
      | ProviderPreset.open_ai ↦ lookup_model_rule model openai_exact_models openai_prefix_models
      | ProviderPreset.deep_seek ↦
          lookup_model_rule model deepseek_exact_models deepseek_prefix_models
      | ProviderPreset.qwen ↦ lookup_model_rule model qwen_exact_models qwen_prefix_models
      | ProviderPreset.volcano ↦ lookup_model_rule model [] volcano_prefix_models
      | ProviderPreset.custom ↦
          or_else (lookup_model_rule model openai_exact_models openai_prefix_models) (
            or_else (lookup_model_rule model deepseek_exact_models deepseek_prefix_models) (
              or_else (lookup_model_rule model qwen_exact_models qwen_prefix_models)
                (lookup_model_rule model [] volcano_prefix_models)))
    ]

unfoldable pub known_context_window : ProviderPreset → String → Option ℕ
known_context_window preset model =
    Option.map (λ r. r.context_window_tokens) (known_model_rule preset model)

unfoldable pub known_max_output : ProviderPreset → String → Option ℕ
known_max_output preset model = known_model_rule preset model >>= λ r. r.max_output_tokens

-- The candidates of the settings picker.
abbrev pub selectable_models : ProviderPreset → List String
selectable_models ProviderPreset.open_ai =
    "gpt-5-mini" ∷ "gpt-5" ∷ "gpt-5.6-sol" ∷ "gpt-5.6-terra" ∷ "gpt-5.6-luna" ∷ "o1" ∷ "o3"
    ∷ "o4-mini" ∷ "gpt-4o" ∷ "gpt-4.1" ∷ "o1-mini" ∷ "o1-preview" ∷ []
selectable_models ProviderPreset.deep_seek =
    "deepseek-v4-flash" ∷ "deepseek-v4-pro" ∷ "deepseek-chat" ∷ "deepseek-reasoner" ∷ []
selectable_models ProviderPreset.qwen =
    "qwen3.8-max" ∷ "qwen3.7-max" ∷ "qwen-plus" ∷ "qwen-max" ∷ "qwen-turbo" ∷ "qwen-long" ∷ []
selectable_models ProviderPreset.volcano =
    "doubao-seed-2-1-pro-260628" ∷ "deepseek-v4-flash" ∷ "glm-5.2" ∷ []
selectable_models ProviderPreset.custom = []
