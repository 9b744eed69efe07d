-- ===== src/ModelMeta.antt =====
-- model_meta.rs: the limits of models, from a provider's list, from a community database and from
-- the profile, and the order in which they count. A normalized model id is its code points.
pub mod Limits
pub mod Slugs
pub mod Community
pub mod Resolved
mod Tests
use h_agent_core.Base.{
  ℕ, zero, suc, ◌+◌, ◌-◌, ◌*◌, ◌≤◌, String, Bool, true, false, not, ◌&&◌, ◌||◌, List, [], ◌∷◌, ◌++◌,
  Option, none, some, leb, ltb, ◌==◌, if◌then◌else◌, ◌>>=◌, length, any, codes, lower_codes, trim,
  is_empty, str_eq, ◌+s◌,
}
use h_agent_core.Value.{
  Value, null, number, string, Numbers, get, as_str, as_array, as_object, get_str, get_list,
}
use h_agent_core.Config.Types.{MetaSource, ProviderPreset}
use h_agent_core.Config.Profile.{ProviderConfig, ModelMeta, DiscoveredMeta}
use h_agent_core.Config.Registry.{codes_eq, known_context_window, known_max_output}

abbrev pub max_provider_models : ℕ
max_provider_models = 512

abbrev pub max_community_models : ℕ
max_community_models = 4096

abbrev pub min_context_window_tokens : ℕ
min_context_window_tokens = 4096

abbrev pub max_context_window_tokens : ℕ
max_context_window_tokens = 10000000

abbrev pub min_discovered_max_output_tokens : ℕ
min_discovered_max_output_tokens = 1024

abbrev pub max_discovered_max_output_tokens : ℕ
max_discovered_max_output_tokens = 131072

abbrev pub community_slug_priority_list : List String
community_slug_priority_list =
    "openai" ∷ "anthropic" ∷ "google" ∷ "deepseek" ∷ "qwen" ∷ "alibaba" ∷ "volcengine" ∷ "volcano"
    ∷ "moonshotai" ∷ "zhipu" ∷ "mistral" ∷ "xai" ∷ []

unfoldable pub source_tag : MetaSource → String
source_tag MetaSource.config = "config"
source_tag MetaSource.provider_api = "provider"
source_tag MetaSource.community = "community"
source_tag MetaSource.registry = "registry"

abbrev is_none {ℓ} : {A : Type ℓ} → Option A → Bool
is_none none = true
is_none (some a) = false

abbrev pub meta_is_empty : ModelMeta → Bool
meta_is_empty m = is_none m.context_window_tokens && is_none m.max_output_tokens

-- `str::parse::<i64>` where it is not negative: a sign, then digits, within the type.
abbrev parse_digits : ℕ → List ℕ → Option ℕ
parse_digits value [] = some value
parse_digits value (c ∷ cs) =
    if leb b'0' c && leb c b'9' then parse_digits (value * 10 + (c - b'0')) cs else none

abbrev within : ℕ → Option ℕ → Option ℕ
within limit none = none
within limit (some v) = if leb v limit then some v else none

abbrev some_digits : List ℕ → Option ℕ
some_digits [] = none
some_digits (c ∷ cs) = parse_digits 0 (c ∷ cs)

unfoldable pub parse_i64_unsigned : List ℕ → Option ℕ
parse_i64_unsigned [] = none
parse_i64_unsigned (c ∷ cs) =
    if c == b'-'
    then within 0 (some_digits cs)
    else within 9223372036854775807 (if c == b'+' then some_digits cs else some_digits (c ∷ cs))

abbrev pub or_else {ℓ} : {A : Type ℓ} → Option A → Option A → Option A
or_else none o = o
or_else (some a) o = some a

-- `u32::try_from`.
abbrev pub try_u32 : ℕ → Option ℕ
try_u32 v = within 4294967295 (some v)

abbrev pub in_range : ℕ → ℕ → ℕ → Option ℕ
in_range low high v = if leb low v && leb v high then some v else none

unfoldable pub normalize_model_id : String → List ℕ
normalize_model_id model = lower_codes (trim model)

unfoldable pub provider_list_key : String → String
provider_list_key base_url = "provider-list|" +s base_url

unfoldable pub provider_meta_key : String → String → String
provider_meta_key base_url model = "provider|" +s (base_url +s ("|" +s model))

-- A table of limits by normalized id.
abbrev pub Table : Type 0
Table = List (List ℕ × ModelMeta)

unfoldable pub find_model : List ℕ → Table → Option ModelMeta
find_model id [] = none
find_model id ((k, meta) ∷ table) = if codes_eq k id then some meta else find_model id table

-- `entry(id).or_insert(meta)`.
unfoldable pub or_insert : List ℕ → ModelMeta → Table → Table
or_insert id meta [] = (id, meta) ∷ []
or_insert id meta ((k, old) ∷ table) =
    if codes_eq k id then (k, old) ∷ table else (k, old) ∷ or_insert id meta table

abbrev position : String → ℕ → List String → ℕ
position slug n [] = n
position slug n (c ∷ cs) = if str_eq c slug then n else position slug (suc n) cs

unfoldable pub community_slug_priority : String → ℕ
community_slug_priority slug = position slug 0 community_slug_priority_list

-- `sort_by_key`, which is stable.
unfoldable pub insert_by_priority {ℓ} :
    {A : Type ℓ} → String × A → List (String × A) → List (String × A)
insert_by_priority p [] = p ∷ []
insert_by_priority p (q ∷ qs) =
    if leb (community_slug_priority p.0) (community_slug_priority q.0)
    then p ∷ q ∷ qs
    else q ∷ insert_by_priority p qs

unfoldable pub sort_by_priority {ℓ} : {A : Type ℓ} → List (String × A) → List (String × A)
sort_by_priority [] = []
sort_by_priority (p ∷ ps) = insert_by_priority p (sort_by_priority ps)

pub record ProviderModelInfo : Type 0 where
  pub id : String
  pub context_window_tokens : Option ℕ
  pub max_output_tokens : Option ℕ

module _ {N : Type 0} ⦃n : Numbers N⦄ where
  unfoldable pub json_u64 : Value N → Option ℕ
  json_u64 (number x) = or_else (n.as_u64 x) (or_else (n.as_i64_unsigned x) (n.as_f64_whole x))
  json_u64 (string text) = parse_i64_unsigned (codes (trim text))
  json_u64 _ = none

  unfoldable pub bounded_u64 : Value N → List String → ℕ → ℕ → Option ℕ
  bounded_u64 value [] low high = none
  bounded_u64 value (f ∷ fields) low high =
      or_else (get value f >>= json_u64 >>= in_range low high) (bounded_u64 value fields low high)

  unfoldable pub bounded_u32 : Value N → List String → ℕ → ℕ → Option ℕ
  bounded_u32 value [] low high = none
  bounded_u32 value (f ∷ fields) low high =
      or_else (get value f >>= json_u64 >>= try_u32 >>= in_range low high)
        (bounded_u32 value fields low high)

  unfoldable pub community_model : Value N → ModelMeta
  community_model model = record {
    context_window_tokens =
        bounded_u64 model ("context_length" ∷ []) min_context_window_tokens
          max_context_window_tokens;
    max_output_tokens =
        bounded_u32 model ("max_output_tokens" ∷ "max_tokens" ∷ []) min_discovered_max_output_tokens
          max_discovered_max_output_tokens;
  }

  -- The early return when the table is full leaves it as it is, and so does every later round.
  unfoldable pub add_model : Table → String → Value N → Table
  add_model table id model =
      if leb max_community_models (length table) || meta_is_empty (community_model model)
      then table
      else or_insert (normalize_model_id id) (community_model model) table

  unfoldable pub add_models : Table → List (String × Value N) → Table
  add_models table [] = table
  add_models table ((id, model) ∷ models) = add_models (add_model table id model) models

  abbrev pub models_of : Value N → List (String × Value N)
  models_of provider = elim (get provider "models" >>= as_object) [ none ↦ [] | some ms ↦ ms ]

  unfoldable pub add_providers : Table → List (String × Value N) → Table
  add_providers table [] = table
  add_providers table ((slug, provider) ∷ providers) =
      add_providers (add_models table (models_of provider)) providers

  -- The map of the providers: under `models`, or the value itself.
  abbrev has_models : String × Value N → Bool
  has_models (slug, entry) = not (is_none (get entry "models"))

  abbrev pub wrapped : Option (List (String × Value N)) → Option (List (String × Value N))
  wrapped none = none
  wrapped (some entries) = if any has_models entries then some entries else none

  abbrev pub sorted_or_none : Option (List (String × Value N)) → List (String × Value N)
  sorted_or_none none = []
  sorted_or_none (some providers) = sort_by_priority providers

  unfoldable pub community_providers : Value N → List (String × Value N)
  community_providers value =
      sorted_or_none (or_else (get value "models" >>= as_object) (wrapped (as_object value)))

  unfoldable pub parse_community : Value N → Table
  parse_community value = add_providers [] (community_providers value)

  -- The cap on the output, from the entry or from its `top_provider`.
  abbrev pub listed_output : Value N → Option ℕ
  listed_output entry =
      bounded_u32 entry ("max_completion_tokens" ∷ "max_tokens" ∷ [])
        min_discovered_max_output_tokens max_discovered_max_output_tokens

  unfoldable pub listed_model : String → Value N → ProviderModelInfo
  listed_model id entry = record {
    id = id;
    context_window_tokens =
        bounded_u64 entry ("context_length" ∷ "max_context_length" ∷ "context_window" ∷ [])
          min_context_window_tokens max_context_window_tokens;
    max_output_tokens = or_else (listed_output entry) (get entry "top_provider" >>= listed_output);
  }

  abbrev pub add_listed : Option String → Value N → List ProviderModelInfo → List ProviderModelInfo
  add_listed none entry models = models
  add_listed (some id) entry models =
      if is_empty (trim id) then models else models ++ listed_model (trim id) entry ∷ []

  unfoldable pub list_models : List ProviderModelInfo → List (Value N) → List ProviderModelInfo
  list_models models [] = models
  list_models models (entry ∷ entries) =
      let rest = list_models (add_listed (get_str entry "id") entry models) entries in
      if leb max_provider_models (length models) then models else rest

  unfoldable pub parse_provider_models : Value N → List ProviderModelInfo
  parse_provider_models value = list_models [] (get_list value "data")

pub record ResolvedMeta : Type 0 where
  pub context_window_tokens : Option ℕ
  pub window_source : MetaSource
  pub max_output_tokens : Option ℕ

unfoldable pub window_source_tag : ResolvedMeta → String
window_source_tag r = elim r.context_window_tokens [
  | none ↦ "unknown"
  | some window ↦ source_tag r.window_source
]

abbrev pub discovered_window : Option DiscoveredMeta → Option (ℕ × MetaSource)
discovered_window none = none
discovered_window (some found) = found.meta.context_window_tokens >>= λ w. some (w, found.source)

abbrev pub meta_window : MetaSource → Option ModelMeta → Option (ℕ × MetaSource)
meta_window source none = none
meta_window source (some meta) = meta.context_window_tokens >>= λ w. some (w, source)

abbrev pub sourced : MetaSource → Option ℕ → Option (ℕ × MetaSource)
sourced source none = none
sourced source (some w) = some (w, source)

abbrev pub meta_output : Option ModelMeta → Option ℕ
meta_output none = none
meta_output (some meta) = meta.max_output_tokens

abbrev pub discovered_meta : Option DiscoveredMeta → Option ModelMeta
discovered_meta none = none
discovered_meta (some found) = some found.meta

abbrev pub resolved_window : Option (ℕ × MetaSource) → Option ℕ → ResolvedMeta
resolved_window none output = record {
  context_window_tokens = none;
  window_source = MetaSource.registry;
  max_output_tokens = output;
}
resolved_window (some (w, source)) output = record {
  context_window_tokens = some w;
  window_source = source;
  max_output_tokens = output;
}

-- `snapshot` is the community table that is built in.
unfoldable pub resolve : Table → ProviderConfig → ResolvedMeta
resolve snapshot provider =
    let community = find_model (normalize_model_id provider.model) snapshot in
    resolved_window
      (or_else (sourced MetaSource.config provider.context_window_tokens) (
        or_else (discovered_window provider.discovered) (
          or_else (meta_window MetaSource.community community)
            (sourced MetaSource.registry (known_context_window provider.preset provider.model)))))
      (or_else provider.max_output_tokens (
        or_else (meta_output (discovered_meta provider.discovered))
          (or_else (meta_output community) (known_max_output provider.preset provider.model))))
