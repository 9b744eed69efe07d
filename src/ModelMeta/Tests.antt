-- ===== src/ModelMeta/Tests.antt =====
-- Tests and examples for model_meta.rs.
use h_agent_core.Base.{
  ℕ, [], ◌∷◌, none, some, All, length, codes, ◌≡◌, ◌≤◌, refl, arith, trim, trim_start, trim_end_by,
  is_whitespace, lower_code,
}
use h_agent_core.Value.{Value, number, string, array, object, Numbers, of_list, obj}
use h_agent_core.Config.Settings.{provider_default}
use h_agent_core.ModelMeta.{
  Table, find_model, or_insert, normalize_model_id, community_slug_priority, insert_by_priority,
  sort_by_priority, json_u64, parse_i64_unsigned, bounded_u64, bounded_u32, community_model,
  add_model, add_models, add_providers, community_providers, parse_community, listed_model,
  list_models, parse_provider_models, resolve,
}
use h_agent_core.ModelMeta.Slugs.{InOrder}
use h_agent_core.ModelMeta.Community.{
  TableInBounds, EntryInBounds, count_models, first_provider, parse_community-InBounds,
  parse_community-first_provider,
}
use h_agent_core.ModelMeta.Resolved.{
  InfoInBounds, WindowIn, parse_provider_models-InBounds, resolve-WindowIn,
}

-- Numbers that are all whole.
instance abbrev whole : Numbers ℕ
whole = record {
  as_u64 = λ x. some x;
  as_i64_unsigned = λ x. some x;
  as_f64_whole = λ x. some x;
  of_u64 = λ x. x;
}

abbrev window : ℕ → Value ℕ
window n = object (obj (("context_length", number n) ∷ []))

-- A provider that is not on the list of priorities stands first, and a window is too small.
abbrev database : Value ℕ
database = object (
    obj (
      (
        "models",
        object (
            obj (
              ("aaa", object (obj (("models", object (obj (("Gpt-9", window 8000) ∷ []))) ∷ [])))
              ∷ (
                "openai",
                object (
                    obj (
                      ("models", object (obj (("gpt-9", window 9000) ∷ ("gpt-8", window 12) ∷ [])))
                      ∷ [])),
              )
              ∷ [])),
      )
      ∷ []))

openai_wins :
    parse_community database
    ≡ (codes "gpt-9", record { context_window_tokens = some 9000; max_output_tokens = none }) ∷ []
unfolding parse_community community_providers sort_by_priority insert_by_priority
    community_slug_priority add_providers add_models add_model community_model bounded_u64
    bounded_u32 json_u64 or_insert normalize_model_id trim trim_start trim_end_by is_whitespace
    lower_code
openai_wins = refl

parse_community-InBounds_example : TableInBounds (parse_community database)
parse_community-InBounds_example = parse_community-InBounds database

few_models : count_models (community_providers database) ≤ 4096
unfolding community_providers sort_by_priority insert_by_priority community_slug_priority
few_models = omega arith

parse_community-first_provider_example :
    InOrder (community_providers database)
    × (find_model (codes "gpt-9") (parse_community database)
        ≡ first_provider (codes "gpt-9") (community_providers database))
parse_community-first_provider_example =
    parse_community-first_provider database (codes "gpt-9") few_models

abbrev listing : Value ℕ
listing = object (
    obj (
      (
        "data",
        array (
            of_list
              (object (obj (("id", string " m1 ") ∷ ("context_length", string "8192") ∷ [])) ∷ [])),
      )
      ∷ []))

listed :
    parse_provider_models listing
    ≡ record { id = "m1"; context_window_tokens = some 8192; max_output_tokens = none } ∷ []
unfolding parse_provider_models list_models listed_model bounded_u64 bounded_u32 json_u64
    parse_i64_unsigned trim trim_start trim_end_by is_whitespace
listed = refl

parse_provider_models-InBounds_example :
    All InfoInBounds (parse_provider_models listing)
    × (length (parse_provider_models listing) ≤ 512)
parse_provider_models-InBounds_example = parse_provider_models-InBounds listing

abbrev known : Table
known =
    (codes "gpt-5-mini", record { context_window_tokens = some 272000; max_output_tokens = none })
    ∷ []

known_in_bounds : All EntryInBounds known
known_in_bounds = (((omega arith, tt), refl), tt)

resolve-WindowIn_example : WindowIn (resolve known provider_default).context_window_tokens
resolve-WindowIn_example = resolve-WindowIn known provider_default known_in_bounds tt tt
