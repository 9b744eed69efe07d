-- ===== src/ModelMeta/Resolved.antt =====
-- model_meta.rs: the limits of a provider's list, and those that a profile resolves to.
use h_agent_core.Base.{
  ℕ, suc, ◌≤◌, String, false, List, [], ◌∷◌, Option, none, some, leb, ◌>>=◌, length, length-append,
  All, All-append, Bool-cases, trim, trim-trim, is_empty, ◌≡◌, inl, inr, arith,
}
use mathlib.Core.Option
use h_agent_core.Value.{Value, Numbers, get, get_list, get_str}
use h_agent_core.Config.Types.{MetaSource, ProviderPreset}
use h_agent_core.Config.Profile.{ProviderConfig, DiscoveredMeta}
use h_agent_core.Config.Registry.{ModelRule, codes_eq, known_model_rule, known_context_window}
use h_agent_core.Config.Families.{Holds, IsSane, known_model_rule-IsSane}
use h_agent_core.Config.Bounds.{AbsentOr}
use h_agent_core.Limits.Memory.{IsIn}
use h_agent_core.ModelMeta.{
  Table, ProviderModelInfo, or_else, find_model, normalize_model_id, listed_output, listed_model,
  add_listed, list_models, parse_provider_models, resolve, resolved_window, sourced,
  discovered_window, meta_window,
}
use h_agent_core.ModelMeta.Limits.{
  bounded_u64-IsIn, bounded_u32-IsIn, or_else-AbsentOr, bind-AbsentOr,
}
use h_agent_core.ModelMeta.Community.{MetaInBounds, EntryInBounds}

-- An entry of the list has a trimmed id that is not empty, and limits in bounds.
pub record InfoInBounds (i : ProviderModelInfo) : Type 0 where
  pub named : is_empty i.id ≡ false
  pub trimmed : trim i.id ≡ i.id
  pub window : AbsentOr (λ w. IsIn w 4096 10000000) i.context_window_tokens
  pub output : AbsentOr (λ t. IsIn t 1024 131072) i.max_output_tokens

module _ {N : Type 0} ⦃n : Numbers N⦄ where
  listed_output-IsIn : (entry : Value N) → AbsentOr (λ t. IsIn t 1024 131072) (listed_output entry)
  listed_output-IsIn entry = bounded_u32-IsIn entry _ 1024 131072

  add_listed-InBounds :
      (id : Option String) (entry : Value N) (models : List ProviderModelInfo)
      → All InfoInBounds models
      → All InfoInBounds (add_listed id entry models)
        × (length (add_listed id entry models) ≤ suc (length models))
  unfolding listed_model
  add_listed-InBounds none entry models h = (h, omega arith)
  add_listed-InBounds (some id) entry models h = elim (Bool-cases (is_empty (trim id))) [
    | inl e ↦ rw e (h, omega arith)
    | inr e ↦ rw e (
      All-append InfoInBounds models _ h (
        record {
          named = e;
          trimmed = trim-trim id;
          window = bounded_u64-IsIn entry _ 4096 10000000;
          output =
              or_else-AbsentOr _ (listed_output entry) _ (listed_output-IsIn entry)
                (bind-AbsentOr _ (get entry "top_provider") listed_output listed_output-IsIn);
        },
        tt,
      ),
      omega (arith, length-append models (listed_model (trim id) entry ∷ [])),
    )
  ]

  list_models-InBounds :
      (models : List ProviderModelInfo) (entries : List (Value N))
      → All InfoInBounds models
      → length models ≤ 512
      → All InfoInBounds (list_models models entries) × (length (list_models models entries) ≤ 512)
  unfolding list_models
  list_models-InBounds models [] h l = (h, l)
  list_models-InBounds models (entry ∷ entries) h l = elim (Bool-cases (leb 512 (length models))) [
    | inl e ↦ rw e (h, l)
    | inr e ↦
        let (a, k) = add_listed-InBounds (get_str entry "id") entry models h in
        rw e (
          list_models-InBounds (add_listed (get_str entry "id") entry models) entries a
            (ground arith))
  ]

  -- Whatever a provider answers, its list has at most 512 models, each with a trimmed id that is
  -- not empty and with no limit out of bounds.
  pub parse_provider_models-InBounds :
      (value : Value N)
      → All InfoInBounds (parse_provider_models value)
        × (length (parse_provider_models value) ≤ 512)
  unfolding parse_provider_models
  parse_provider_models-InBounds value =
      list_models-InBounds [] (get_list value "data") tt (omega arith)

abbrev pub WindowIn : Option ℕ → Type 0
WindowIn = AbsentOr (λ w. IsIn w 4096 10000000)

-- What was discovered for a profile is in bounds.
abbrev pub DiscoveredInBounds : Option DiscoveredMeta → Type 0
DiscoveredInBounds none = Unit
DiscoveredInBounds (some found) = MetaInBounds found.meta

abbrev SourcedIn : Option (ℕ × MetaSource) → Type 0
SourcedIn none = Unit
SourcedIn (some (w, source)) = IsIn w 4096 10000000

sourced-SourcedIn : (source : MetaSource) (w : Option ℕ) → WindowIn w → SourcedIn (sourced source w)
sourced-SourcedIn source none h = tt
sourced-SourcedIn source (some w) h = h

bind-SourcedIn :
    (w : Option ℕ) (source : MetaSource) → WindowIn w → SourcedIn (w >>= λ v. some (v, source))
bind-SourcedIn none source h = tt
bind-SourcedIn (some w) source h = h

discovered_window-SourcedIn :
    (d : Option DiscoveredMeta) → DiscoveredInBounds d → SourcedIn (discovered_window d)
discovered_window-SourcedIn none h = tt
discovered_window-SourcedIn (some found) (w, o) =
    bind-SourcedIn found.meta.context_window_tokens _ w

find_model-SourcedIn :
    (id : List ℕ) (table : Table)
    → All EntryInBounds table
    → SourcedIn (meta_window MetaSource.community (find_model id table))
unfolding find_model
find_model-SourcedIn id [] h = tt
find_model-SourcedIn id ((k, meta) ∷ table) (((w, o), e), h) = elim (Bool-cases (codes_eq k id)) [
  | inl e ↦ rw e (bind-SourcedIn meta.context_window_tokens _ w)
  | inr e ↦ rw e (find_model-SourcedIn id table h)
]

or_else-SourcedIn :
    (a b : Option (ℕ × MetaSource)) → SourcedIn a → SourcedIn b → SourcedIn (or_else a b)
or_else-SourcedIn none b h k = k
or_else-SourcedIn (some x) b h k = h

resolved_window-WindowIn :
    (a : Option (ℕ × MetaSource)) (output : Option ℕ)
    → SourcedIn a
    → WindowIn (resolved_window a output).context_window_tokens
resolved_window-WindowIn none output h = tt
resolved_window-WindowIn (some (w, source)) output h = h

from_rule :
    (r : Option ModelRule) → Holds IsSane r → WindowIn (Option.map (λ r. r.context_window_tokens) r)
from_rule none h = tt
from_rule (some r) (l, u, o) = (l, u)

known_context_window-WindowIn :
    (preset : ProviderPreset) (model : String) → WindowIn (known_context_window preset model)
unfolding known_context_window
known_context_window-WindowIn preset model =
    from_rule (known_model_rule preset model) (known_model_rule-IsSane preset model)

-- The window that a profile resolves to is in the range of the configuration, if the profile's
-- own is, as `Config::load` makes it, and what was discovered and the built-in table are, as
-- the parsers make them. The registry's own windows are.
pub resolve-WindowIn :
    (snapshot : Table) (p : ProviderConfig)
    → All EntryInBounds snapshot
    → WindowIn p.context_window_tokens
    → DiscoveredInBounds p.discovered
    → WindowIn (resolve snapshot p).context_window_tokens
unfolding resolve
resolve-WindowIn snapshot p s w d =
    let community = find_model (normalize_model_id p.model) snapshot in
    resolved_window-WindowIn _ _ (
      or_else-SourcedIn (sourced MetaSource.config p.context_window_tokens) _
        (sourced-SourcedIn _ _ w)
        (or_else-SourcedIn (discovered_window p.discovered) _
          (discovered_window-SourcedIn p.discovered d)
          (or_else-SourcedIn (meta_window MetaSource.community community) _
            (find_model-SourcedIn (normalize_model_id p.model) snapshot s)
            (sourced-SourcedIn _ _ (known_context_window-WindowIn p.preset p.model)))))
