-- ===== src/Config/Thinking.antt =====
-- config/provider.rs, `normalize_thinking`: the level of thinking is one that the model takes.
use h_agent_core.Base.{
  ℕ, String, true, Option, none, some, any, Bool-cases, ◌≡◌, refl, ap, ◌∙◌, inl, inr, arith,
}
use h_agent_core.Config.Types.{ThinkingLevel, ProviderPreset, level_eq, is_qwen37}
use h_agent_core.Config.Profile.{
  ThinkingProfile, ProviderConfig, thinking_profile, kept_level, kept_budget, is_budget,
  normalize_thinking,
}

abbrev pub Offers : ThinkingProfile → ThinkingLevel → Type 0
Offers profile level = any (level_eq level) profile.options ≡ true

default-Offers :
    (preset : ProviderPreset) (model : String)
    → Offers (thinking_profile preset model) (thinking_profile preset model).default
unfolding thinking_profile
default-Offers ProviderPreset.open_ai model = refl
default-Offers ProviderPreset.deep_seek model = ground arith
default-Offers ProviderPreset.qwen model = ground arith
default-Offers ProviderPreset.volcano model = refl
default-Offers ProviderPreset.custom model = refl

kept_level-Offers :
    (profile : ThinkingProfile) (level : ThinkingLevel)
    → Offers profile profile.default
    → Offers profile (kept_level profile level)
kept_level-Offers profile level h = elim (Bool-cases (any (level_eq level) profile.options)) [
  | inl e ↦ rw e e
  | inr e ↦ rw e h
]

-- A budget is kept only for a level and a model that take one, and is one of those they take.
abbrev pub BudgetFits : ThinkingProfile → ThinkingLevel → Option ℕ → Type 0
BudgetFits profile level none = Unit
BudgetFits profile level (some b) =
    (is_qwen37 profile.kind ≡ true)
    × (level_eq level ThinkingLevel.enabled ≡ true)
    × (is_budget (some b) ≡ true)

kept_budget-BudgetFits :
    (profile : ThinkingProfile) (level : ThinkingLevel) (budget : Option ℕ)
    → BudgetFits profile level (kept_budget profile level budget)
kept_budget-BudgetFits profile level none = ground arith
kept_budget-BudgetFits profile level (some b) = elim (Bool-cases (is_qwen37 profile.kind)) [
  | inr e ↦ rw e tt
  | inl e ↦ elim (Bool-cases (level_eq level ThinkingLevel.enabled)) [
    | inr f ↦ rw (e, f) tt
    | inl f ↦ elim (Bool-cases (is_budget (some b))) [
      | inr g ↦ rw (e, f, g) tt
      | inl g ↦ rw (e, f, g) (e, f, g)
    ]
  ]
]

kept_budget_idem :
    (profile : ThinkingProfile) (level : ThinkingLevel) (budget : Option ℕ)
    → kept_budget profile level (kept_budget profile level budget)
      ≡ kept_budget profile level budget
kept_budget_idem profile level budget = ground arith

-- The level that a profile has after `normalize_thinking` is one that its model offers, its
-- budget fits that level, and normalizing again changes nothing.
pub normalize_thinking-Offers :
    (p : ProviderConfig)
    → Offers (thinking_profile p.preset p.model) (normalize_thinking p).thinking_level
      × BudgetFits
          (thinking_profile p.preset p.model)
          (normalize_thinking p).thinking_level
          (normalize_thinking p).thinking_budget_tokens
      × (normalize_thinking (normalize_thinking p) ≡ normalize_thinking p)
unfolding normalize_thinking
normalize_thinking-Offers p =
    let profile = thinking_profile p.preset p.model in
    let level = kept_level profile p.thinking_level in
    let o : Offers profile level =
      kept_level-Offers profile p.thinking_level (default-Offers p.preset p.model) in
    let kept : kept_level profile level ≡ level = rw o in
    (
      o,
      kept_budget-BudgetFits profile level p.thinking_budget_tokens,
      ap
            (λ (l : ThinkingLevel). record p {
              thinking_level = l;
              thinking_budget_tokens =
                  kept_budget profile l (kept_budget profile level p.thinking_budget_tokens);
            })
            kept
          ∙ ap (λ (b : Option ℕ). record p { thinking_level = level; thinking_budget_tokens = b })
              (kept_budget_idem profile level p.thinking_budget_tokens),
    )
