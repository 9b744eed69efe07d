-- ===== src/Config/Families.antt =====
-- config/provider.rs: which rule of the registry a model gets.
use h_agent_core.Base.{
  ℕ, ◌≤◌, String, Bool, true, false, List, [], ◌∷◌, Option, none, some, All, Bool-cases,
  Option-cases, ◌∙◌, leb, all, trim_start, trim_end_by, is_whitespace, lower_code, codes, ◌≡◌, refl,
  ap, inl, inr, arith, trim,
}
use native.Mathlib.Nat.{le_trans}
use h_agent_core.Config.Types.{ProviderPreset}
use h_agent_core.Config.Registry.{
  ModelRule, stripped, separated, codes_eq, codes_len, rule_len, model_family_matches,
  later_longest, longest_match, exact_match, or_else, lookup_model_rule, known_model_rule,
  known_context_window, selectable_models,
}

pub codes_eq_sound : (xs ys : List ℕ) → codes_eq xs ys ≡ true → xs ≡ ys
codes_eq_sound [] [] h = refl
codes_eq_sound [] (y ∷ ys) h = cc
codes_eq_sound (x ∷ xs) [] h = cc
codes_eq_sound (x ∷ xs) (y ∷ ys) h = ground (arith, codes_eq_sound xs ys)

separated_len : (m f : List ℕ) → separated (stripped m f) ≡ true → codes_len f ≤ codes_len m
separated_len m [] h = omega arith
separated_len [] (f ∷ fs) h = cc
separated_len (c ∷ m) (f ∷ fs) h = ground (arith, separated_len m fs)

matches_len :
    (m : List ℕ) (f : String) → model_family_matches m f ≡ true → codes_len (codes f) ≤ codes_len m
unfolding model_family_matches
matches_len m f h = elim (Bool-cases (codes_eq m (codes f))) [
  | inl e ↦ omega (arith, ap codes_len (codes_eq_sound m (codes f) e))
  | inr e ↦ separated_len m (codes f) (rw e at h)
]

pub codes_eq_refl : (xs : List ℕ) → codes_eq xs xs ≡ true
codes_eq_refl [] = refl
codes_eq_refl (x ∷ xs) = ground (arith, codes_eq_refl xs)

-- The best rule so far is no longer than this.
abbrev AtMost : ℕ → Option ModelRule → Type 0
AtMost n none = Unit
AtMost n (some b) = rule_len b ≤ n

abbrev Fits : List ℕ → Option ModelRule → Type 0
Fits m none = Unit
Fits m (some b) = model_family_matches m b.model ≡ true

-- No rule of these fits better than one of this length.
abbrev pub NoneLonger : List ℕ → ℕ → List ModelRule → Type 0
NoneLonger m n rules = All (λ q. model_family_matches m q.model ≡ true → rule_len q ≤ n) rules

later_longest-AtMost :
    (best : Option ModelRule) (q : ModelRule) (n : ℕ)
    → AtMost n (later_longest best q)
    → AtMost n best × (rule_len q ≤ n)
later_longest-AtMost none q n h = (tt, h)
later_longest-AtMost (some b) q n h = ground arith

later_longest-Fits :
    (m : List ℕ) (best : Option ModelRule) (q : ModelRule)
    → Fits m best
    → model_family_matches m q.model ≡ true
    → Fits m (later_longest best q)
later_longest-Fits m none q h k = k
later_longest-Fits m (some b) q h k = ground arith

longest_match_lem :
    (m : List ℕ) (best : Option ModelRule) (rules : List ModelRule) (r : ModelRule)
    → Fits m best
    → longest_match m best rules ≡ some r
    → (model_family_matches m r.model ≡ true)
      × AtMost (rule_len r) best
      × NoneLonger m (rule_len r) rules
unfolding longest_match
longest_match_lem m none [] r f h = cc
longest_match_lem m (some b) [] r f h = ground arith
longest_match_lem m best (q ∷ rules) r f h = elim (Bool-cases (model_family_matches m q.model)) [
  | inl e ↦
      let h' : longest_match m (later_longest best q) rules ≡ some r = rw e at h in
      let (a, b, c) =
        longest_match_lem m (later_longest best q) rules r (later_longest-Fits m best q f e) h' in
      let (d, l) = later_longest-AtMost best q (rule_len r) b in (a, d, ((λ _. l), c))
  | inr e ↦
      let h' : longest_match m best rules ≡ some r = rw e at h in
      let (a, b, c) = longest_match_lem m best rules r f h' in (a, b, ((λ k. cc), c))
]

exact_match-codes_eq :
    (m : List ℕ) (rules : List ModelRule) (r : ModelRule)
    → exact_match m rules ≡ some r
    → codes_eq m (codes r.model) ≡ true
unfolding exact_match
exact_match-codes_eq m [] r h = cc
exact_match-codes_eq m (q ∷ rules) r h = elim (Bool-cases (codes_eq m (codes q.model))) [
  | inl e ↦ let h' : some q ≡ some r = rw e at h in ground arith
  | inr e ↦ exact_match-codes_eq m rules r (rw e at h)
]

NoneLonger-of_eq :
    (m : List ℕ) (n : ℕ) (rules : List ModelRule) → codes_len m ≤ n → NoneLonger m n rules
NoneLonger-of_eq m n [] h = tt
NoneLonger-of_eq m n (q ∷ rules) h =
    ((λ k. le_trans (matches_len m q.model k) h), NoneLonger-of_eq m n rules h)

-- The rule that a model gets is of its family, and of the families in the table of prefixes that
-- the model belongs to none is longer.
pub lookup_model_rule_longest :
    (model : List ℕ) (exact prefixes : List ModelRule) (r : ModelRule)
    → lookup_model_rule model exact prefixes ≡ some r
    → (model_family_matches model r.model ≡ true) × NoneLonger model (rule_len r) prefixes
unfolding lookup_model_rule
lookup_model_rule_longest model exact prefixes r h = elim (Option-cases (exact_match model exact)) [
  | inl e ↦ let (a, b, c) = longest_match_lem model none prefixes r tt (rw e at h) in (a, c)
  | inr (q, e) ↦
      let h' : some q ≡ some r = rw e at h in
      let same : exact_match model exact ≡ some r = e ∙ h' in
      let k : codes_eq model (codes r.model) ≡ true = exact_match-codes_eq model exact r same in
      (
        unfold model_family_matches in rw k refl,
        NoneLonger-of_eq model (rule_len r) prefixes
            (omega (arith, ap codes_len (codes_eq_sound model (codes r.model) k))),
      )
]

module _ (P : ModelRule → Type 0) where
  abbrev pub Holds : Option ModelRule → Type 0
  Holds none = Unit
  Holds (some r) = P r

  exact_match-Holds :
      (m : List ℕ) (rules : List ModelRule) → All P rules → Holds (exact_match m rules)
  unfolding exact_match
  exact_match-Holds m [] h = tt
  exact_match-Holds m (q ∷ rules) (p, h) = elim (Bool-cases (codes_eq m (codes q.model))) [
    | inl e ↦ rw e p
    | inr e ↦ rw e (exact_match-Holds m rules h)
  ]

  later_longest-Holds :
      (best : Option ModelRule) (q : ModelRule) → Holds best → P q → Holds (later_longest best q)
  later_longest-Holds none q h p = p
  later_longest-Holds (some b) q h p = elim (Bool-cases (leb (rule_len b) (rule_len q))) [
    | inl e ↦ rw e p
    | inr e ↦ rw e h
  ]

  longest_match-Holds :
      (m : List ℕ) (best : Option ModelRule) (rules : List ModelRule)
      → Holds best
      → All P rules
      → Holds (longest_match m best rules)
  unfolding longest_match
  longest_match-Holds m best [] h k = h
  longest_match-Holds m best (q ∷ rules) h (p, k) =
      elim (Bool-cases (model_family_matches m q.model)) [
        | inl e ↦
            rw e (
              longest_match-Holds m (later_longest best q) rules (later_longest-Holds best q h p) k)
        | inr e ↦ rw e (longest_match-Holds m best rules h k)
      ]

  or_else-Holds : (a b : Option ModelRule) → Holds a → Holds b → Holds (or_else a b)
  or_else-Holds none b h k = k
  or_else-Holds (some a) b h k = h

  lookup_model_rule-Holds :
      (m : List ℕ) (exact prefixes : List ModelRule)
      → All P exact
      → All P prefixes
      → Holds (lookup_model_rule m exact prefixes)
  unfolding lookup_model_rule
  lookup_model_rule-Holds m exact prefixes h k =
      or_else-Holds (exact_match m exact) (longest_match m none prefixes)
        (exact_match-Holds m exact h) (longest_match-Holds m none prefixes tt k)

abbrev OutputBelow : ℕ → Option ℕ → Type 0
OutputBelow window none = Unit
OutputBelow window (some cap) = cap ≤ window

-- A window and a cap on the output as the configuration would take them.
abbrev pub IsSane : ModelRule → Type 0
IsSane r =
    (4096 ≤ r.context_window_tokens)
    × (r.context_window_tokens ≤ 10000000)
    × OutputBelow r.context_window_tokens r.max_output_tokens

-- Every rule of the registry that a name can get is sane.
pub known_model_rule-IsSane :
    (preset : ProviderPreset) (name : String) → Holds IsSane (known_model_rule preset name)
unfolding known_model_rule
known_model_rule-IsSane ProviderPreset.open_ai name =
    lookup_model_rule-Holds IsSane _ _ _ (omega arith) (omega arith)
known_model_rule-IsSane ProviderPreset.deep_seek name =
    lookup_model_rule-Holds IsSane _ _ _ (omega arith) (omega arith)
known_model_rule-IsSane ProviderPreset.qwen name =
    lookup_model_rule-Holds IsSane _ _ _ (omega arith) (omega arith)
known_model_rule-IsSane ProviderPreset.volcano name =
    lookup_model_rule-Holds IsSane _ _ _ tt (omega arith)
known_model_rule-IsSane ProviderPreset.custom name =
    or_else-Holds IsSane _ _ (lookup_model_rule-Holds IsSane _ _ _ (omega arith) (omega arith)) (
      or_else-Holds IsSane _ _ (lookup_model_rule-Holds IsSane _ _ _ (omega arith) (omega arith)) (
        or_else-Holds IsSane _ _ (lookup_model_rule-Holds IsSane _ _ _ (omega arith) (omega arith))
          (lookup_model_rule-Holds IsSane _ _ _ tt (omega arith))))

abbrev is_some : Option ℕ → Bool
is_some none = false
is_some (some n) = true

-- Every model that the settings offer has a built-in window.
pub selectable_models_known :
    (preset : ProviderPreset)
    → all (λ m. is_some (known_context_window preset m)) (selectable_models preset) ≡ true
unfolding known_context_window known_model_rule lookup_model_rule exact_match longest_match
    model_family_matches trim trim_start trim_end_by is_whitespace lower_code
selectable_models_known ProviderPreset.open_ai = refl
selectable_models_known ProviderPreset.deep_seek = refl
selectable_models_known ProviderPreset.qwen = refl
selectable_models_known ProviderPreset.volcano = refl
selectable_models_known ProviderPreset.custom = refl
