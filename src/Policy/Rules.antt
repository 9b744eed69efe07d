-- ===== src/Policy/Rules.antt =====
-- The always-allow rules of a session (`allow_for_session`, `session_rule_matches` of
-- tools/mod.rs).
use h_agent_core.Base.{
  String, ◌≡◌, refl, ap, ◌∙◌, inl, inr, Bool, true, false, ◌||◌, List, [], ◌∷◌, ◌++◌, Option, none,
  some, arith, any, filter, Bool-cases,
}
use text.Mathlib.TextEquality.{eq_iff}
use text.Mathlib.TextPositions.{eq_refl}
use h_agent_core.Protocol.{Json, ToolCall}
use h_agent_core.Policy.{
  SessionAllowRule, ToolRegistry, rule_matches, session_rule_matches, allow_for_session, differs,
  opt_str_eq,
}

opt_str_eq_refl : (o : Option String) → opt_str_eq o o ≡ true
opt_str_eq_refl none = refl
opt_str_eq_refl (some s) = eq_refl s

opt_str_eq_sound : (a b : Option String) → opt_str_eq a b ≡ true → a ≡ b
opt_str_eq_sound none none h = refl
opt_str_eq_sound none (some b) h = cc
opt_str_eq_sound (some a) none h = cc
opt_str_eq_sound (some a) (some b) h = ap some ((eq_iff a b).0 h)

-- A rule that the new one replaces is the new one.
same_rule : (rule old : SessionAllowRule) → differs rule old ≡ false → old ≡ rule
same_rule rule old h = λ i. record {
  tool = (eq_iff old.tool rule.tool).0 (ground arith) i;
  prefix = opt_str_eq_sound old.prefix rule.prefix (ground arith) i;
}

differs_self : (rule : SessionAllowRule) → differs rule rule ≡ false
differs_self rule = rw (eq_refl rule.tool, opt_str_eq_refl rule.prefix)

filter-differs_idem :
    (rule : SessionAllowRule) (rules : List SessionAllowRule)
    → filter (differs rule) (filter (differs rule) rules ++ rule ∷ []) ≡ filter (differs rule) rules
filter-differs_idem rule [] = rw (differs_self rule)
filter-differs_idem rule (x ∷ rules) = elim (Bool-cases (differs rule x)) [
  | inl d ↦ rw (d, d) (ap (λ t. x ∷ t) (filter-differs_idem rule rules))
  | inr s ↦ rw s (filter-differs_idem rule rules)
]

module _ {V : Type 0} ⦃j : Json V⦄ where
  any-filter :
      (call : ToolCall V) (rule : SessionAllowRule) (rules : List SessionAllowRule)
      → any (rule_matches call) (filter (differs rule) rules ++ rule ∷ [])
        ≡ (rule_matches call rule || any (rule_matches call) rules)
  any-filter call rule [] = refl
  any-filter call rule (x ∷ rules) = elim (Bool-cases (differs rule x)) [
    | inl d ↦
        rw d (swap (rule_matches call x) (rule_matches call rule) _ _ (any-filter call rule rules))
    | inr s ↦ rw s (
        any-filter call rule rules
        ∙ absorb (rule_matches call rule) (rule_matches call x) _
            (ap (rule_matches call) (same_rule rule x s)))
  ]
    where
      swap : (a b c d : Bool) → c ≡ (b || d) → (a || c) ≡ (b || (a || d))
      swap a b c d h = ground arith

      absorb : (b a d : Bool) → a ≡ b → (b || d) ≡ (b || (a || d))
      absorb b a d h = ground arith

  -- A new rule of the session adds the calls that it matches itself, and takes none away.
  session_rule_matches-allow_for_session :
      (r : ToolRegistry) (tool : String) (prefix : Option String) (call : ToolCall V)
      → session_rule_matches (allow_for_session r tool prefix) call ≡ (
          rule_matches call (record { tool = tool; prefix = prefix })
          || session_rule_matches r call)
  unfolding session_rule_matches allow_for_session
  session_rule_matches-allow_for_session r tool prefix call =
      any-filter call (record { tool = tool; prefix = prefix }) r.session_allows

-- Allowing the same a second time changes nothing: a rule is held once.
pub allow_for_session_idem :
    (r : ToolRegistry) (tool : String) (prefix : Option String)
    → allow_for_session (allow_for_session r tool prefix) tool prefix
      ≡ allow_for_session r tool prefix
unfolding allow_for_session
allow_for_session_idem r tool prefix = λ i. record {
  mode = r.mode;
  permissions = r.permissions;
  session_allows =
      filter-differs_idem (record { tool = tool; prefix = prefix }) r.session_allows i
      ++ record { tool = tool; prefix = prefix } ∷ [];
}
