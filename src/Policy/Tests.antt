-- ===== src/Policy/Tests.antt =====
-- Tests and examples for the permission policy of security.rs and tools/mod.rs.
use h_agent_core.Base.{inl, inr, arith, [], ◌∷◌, some, ◌≡◌, refl, true, false}
use h_agent_core.Samples.{sample_json, git_status, git_push}
use h_agent_core.Policy.{
  allow, require_approval, build, plan, ToolRegistry, policy, settle, configured_decision,
  apply_override, classify_tool, classify_git, session_rule_matches, normalized_command_prefix,
  needs_approval,
}
use h_agent_core.Policy.Modes.{IsDenied, IsConfiguredDeny}
use h_agent_core.Policy.ReadOnly.{policy_read_only_git}

abbrev planning : ToolRegistry
planning = record { mode = plan; permissions = []; session_allows = [] }

-- Building, with every tool denied by the configuration.
abbrev denying : ToolRegistry
denying = record { mode = build; permissions = ("*", "deny") ∷ []; session_allows = [] }

abbrev git_allowed : ToolRegistry
git_allowed = record {
  mode = plan;
  permissions = [];
  session_allows = record { tool = "git"; prefix = some "push" } ∷ [];
}

asks_for_push :
    policy (record { mode = build; permissions = []; session_allows = [] }) git_push
    ≡ require_approval "git push can change state"
unfolding policy settle configured_decision apply_override classify_tool classify_git
    session_rule_matches
asks_for_push = refl

matches_push : session_rule_matches git_allowed git_push ≡ true
unfolding session_rule_matches normalized_command_prefix
matches_push = refl

no_match : session_rule_matches planning git_push ≡ false
unfolding session_rule_matches
no_match = refl

asked : needs_approval (configured_decision git_allowed git_push) ≡ true
unfolding configured_decision apply_override classify_tool classify_git
asked = refl

status_runs : policy planning git_status ≡ allow
unfolding policy settle configured_decision apply_override classify_tool classify_git
    session_rule_matches
status_runs = refl

not_denied : IsConfiguredDeny git_allowed git_push → ⊥
not_denied (inl h) = ground arith
not_denied (inr (h, k)) = ground arith

policy_read_only_git_example :
    (session_rule_matches git_allowed git_push ≡ true → policy git_allowed git_push ≡ allow)
    × (session_rule_matches git_allowed git_push ≡ false → IsDenied (policy git_allowed git_push))
policy_read_only_git_example =
    policy_read_only_git git_allowed git_push refl refl refl refl not_denied
