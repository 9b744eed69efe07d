-- ===== src/Policy/Modes.antt =====
-- What the mode of the agent and the configured permissions settle in `policy` (tools/mod.rs).
use h_agent_core.Base.{
  ◌≡◌, refl, sym, ◌∙◌, ◌⊎◌, inl, inr, true, false, not, ◌&&◌, none, some, arith, one_of, lookup,
  Bool-cases, str_starts_with,
}
use h_agent_core.Protocol.{Json, ToolCall}
use h_agent_core.Policy.{
  PolicyDecision, allow, require_approval, deny, AgentMode, build, plan, explore, cluster,
  ToolRegistry, is_writable, mode_as_str, mode_parse, policy, settle, read_only_blocked,
  apply_override, configured_decision, session_rule_matches, needs_approval,
}

-- Printing a mode and parsing it back gives the mode.
pub mode_parse-mode_as_str : (m : AgentMode) → mode_parse (mode_as_str m) ≡ some m
unfolding mode_parse mode_as_str
mode_parse-mode_as_str build = refl
mode_parse-mode_as_str plan = refl
mode_parse-mode_as_str explore = refl
mode_parse-mode_as_str cluster = refl

abbrev pub IsDenied : PolicyDecision → Type 0
IsDenied allow = ⊥
IsDenied (require_approval _) = ⊥
IsDenied (deny _) = Unit

module _ {V : Type 0} ⦃j : Json V⦄ (r : ToolRegistry) (call : ToolCall V) where
  -- The configured rule of the tool itself, or else that of `*`, is "deny".
  abbrev pub IsConfiguredDeny : Type 0
  IsConfiguredDeny =
      (lookup call.name r.permissions ≡ some "deny")
      ⊎ ((lookup call.name r.permissions ≡ none) × (lookup "*" r.permissions ≡ some "deny"))

  configured_decision-IsDenied : IsConfiguredDeny → IsDenied (configured_decision r call)
  unfolding configured_decision apply_override
  configured_decision-IsDenied (inl h) = rw h tt
  configured_decision-IsDenied (inr (h, k)) = rw (h, k) tt

  pub settle-IsDenied : (d : PolicyDecision) → IsDenied d → IsDenied (settle r call d)
  unfolding settle
  settle-IsDenied allow h = elim h [ ]
  settle-IsDenied (require_approval why) h = elim h [ ]
  settle-IsDenied (deny why) h = ground arith

  -- Neither a browser tool nor an external one: `policy` classifies it by its name.
  abbrev pub IsClassified : Type 0
  IsClassified =
      (str_starts_with call.name "browser_" ≡ false) × (str_starts_with call.name "mcp:" ≡ false)

  policy-settle :
      IsClassified
      → IsDenied (policy r call) ⊎ (policy r call ≡ settle r call (configured_decision r call))
  unfolding policy
  policy-settle (b, m) =
      elim (Bool-cases (not (is_writable r.mode) && one_of read_only_blocked call.name)) [
        | inl blocked ↦ inl (rw blocked tt)
        | inr free ↦ inr (rw (free, b, m))
      ]

  -- For a tool that is neither a browser tool nor an external one, a configured "deny", its own or
  -- that of `*` where it has none, is a refusal, whatever the rules of the session say.
  pub policy_configured_deny : IsClassified → IsConfiguredDeny → IsDenied (policy r call)
  policy_configured_deny c d = elim (policy-settle c) [
    | inl denied ↦ denied
    | inr same ↦ rw same (settle-IsDenied _ (configured_decision-IsDenied d))
  ]

  settle_allow :
      (d : PolicyDecision)
      → settle r call d ≡ allow
      → (d ≡ allow) ⊎ ((needs_approval d ≡ true) × (session_rule_matches r call ≡ true))
  unfolding settle
  settle_allow allow h = inl refl
  settle_allow (require_approval why) h = ground arith
  settle_allow (deny why) h = ground arith

  -- A call of a tool that is neither a browser tool nor an external one runs unasked only if its
  -- classification under the configured permissions allows it, or if that would have it asked for
  -- and a rule of the session matches it.
  pub policy_allow_sound :
      IsClassified
      → policy r call ≡ allow
      → (configured_decision r call ≡ allow)
        ⊎ ((needs_approval (configured_decision r call) ≡ true)
            × (session_rule_matches r call ≡ true))
  policy_allow_sound c h = elim (policy-settle c) [
    | inl denied ↦ elim (rw h at denied) [ ]
    | inr same ↦ settle_allow _ (sym same ∙ h)
  ]
