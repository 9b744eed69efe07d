-- ===== src/Policy/ReadOnly.antt =====
-- What gets through `policy` (tools/mod.rs) in a read-only mode.
use h_agent_core.Base.{
  ◌≡◌, refl, ap, ◌⊎◌, inl, inr, String, true, false, List, [], ◌∷◌, Option, none, some, arith,
  one_of, lookup, Bool-cases, str_starts_with, str_eq, ◌+s◌,
}
use text.Mathlib.TextEquality.{eq_iff}
use h_agent_core.Protocol.{Json, ToolCall}
use h_agent_core.Policy.{
  PolicyDecision, allow, require_approval, deny, ToolRegistry, is_writable, policy, settle,
  read_only_blocked, apply_override, configured_decision, session_rule_matches, needs_approval,
  classify_tool, classify_git, git_subcommand, unwrap_or_default, write_git, or_else,
}
use h_agent_core.Policy.Modes.{IsDenied, IsConfiguredDeny}

-- The tools that only look at files, at the web or at the list of tasks.
abbrev pub looking_tools : List String
looking_tools =
    "file_list" ∷ "file_stat" ∷ "file_read" ∷ "file_search" ∷ "file_glob" ∷ "repo_map"
    ∷ "web_search" ∷ "web_fetch" ∷ "market_quote" ∷ "git_diff" ∷ "todo_read" ∷ "todo_write" ∷ []

-- The git operations that only look.
abbrev pub looking_git : List String
looking_git = "status" ∷ "diff" ∷ "log" ∷ "show" ∷ []

-- Never allowed by the configuration alone.
abbrev IsNotAllow : PolicyDecision → Type 0
IsNotAllow allow = ⊥
IsNotAllow (require_approval _) = Unit
IsNotAllow (deny _) = Unit

module _ {V : Type 0} ⦃j : Json V⦄ (r : ToolRegistry) (call : ToolCall V) where
  -- The operation of a git call, empty where there is none.
  abbrev pub git_operation : String
  git_operation = unwrap_or_default (git_subcommand call.arguments)

  -- A call that a read-only mode may let through.
  pub data IsOpen : Type 0 where
    looks : one_of looking_tools call.name ≡ true → IsOpen
    delegates : str_eq call.name "agent_spawn" ≡ true → IsOpen
    browses : str_starts_with call.name "browser_" ≡ true → IsOpen
    leaves : str_starts_with call.name "mcp:" ≡ true → IsOpen
    looks_at_git : str_eq call.name "git" ≡ true → one_of looking_git git_operation ≡ true → IsOpen
    follows_rule : str_eq call.name "git" ≡ true → session_rule_matches r call ≡ true → IsOpen

  asked_for :
      (o : Option String)
      → (o ≡ some "deny" → ⊥)
      → (why : String) → needs_approval (apply_override o (require_approval why)) ≡ true
  unfolding apply_override
  asked_for none h why = refl
  asked_for (some v) h why = elim (Bool-cases (str_eq v "deny")) [
    | inl s ↦ absurd (h (ap some ((eq_iff v "deny").0 s)))
    | inr s ↦ rw s refl
  ]

  configured_value :
      (own all_tools : Option String)
      → or_else own all_tools ≡ some "deny"
      → (own ≡ some "deny") ⊎ ((own ≡ none) × (all_tools ≡ some "deny"))
  configured_value none all_tools h = inr (refl, h)
  configured_value (some v) all_tools h = inl h

  classify_git_asks :
      one_of looking_git git_operation ≡ false
      → str_eq git_operation "" ≡ false
      → (why : String) × (classify_git call.arguments ≡ require_approval why)
  unfolding classify_git
  classify_git_asks o e = elim (Bool-cases (one_of write_git git_operation)) [
    | inl w ↦ ("git " +s git_operation +s " can change state", rw (o, w) refl)
    | inr w ↦ ("unclassified git operation: " +s git_operation, rw (o, w, e) refl)
  ]

  classify_tool_git :
      call.name ≡ "git" → classify_tool call.name call.arguments ≡ classify_git call.arguments
  unfolding classify_tool
  classify_tool_git g = rw g refl

  git_asked :
      call.name ≡ "git"
      → one_of looking_git git_operation ≡ false
      → str_eq git_operation "" ≡ false
      → (IsConfiguredDeny r call → ⊥)
      → needs_approval (configured_decision r call) ≡ true
  unfolding configured_decision
  git_asked g o e h =
      let (why, asks) = classify_git_asks o e in
      rw (classify_tool_git g, asks)
        (asked_for (or_else (lookup call.name r.permissions) (lookup "*" r.permissions))
          (λ k. h (configured_value _ _ k)) why)

  settle_asked :
      (d : PolicyDecision)
      → is_writable r.mode ≡ false
      → call.name ≡ "git"
      → needs_approval d ≡ true
      → (session_rule_matches r call ≡ true → settle r call d ≡ allow)
        × (session_rule_matches r call ≡ false → IsDenied (settle r call d))
  unfolding settle
  settle_asked allow w g h = absurd (ground arith)
  settle_asked (deny why) w g h = absurd (ground arith)
  settle_asked (require_approval why) w g h = (λ s. rw s refl, λ s. rw (s, w, g) tt)

  git_passes :
      is_writable r.mode ≡ false
      → call.name ≡ "git"
      → policy r call ≡ settle r call (configured_decision r call)
  unfolding policy
  git_passes w g =
      let blocked : one_of read_only_blocked call.name ≡ false = rw g refl in
      let browser : str_starts_with call.name "browser_" ≡ false = rw g refl in
      let external : str_starts_with call.name "mcp:" ≡ false = rw g refl in
      rw (w, blocked, browser, external)

  -- In a read-only mode a git call with an operation other than status, diff, log and show, which the configuration does not deny, is decided by the rules of the session alone: it runs unasked if one of them matches it, and is refused if none does.
  pub policy_read_only_git :
      is_writable r.mode ≡ false
      → call.name ≡ "git"
      → one_of looking_git git_operation ≡ false
      → str_eq git_operation "" ≡ false
      → (IsConfiguredDeny r call → ⊥)
      → (session_rule_matches r call ≡ true → policy r call ≡ allow)
        × (session_rule_matches r call ≡ false → IsDenied (policy r call))
  policy_read_only_git w g o e h =
      rw (git_passes w g) (settle_asked (configured_decision r call) w g (git_asked g o e h))
