-- ===== src/Policy.antt =====
-- security.rs (`classify_tool`, `classify_git`) and tools/mod.rs (`policy` and the rules of the
-- session): whether a tool call runs, waits for an approval or is refused. The registry's locks
-- are never poisoned, since no code panics while it holds one, so a field is read as it stands.
pub mod Modes
pub mod ReadOnly
pub mod Rules
mod Tests
use h_agent_core.Base.{
  ℕ, String, Bool, true, false, not, ◌&&◌, ◌||◌, List, [], ◌∷◌, ◌++◌, Option, none, some,
  if◌then◌else◌, any, all, filter, take, str_eq, str_starts_with, one_of, lookup, ◌+s◌,
}
use mathlib.Core.List.{head?, filter_map}
use h_agent_core.Protocol.{Json, ToolCall}

pub data PolicyDecision : Type 0 where
  allow : PolicyDecision
  require_approval deny : String → PolicyDecision

-- commands.rs
pub data AgentMode : Type 0 where
  build plan explore cluster : AgentMode

unfoldable pub mode_as_str : AgentMode → String
mode_as_str build = "build"
mode_as_str plan = "plan"
mode_as_str explore = "explore"
mode_as_str cluster = "cluster"

unfoldable pub mode_parse : String → Option AgentMode
mode_parse value =
    if str_eq value "build"
    then some build
    else if str_eq value "plan"
    then some plan
    else if str_eq value "explore"
    then some explore
    else if str_eq value "cluster"
    then some cluster
    else none

abbrev pub is_writable : AgentMode → Bool
is_writable build = true
is_writable cluster = true
is_writable _ = false

pub record SessionAllowRule : Type 0 where
  pub tool : String
  pub prefix : Option String

pub record ToolRegistry : Type 0 where
  pub mode : AgentMode
  pub permissions : List (String × String)
  pub session_allows : List SessionAllowRule

abbrev bind {ℓ κ} : {A : Type ℓ} {B : Type κ} → Option A → (A → Option B) → Option B
bind none f = none
bind (some a) f = f a

abbrev unwrap_or_default : Option String → String
unwrap_or_default none = ""
unwrap_or_default (some s) = s

abbrev or_else {ℓ} : {A : Type ℓ} → Option A → Option A → Option A
or_else none b = b
or_else (some a) b = some a

abbrev pub read_tools : List String
read_tools =
    "file_list" ∷ "file_stat" ∷ "file_read" ∷ "file_search" ∷ "file_glob" ∷ "repo_map"
    ∷ "web_search" ∷ "web_fetch" ∷ "market_quote" ∷ "git_diff" ∷ "todo_read" ∷ "todo_write" ∷ []

abbrev pub write_tools : List String
write_tools =
    "file_write" ∷ "file_edit" ∷ "file_mkdir" ∷ "file_copy" ∷ "file_move" ∷ "file_delete" ∷ []

abbrev pub read_git : List String
read_git = "status" ∷ "diff" ∷ "log" ∷ "show" ∷ []

abbrev pub write_git : List String
write_git =
    "add" ∷ "commit" ∷ "checkout" ∷ "switch" ∷ "branch" ∷ "restore" ∷ "reset" ∷ "fetch" ∷ "pull"
    ∷ "push" ∷ []

abbrev non_empty : Option String → Option String
non_empty none = none
non_empty (some s) = if str_eq s "" then none else some s

abbrev join_words : List String → String
join_words [] = ""
join_words (w ∷ []) = w
join_words (w ∷ v ∷ ws) = w +s " " +s join_words (v ∷ ws)

abbrev prefix_matches : Option String → String → Bool
prefix_matches none prefix = false
prefix_matches (some command) prefix = str_starts_with command prefix

-- The configured rule of a tool, its own or that of `*`, over what `classify_tool` decided.
unfoldable pub apply_override : Option String → PolicyDecision → PolicyDecision
apply_override none decision = decision
apply_override (some value) decision =
    if str_eq value "deny" then deny "denied by configured tool policy" else elim decision [
      | allow ↦
          if str_eq value "ask"
          then require_approval "requested by configured tool policy"
          else allow
      | require_approval why ↦ require_approval why
      | deny why ↦ deny why
    ]

abbrev pub needs_approval : PolicyDecision → Bool
needs_approval (require_approval _) = true
needs_approval _ = false

abbrev pub read_only_blocked : List String
read_only_blocked =
    "file_write" ∷ "file_edit" ∷ "file_mkdir" ∷ "file_copy" ∷ "file_move" ∷ "file_delete"
    ∷ "terminal_exec" ∷ "terminal_shell" ∷ []

module _ {V : Type 0} ⦃j : Json V⦄ where
  -- The first argument of a git call, if `args` is an array that begins with a text.
  abbrev pub git_subcommand : V → Option String
  git_subcommand arguments = bind (bind (bind (j.get arguments "args") j.as_array) head?) j.as_str

  unfoldable pub classify_git : V → PolicyDecision
  classify_git arguments =
      let operation = unwrap_or_default (git_subcommand arguments) in
      if one_of read_git operation
      then allow
      else if one_of write_git operation
      then require_approval ("git " +s operation +s " can change state")
      else if str_eq operation ""
      then deny "git requires a subcommand"
      else require_approval ("unclassified git operation: " +s operation)

  unfoldable pub classify_tool : String → V → PolicyDecision
  classify_tool name arguments =
      if one_of read_tools name
      then allow
      else if one_of write_tools name
      then require_approval (name +s " changes workspace files")
      else if str_eq name "terminal_exec"
      then require_approval "run a local process"
      else if str_eq name "agent_spawn"
      then require_approval "start a bounded child agent"
      else if str_eq name "git"
      then classify_git arguments
      else deny ("unknown tool: " +s name)

  abbrev exec_words : Option (List V) → List String
  exec_words none = []
  exec_words (some args) = take 8 (filter_map j.as_str args)

  unfoldable pub normalized_command_prefix : ToolCall V → Option String
  normalized_command_prefix call =
      if str_eq call.name "terminal_shell"
      then non_empty (bind (j.get call.arguments "command") j.as_str)
      else if str_eq call.name "terminal_exec"
      then (let program = unwrap_or_default (bind (j.get call.arguments "program") j.as_str) in
          if str_eq program ""
          then none
          else some
              (join_words (program ∷ exec_words (bind (j.get call.arguments "args") j.as_array))))
      else if str_eq call.name "git"
      then git_subcommand call.arguments
      else none

  abbrev pub rule_prefix_matches : Option String → ToolCall V → Bool
  rule_prefix_matches none call = true
  rule_prefix_matches (some prefix) call = prefix_matches (normalized_command_prefix call) prefix

  abbrev pub rule_matches : ToolCall V → SessionAllowRule → Bool
  rule_matches call rule =
      if str_eq rule.tool call.name then rule_prefix_matches rule.prefix call else false

  unfoldable pub session_rule_matches : ToolRegistry → ToolCall V → Bool
  session_rule_matches r call = any (rule_matches call) r.session_allows

  -- The decision before the rules of the session.
  unfoldable pub configured_decision : ToolRegistry → ToolCall V → PolicyDecision
  configured_decision r call =
      apply_override (or_else (lookup call.name r.permissions) (lookup "*" r.permissions))
        (classify_tool call.name call.arguments)

  -- The end of `policy`, from the configured decision on.
  unfoldable pub settle : ToolRegistry → ToolCall V → PolicyDecision → PolicyDecision
  settle r call decision =
      if needs_approval decision && session_rule_matches r call
      then allow
      else if not (is_writable r.mode) && (str_eq call.name "git" && needs_approval decision)
      then deny (mode_as_str r.mode +s " mode blocks mutating git operations")
      else decision

  unfoldable pub policy : ToolRegistry → ToolCall V → PolicyDecision
  policy r call =
      if not (is_writable r.mode) && one_of read_only_blocked call.name
      then deny (mode_as_str r.mode +s " mode is read-only")
      else if str_starts_with call.name "browser_"
      then (if one_of ("browser_open" ∷ "browser_snapshot" ∷ []) call.name
          then allow
          else require_approval "browser interaction can change page state")
      else if str_starts_with call.name "mcp:"
      then require_approval "external local tool call"
      else settle r call (configured_decision r call)

abbrev opt_str_eq : Option String → Option String → Bool
opt_str_eq none none = true
opt_str_eq (some a) (some b) = str_eq a b
opt_str_eq _ _ = false

-- `existing.tool != rule.tool || existing.prefix != rule.prefix`.
abbrev pub differs : SessionAllowRule → SessionAllowRule → Bool
differs rule existing =
    not (str_eq existing.tool rule.tool) || not (opt_str_eq existing.prefix rule.prefix)

unfoldable pub allow_for_session : ToolRegistry → String → Option String → ToolRegistry
allow_for_session r tool prefix =
    let rule : SessionAllowRule = record { tool = tool; prefix = prefix } in
    record r { session_allows = filter (differs rule) r.session_allows ++ rule ∷ [] }

unfoldable pub set_mode : ToolRegistry → AgentMode → ToolRegistry
set_mode r mode = record r { mode = mode }

unfoldable pub set_permission_rules : ToolRegistry → List (String × String) → ToolRegistry
set_permission_rules r rules = record r { permissions = rules }
