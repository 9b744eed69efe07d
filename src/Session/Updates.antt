-- ===== src/Session/Updates.antt =====
-- session.rs: how the branches of `handle_event` find and change an entry, and their small tests.
use h_agent_core.Base.{
  ℕ, ◌+◌, ◌-◌, ◌/◌, String, Bool, true, false, ◌&&◌, List, [], ◌∷◌, Option, none, some,
  if◌then◌else◌, str_eq, ◌+s◌,
}
use h_agent_core.Conversation.{ConversationItem, compaction_summary}
use h_agent_core.Session.Model.{
  DisplayKind, ToolDisplayStatus, ToolDisplay, DisplayContent, DisplayEntry, PendingApproval,
  ApprovalAction,
}
use h_agent_core.Session.Entries.{entry}

-- `delay_ms.div_ceil(1000)`.
abbrev pub div_ceil : ℕ → ℕ → ℕ
div_ceil a b = (a + (b - 1)) / b

abbrev pub is_running : ToolDisplayStatus → Bool
is_running ToolDisplayStatus.running = true
is_running _ = false

-- The tool of a web search that runs.
abbrev pub is_open_search : {V : Type 0} → DisplayEntry V → Bool
is_open_search e = elim e.content [
  | DisplayContent.tool t ↦ str_eq t.name "web_search" && is_running t.status
  | _ ↦ false
]

abbrev pub is_call : {V : Type 0} → String → DisplayEntry V → Bool
is_call id e = elim e.content [ DisplayContent.tool t ↦ str_eq t.call_id id | _ ↦ false ]

abbrev pub change_tool :
    {V : Type 0} → (ToolDisplay V → ToolDisplay V) → DisplayEntry V → DisplayEntry V
change_tool f e = elim e.content [
  | DisplayContent.tool t ↦ entry e.kind (DisplayContent.tool (f t))
  | _ ↦ e
]

-- `entries.iter_mut().rev().find_map(…)`: the last entry that passes, changed in place; `none`
-- where none passes.
unfoldable pub change_last :
    {V : Type 0}
    → (DisplayEntry V → Bool)
    → (ToolDisplay V → ToolDisplay V)
    → List (DisplayEntry V)
    → Option (List (DisplayEntry V))
change_last p f [] = none
change_last p f (e ∷ es) =
    let here : Option (List _) = if p e then some (change_tool f e ∷ es) else none in
    elim (change_last p f es) [ none ↦ here | some later ↦ some (e ∷ later) ]

abbrev pub or_else {ℓ} : {A : Type ℓ} → Option A → A → A
or_else none d = d
or_else (some a) d = a

-- `result.get_or_insert_with(String::new)`, a blank line between two results.
abbrev pub add_result : String → Option String → String
add_result found none = found
add_result found (some result) = (if str_eq result "" then "" else result +s "\n\n") +s found

abbrev pub last_is_open_search : {V : Type 0} → List (DisplayEntry V) → Bool
last_is_open_search [] = false
last_is_open_search (e ∷ []) = is_open_search e
last_is_open_search (e ∷ d ∷ es) = last_is_open_search (d ∷ es)

abbrev pub is_assistant : DisplayKind → Bool
is_assistant DisplayKind.assistant = true
is_assistant DisplayKind.assistant_partial = true
is_assistant _ = false

-- The last entry with a delta at its end, if it is an answer; `none` if it is not.
unfoldable pub append_to_last :
    {V : Type 0} → String → List (DisplayEntry V) → Option (List (DisplayEntry V))
append_to_last delta [] = none
append_to_last delta (e ∷ []) =
    let longer : Option (List _) = elim e.content [
      | DisplayContent.markdown text ↦
          some (entry e.kind (DisplayContent.markdown (text +s delta)) ∷ [])
      | _ ↦ none
    ] in
    if is_assistant e.kind then longer else none
append_to_last delta (e ∷ d ∷ es) = elim (append_to_last delta (d ∷ es)) [
  | none ↦ none
  | some later ↦ some (e ∷ later)
]

abbrev pub is_summary : {V : Type 0} → ConversationItem V → Bool
is_summary (compaction_summary content) = true
is_summary _ = false

-- What is sent when a pending approval is turned down.
abbrev pub refusal : {V : Type 0} → Option (PendingApproval V) → List (ℕ × Bool)
refusal none = []
refusal (some p) = elim p.action [ ApprovalAction.agent reply ↦ (reply, false) ∷ [] | _ ↦ [] ]

abbrev pub map_name : (String → String) → Option String → Option String
map_name f none = none
map_name f (some name) = some (f name)

abbrev pub is_none {ℓ} : {A : Type ℓ} → Option A → Bool
is_none none = true
is_none (some a) = false
