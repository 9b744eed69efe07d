-- ===== src/Session/Entries.antt =====
-- session.rs: the list of display entries, its size, its trim, the entries of a conversation, and
-- the status of a tool by the text of its result.
use h_agent_core.Base.{
  ℕ, zero, suc, ◌+◌, ◌-◌, ◌*◌, String, Bool, false, ◌||◌, List, [], ◌∷◌, ◌++◌, Option, none, some,
  ltb, if◌then◌else◌, length, drop, byte_len, opt_byte_len, str_eq, ◌+s◌, print_ℕ, lookup, codes,
  lower_codes, codes_start_with, mib,
}
use h_agent_core.Protocol.{Json, ToolCall}
use h_agent_core.Conversation.{
  ConversationItem, message, thinking_summary, compaction_summary, context, provider_item,
  assistant_tool_calls, tool_output, Role, user, assistant, system,
}
use h_agent_core.Session.Model.{
  DisplayKind, ToolDisplayStatus, DisplayContent, DisplayEntry, Services,
}

abbrev result_starts : String → String → Bool
result_starts result prefix = codes_start_with (lower_codes result) (codes prefix)

unfoldable pub tool_result_status : String → ToolDisplayStatus
tool_result_status result =
    if result_starts result "rejected by user" || result_starts result "denied by policy"
    then ToolDisplayStatus.rejected
    else if result_starts result "tool failed"
        || (result_starts result "security policy denied"
            || (result_starts result "process timed out"
                || result_starts result "duplicate tool call"))
    then ToolDisplayStatus.failed
    else ToolDisplayStatus.completed

abbrev pub max_entries : ℕ
max_entries = 1000

abbrev pub max_bytes : ℕ
max_bytes = 2 * mib

module _ {V : Type 0} ⦃j : Json V⦄ where
  unfoldable pub content_bytes : DisplayContent V → ℕ
  content_bytes (DisplayContent.markdown value) = byte_len value
  content_bytes (DisplayContent.diff value) = byte_len value
  content_bytes (DisplayContent.tool t) =
      byte_len t.call_id
      + byte_len t.name
      + byte_len (j.to_string t.arguments)
      + opt_byte_len t.result
  content_bytes (DisplayContent.thinking t) = byte_len t.id + byte_len t.content

  unfoldable pub display_entry_bytes : List (DisplayEntry V) → ℕ
  display_entry_bytes [] = 0
  display_entry_bytes (e ∷ es) = content_bytes e.content + display_entry_bytes es

  -- The rounds of the loop in which the list is short enough: an entry goes at a time.
  unfoldable pub remove_over : List (DisplayEntry V) → ℕ → List (DisplayEntry V) × ℕ
  remove_over [] removed = ([], removed)
  remove_over (e ∷ es) removed =
      let rest = remove_over es (suc removed) in
      if ltb max_bytes (display_entry_bytes (e ∷ es)) then rest else (e ∷ es, removed)

  -- The kept entries and how many were removed. A list that is too long is cut in the first round.
  unfoldable pub trim_entries : List (DisplayEntry V) → List (DisplayEntry V) × ℕ
  trim_entries entries =
      let count = length entries - max_entries in remove_over (drop count entries) count

abbrev display_kind : Role → DisplayKind
display_kind user = DisplayKind.user
display_kind assistant = DisplayKind.assistant
display_kind system = DisplayKind.system

abbrev pub entry : {V : Type 0} → DisplayKind → DisplayContent V → DisplayEntry V
entry kind content = record { kind = kind; content = content }

abbrev pub tool_entry :
    {V : Type 0} → String → String → V → ToolDisplayStatus → Option String → DisplayEntry V
tool_entry call_id name arguments status result = entry DisplayKind.tool (
    DisplayContent.tool (record {
      call_id = call_id;
      name = name;
      arguments = arguments;
      status = status;
      result = result;
    }))

abbrev pub markdown_entry : {V : Type 0} → DisplayKind → String → DisplayEntry V
markdown_entry kind text = entry kind (DisplayContent.markdown text)

-- The entry at an index with its tool finished, if it is a tool.
unfoldable pub finish_tool_at :
    {V : Type 0} → ℕ → String → List (DisplayEntry V) → Option (List (DisplayEntry V))
finish_tool_at i output [] = none
finish_tool_at zero output (e ∷ es) = finish e.kind output e.content es
  where
    finish :
        {V : Type 0}
        → DisplayKind
        → String
        → DisplayContent V
        → List (DisplayEntry V)
        → Option (List (DisplayEntry V))
    finish kind output (DisplayContent.tool t) es = some (
        entry kind (
          DisplayContent.tool
            (record t { status = tool_result_status output; result = some output }))
        ∷ es)
    finish kind output _ es = none
finish_tool_at (suc i) output (e ∷ es) = keep e (finish_tool_at i output es)
  where
    keep :
        {V : Type 0}
        → DisplayEntry V
        → Option (List (DisplayEntry V))
        → Option (List (DisplayEntry V))
    keep e none = none
    keep e (some es) = some (e ∷ es)

-- The loop state of `display_entries`: the entries, the index of each call with the last first, and
-- the number of thoughts.
abbrev Loop : Type 0 → Type 0
Loop V = List (DisplayEntry V) × List (String × ℕ) × ℕ

abbrev or_else {ℓ} : {A : Type ℓ} → Option A → A → A
or_else none d = d
or_else (some a) d = a

abbrev bind {ℓ κ} : {A : Type ℓ} {B : Type κ} → Option A → (A → Option B) → Option B
bind none f = none
bind (some a) f = f a

abbrev is_some_text : Option String → String → Bool
is_some_text none s = false
is_some_text (some t) s = str_eq t s

module _ {V F : Type 0} ⦃j : Json V⦄ (services : Services V F) where
  push_calls : List (ToolCall V) → Loop V → Loop V
  push_calls [] s = s
  push_calls (c ∷ cs) (entries, index, thoughts) = push_calls cs (
    entries ++ tool_entry c.id c.name c.arguments ToolDisplayStatus.running none ∷ [],
    (c.id, length entries) ∷ index,
    thoughts,
  )

  display_item : ConversationItem V → Loop V → Loop V
  unfolding push_calls
  display_item (message role content) (entries, index, thoughts) =
      (entries ++ markdown_entry (display_kind role) content ∷ [], index, thoughts)
  display_item (thinking_summary content) (entries, index, thoughts) = (
    entries
        ++ entry DisplayKind.thinking (
            DisplayContent.thinking
              (record { id = "thinking-" +s print_ℕ thoughts; content = content }))
          ∷ [],
    index,
    suc thoughts,
  )
  display_item (compaction_summary content) (entries, index, thoughts) = (
    entries ++ markdown_entry DisplayKind.system ("上下文压缩摘要\n\n" +s content) ∷ [],
    index,
    thoughts,
  )
  display_item (context label content) (entries, index, thoughts) = (
    entries ++ markdown_entry DisplayKind.system ("### @" +s label +s "\n\n" +s content) ∷ [],
    index,
    thoughts,
  )
  display_item (provider_item item) (entries, index, thoughts) =
      if is_some_text (bind (j.get item "type") j.as_str) "web_search_call"
      then (
        entries
            ++ tool_entry
                (or_else (bind (j.get item "id") j.as_str)
                  ("native-web-search-" +s print_ℕ (length entries)))
                "web_search" (or_else (j.get item "action") services.null)
                ToolDisplayStatus.completed none
              ∷ [],
        index,
        thoughts,
      )
      else (entries, index, thoughts)
  display_item (assistant_tool_calls calls) s = push_calls calls s
  display_item (tool_output call_id output) (entries, index, thoughts) =
      let alone =
        entries
        ++ tool_entry call_id "tool" services.null (tool_result_status output) (some output) ∷ [] in
      (
        or_else (bind (lookup call_id index) (λ i. finish_tool_at i output entries)) alone,
        index,
        thoughts,
      )

  display_items : List (ConversationItem V) → Loop V → Loop V
  display_items [] s = s
  display_items (i ∷ is) s = display_items is (display_item i s)

  abbrev or_ready : List (DisplayEntry V) → List (DisplayEntry V)
  or_ready [] = markdown_entry DisplayKind.system "1H-Agent 已就绪，请输入任务并按 Enter。" ∷ []
  or_ready (e ∷ es) = e ∷ es

  unfoldable pub display_entries : List (ConversationItem V) → List (DisplayEntry V)
  unfolding display_items display_item
  display_entries conversation = or_ready (display_items conversation ([], [], 0)).0
