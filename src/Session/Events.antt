-- ===== src/Session/Events.antt =====
-- session.rs: `SessionRuntime::handle_event`, `idle`, `shutdown` and `set_todos`. The result is the
-- state and `sessions_dirty`. `services.uuid 0` names the summary of the reasoning, and
-- `services.uuid 1` a display entry that the event adds.
use h_agent_core.Base.{
  ℕ, max, String, Bool, true, false, not, ◌&&◌, List, [], ◌∷◌, ◌++◌, none, some, ltb, ◌==◌,
  if◌then◌else◌, length, any, str_eq, ◌+s◌, print_ℕ, codes, codes_contain,
}
use h_agent_core.Protocol.{Json, ToolCall, TodoTask}
use h_agent_core.Collector.{Usage}
use h_agent_core.Conversation.{
  ConversationItem, context, trim_conversation, F64, estimate_used_tokens,
}
use h_agent_core.Session.Model.{
  DisplayKind, AgentPhase, ModelPhase, ToolDisplayStatus, DisplayContent, SessionRuntime, Services,
  ApprovalAction, AgentEvent,
}
use h_agent_core.Session.Entries.{
  entry, tool_entry, markdown_entry, tool_result_status, display_entries,
}
use h_agent_core.Session.Thinking.{
  push_entry, begin_thinking, finish_thinking, update_thinking_line, mark_partial_if_streaming,
  trim_session,
}
use h_agent_core.Session.Updates.{
  div_ceil, is_open_search, is_call, change_last, or_else, add_result, last_is_open_search,
  append_to_last, is_summary, refusal, map_name, is_none,
}

module _ {V F : Type 0} where
  unfoldable pub set_todos : SessionRuntime V F → List TodoTask → SessionRuntime V F
  set_todos s tasks = record s { todos = tasks }

  unfoldable pub idle : SessionRuntime V F → Bool
  idle s = not s.busy && (not s.active_task && is_none s.pending_approval)

  -- `take_pending_approval` with the refusal of what it takes.
  abbrev pub refuse_pending : SessionRuntime V F → SessionRuntime V F
  refuse_pending s = record s {
    pending_approval = none;
    replies = s.replies ++ refusal s.pending_approval;
  }

  unfoldable pub shutdown : SessionRuntime V F → SessionRuntime V F
  shutdown s = record (refuse_pending s) { active_task = false }

  abbrev in_phase : SessionRuntime V F → AgentPhase → ModelPhase → String → SessionRuntime V F
  in_phase s agent_phase model_phase status = record s {
    agent_phase = agent_phase;
    model_phase = model_phase;
    status = status;
  }

  -- `busy = false; active_task = None`, with the phases and the status.
  abbrev pub settled : SessionRuntime V F → AgentPhase → ModelPhase → String → SessionRuntime V F
  settled s agent_phase model_phase status = record s {
    busy = false;
    active_task = false;
    agent_phase = agent_phase;
    model_phase = model_phase;
    status = status;
  }

module _ {V F : Type 0} ⦃j : Json V⦄ ⦃f : F64 F⦄ (services : Services V F) where
  abbrev done_thinking : SessionRuntime V F → String → SessionRuntime V F
  done_thinking s line = finish_thinking (services.uuid 0) s line

  abbrev metered : SessionRuntime V F → ℕ
  metered s = estimate_used_tokens s.usage_anchor s.conversation s.token_calibration

  handle_web_search_started : SessionRuntime V F → String → SessionRuntime V F
  handle_web_search_started s query =
      let t =
        in_phase (done_thinking s "思考完成") AgentPhase.tool_running ModelPhase.streaming "正在联网搜索" in
      if last_is_open_search t.entries
      then t
      else push_entry t (
          tool_entry ("native-web-search-" +s services.uuid 1) "web_search"
            (services.object "query" query) ToolDisplayStatus.running none)

  handle_text_delta : SessionRuntime V F → String → SessionRuntime V F
  handle_text_delta s delta =
      let t =
        in_phase (done_thinking s "思考完成") AgentPhase.streaming_text ModelPhase.streaming
          "正在输出正文…… | Esc 取消" in
      record t {
        entries =
            or_else (append_to_last delta t.entries)
              (t.entries ++ markdown_entry DisplayKind.assistant delta ∷ []);
      }

  handle_tool_finished : SessionRuntime V F → ToolCall V → String → SessionRuntime V F
  handle_tool_finished s call result =
      let status = tool_result_status result in
      record s {
        agent_phase = AgentPhase.thinking;
        entries =
            or_else
              (change_last (is_call call.id)
                (λ t. record t { status = status; result = some result }) s.entries)
              (s.entries ++ tool_entry call.id call.name call.arguments status (some result) ∷ []);
        status = "正在将工具结果交给模型……";
      }

  handle_usage : SessionRuntime V F → Usage → ℕ → SessionRuntime V F
  handle_usage s usage input_estimate =
      let full = ltb 0 input_estimate in
      let t = record s {
        usage_anchor =
            if full
            then some (record {
              real_input = max usage.input_tokens input_estimate;
              at_len = length s.conversation;
            })
            else s.usage_anchor;
      } in
      record t {
        context_used_tokens = metered t;
        token_calibration =
            if full
            then services.calibrate usage.input_tokens input_estimate
            else s.token_calibration;
        usage = usage;
      }

  handle_completed : SessionRuntime V F → List (ConversationItem V) → SessionRuntime V F
  handle_completed s items =
      let t = done_thinking s "思考完成" in
      let conversation =
        if is_none s.context_limit_tokens then trim_conversation items else items in
      let u = record t {
        conversation = conversation;
        entries = if any is_summary items then display_entries services conversation else t.entries;
      } in
      settled (record u { context_used_tokens = metered u }) AgentPhase.idle ModelPhase.completed
        "就绪"

  handle_cancelled : SessionRuntime V F → String → SessionRuntime V F
  handle_cancelled s reason =
      settled (refuse_pending (mark_partial_if_streaming (done_thinking s "思考已取消"))) AgentPhase.idle
        ModelPhase.idle
        (if codes_contain (codes reason) (codes "approval") then "审批等待已取消" else "请求已取消")

  handle_failed : SessionRuntime V F → String → SessionRuntime V F
  handle_failed s error =
      settled
        (push_entry (mark_partial_if_streaming (done_thinking s "思考失败"))
          (markdown_entry DisplayKind.error (services.redact_cached (services.redact error))))
        AgentPhase.failed ModelPhase.failed "请求失败"

  handle_local_command_finished : SessionRuntime V F → String → String → SessionRuntime V F
  handle_local_command_finished s command result =
      let diff =
        settled (push_entry s (entry DisplayKind.tool (DisplayContent.diff result))) AgentPhase.idle
          ModelPhase.completed "Git diff 已准备好" in
      let label = "shell: " +s command in
      let shell =
        settled
          (record (push_entry s (
            tool_entry ("local-shell-" +s services.uuid 1) "terminal_shell"
              (services.object "command" command) (tool_result_status result) (some result))) {
                conversation = s.conversation ++ context label result ∷ [];
              })
          AgentPhase.idle ModelPhase.completed
          (elim (services.append_context s.session_id label result) [
            | none ↦ "Shell 命令已完成"
            | some error ↦ "命令已完成，但保存失败：" +s error
          ]) in
      if str_eq command "/diff" then diff else shell

  -- The event's own branch, before the entries are trimmed.
  unfoldable pub handle_branch : SessionRuntime V F → AgentEvent V → SessionRuntime V F × Bool
  unfolding handle_web_search_started handle_text_delta handle_tool_finished handle_usage
      handle_completed handle_cancelled handle_failed handle_local_command_finished
  handle_branch s (AgentEvent.reasoning_delta delta) = (
    update_thinking_line services.grapheme_offsets
        (record s { agent_phase = AgentPhase.thinking; model_phase = ModelPhase.streaming }) delta,
    false,
  )
  handle_branch s AgentEvent.reasoning_completed = (
    in_phase (done_thinking s "思考完成") AgentPhase.streaming_text ModelPhase.streaming
        "正在输出正文…… | Esc 取消",
    false,
  )
  handle_branch s AgentEvent.model_streaming =
      (in_phase (begin_thinking s) AgentPhase.thinking ModelPhase.streaming "等待模型流式响应", false)
  handle_branch s (AgentEvent.provider_retry attempt reason delay_ms) = (
    record s {
      status =
          "请求失败，"
          +s print_ℕ (div_ceil delay_ms 1000)
          +s " 秒后第 "
          +s print_ℕ attempt
          +s " 次重试（"
          +s reason
          +s "）";
    },
    false,
  )
  handle_branch s (AgentEvent.todo_updated tasks) = (set_todos s tasks, false)
  handle_branch s AgentEvent.compaction_started =
      (in_phase s AgentPhase.thinking ModelPhase.streaming "正在压缩上下文…… | Esc 取消", false)
  handle_branch s (AgentEvent.compaction_completed hidden) = (
    record s {
      usage_anchor = none;
      context_used_tokens = estimate_used_tokens none s.conversation s.token_calibration;
      status = "上下文已压缩，隐藏 " +s print_ℕ hidden +s " 条历史消息";
    },
    false,
  )
  handle_branch s (AgentEvent.compaction_failed error) =
      let status = "上下文压缩失败，已使用安全裁剪：" +s services.redact_cached error in
      (push_entry (record s { status = status }) (markdown_entry DisplayKind.error status), false)
  handle_branch s (AgentEvent.web_search_started query) = (handle_web_search_started s query, false)
  handle_branch s (AgentEvent.web_search_result title url snippet) = (
    record s {
      entries =
          or_else
            (change_last is_open_search
              (λ t. record t {
                result = some (add_result (title +s "\n" +s url +s "\n" +s snippet) t.result);
              })
              s.entries)
            s.entries;
    },
    false,
  )
  handle_branch s (AgentEvent.web_search_completed count) = (
    record s {
      entries =
          or_else
            (change_last is_open_search (λ t. record t { status = ToolDisplayStatus.completed })
              s.entries)
            s.entries;
      agent_phase = AgentPhase.thinking;
      status = if count == 0 then "联网搜索完成" else "联网搜索完成：" +s print_ℕ count +s " 条结果";
    },
    false,
  )
  handle_branch s (AgentEvent.cancelled reason) = (handle_cancelled s reason, false)
  handle_branch s (AgentEvent.text_delta delta) = (handle_text_delta s delta, false)
  handle_branch s (AgentEvent.tool_call_streaming name received_bytes) = (
    in_phase s AgentPhase.streaming_tool_call ModelPhase.streaming (
        "正在生成 "
        +s or_else (map_name services.tool_display_name name) "工具调用"
        +s " 调用参数（"
        +s services.format_bytes received_bytes
        +s "）……"),
    false,
  )
  handle_branch s (AgentEvent.approval call reason source_session_id source_title reply) = (
    record (in_phase (done_thinking s "思考完成") AgentPhase.waiting_approval ModelPhase.idle
        "需要确认工具权限") {
          pending_approval = some (record {
            approval_id = none;
            call = call;
            reason = reason;
            source_session_id = source_session_id;
            source_title = source_title;
            action = ApprovalAction.agent reply;
          });
        },
    false,
  )
  handle_branch s (AgentEvent.tool_started call) = (
    push_entry
        (in_phase (done_thinking s "思考完成") AgentPhase.tool_running ModelPhase.idle
          ("正在执行 " +s services.tool_display_name call.name +s "……"))
        (tool_entry call.id call.name call.arguments ToolDisplayStatus.running none),
    false,
  )
  handle_branch s (AgentEvent.tool_finished call result) =
      (handle_tool_finished s call result, false)
  handle_branch s (AgentEvent.usage usage input_estimate) =
      (handle_usage s usage input_estimate, false)
  handle_branch s (AgentEvent.completed items) = (handle_completed s items, true)
  handle_branch s AgentEvent.sessions_changed =
      (record s { status = if s.busy then s.status else "会话列表已更新" }, true)
  handle_branch s (AgentEvent.child_session_progress session_id progress) = (s, false)
  handle_branch s (AgentEvent.failed error) = (handle_failed s error, false)
  handle_branch s (AgentEvent.local_command_finished command result) =
      (handle_local_command_finished s command result, false)

  unfoldable pub handle_event : SessionRuntime V F → AgentEvent V → SessionRuntime V F × Bool
  unfolding handle_branch
  handle_event s event =
      let (t, sessions_dirty) = handle_branch s event in (trim_session t, sessions_dirty)
