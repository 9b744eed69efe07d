-- ===== src/Session/Settled.antt =====
-- session.rs: when a session stops being busy, what becomes of an approval that waits, and how a
-- round's usage moves the context meter.
use h_agent_core.Base.{
  trim, ℕ, ◌≤◌, ◌<◌, max, String, ◌≡◌, refl, ap, inl, inr, Bool, false, List, ◌++◌, Option, none,
  some, arith, length, Bool-cases, str_eq, u64_max, lt→ltb,
}
use h_agent_core.Protocol.{Json}
use h_agent_core.Collector.{Usage}
use h_agent_core.Conversation.{F64}
use h_agent_core.Conversation.Meter.{estimate_used_tokens_anchored}
use h_agent_core.Session.Model.{
  SessionRuntime, Services, AgentEvent, PendingApproval, ApprovalAction,
}
use h_agent_core.Session.Thinking.{
  finish_thinking, persist_thinking_summary, begin_thinking, push_entry, trim_session,
  mark_partial_if_streaming, update_thinking_line,
}
use h_agent_core.Session.Events.{handle_event, handle_branch, set_todos}
use h_agent_core.Session.Updates.{last_is_open_search, refusal}

-- What the rest of the service waits on: busy, a task, the approval, and the replies sent so far.
abbrev pub Waiting : Type 0 → Type 0
Waiting V = Bool × Bool × Option (PendingApproval V) × List (ℕ × Bool)

module _ {V F : Type 0} where
  abbrev pub waiting : SessionRuntime V F → Waiting V
  waiting s = (s.busy, s.active_task, s.pending_approval, s.replies)

  -- What an event is to make of that: the four events that end a request let go of the task, a
  -- cancellation turns the waiting approval down as well, and a request for an approval waits.
  abbrev pub waiting_after : SessionRuntime V F → AgentEvent V → Waiting V
  waiting_after s (AgentEvent.completed items) = (false, false, s.pending_approval, s.replies)
  waiting_after s (AgentEvent.failed error) = (false, false, s.pending_approval, s.replies)
  waiting_after s (AgentEvent.local_command_finished command result) =
      (false, false, s.pending_approval, s.replies)
  waiting_after s (AgentEvent.cancelled reason) =
      (false, false, none, s.replies ++ refusal s.pending_approval)
  waiting_after s (AgentEvent.approval call reason source_session_id source_title reply) = (
    s.busy,
    s.active_task,
    some (record {
      approval_id = none;
      call = call;
      reason = reason;
      source_session_id = source_session_id;
      source_title = source_title;
      action = ApprovalAction.agent reply;
    }),
    s.replies,
  )
  waiting_after s _ = (s.busy, s.active_task, s.pending_approval, s.replies)

  pub waiting-finish_thinking :
      (id : String) (s : SessionRuntime V F) (line : String)
      → waiting (finish_thinking id s line) ≡ waiting s
  unfolding finish_thinking persist_thinking_summary push_entry
  waiting-finish_thinking id s line = elim (Bool-cases (str_eq (trim s.thinking_buffer) "")) [
    | inl e ↦ rw e refl
    | inr e ↦ rw e refl
  ]

module _ {V F : Type 0} ⦃j : Json V⦄ ⦃f : F64 F⦄ (services : Services V F) where
  -- Of all events exactly the four that end a request (completed, failed, cancelled, a local
  -- command finished) let a session stop being busy and drop its task; a cancellation answers the
  -- agent's approval that waits with a refusal, and nothing else answers or forgets one, but for a
  -- new request that takes its place.
  pub waiting-handle_event :
      (s : SessionRuntime V F) (event : AgentEvent V)
      → waiting (handle_event services s event).0 ≡ waiting_after s event
  unfolding handle_event handle_branch trim_session begin_thinking set_todos push_entry
      mark_partial_if_streaming update_thinking_line
  waiting-handle_event s (AgentEvent.reasoning_completed) =
      waiting-finish_thinking (services.uuid 0) s "思考完成"
  waiting-handle_event s (AgentEvent.web_search_started query) =
      elim (Bool-cases (last_is_open_search (finish_thinking (services.uuid 0) s "思考完成").entries)) [
        | inl e ↦ rw e (waiting-finish_thinking (services.uuid 0) s "思考完成")
        | inr e ↦ rw e (waiting-finish_thinking (services.uuid 0) s "思考完成")
      ]
  waiting-handle_event s (AgentEvent.cancelled reason) =
      ap (λ w. (false, false, none, w.3 ++ refusal w.2))
        (waiting-finish_thinking (services.uuid 0) s "思考已取消")
  waiting-handle_event s (AgentEvent.text_delta delta) =
      waiting-finish_thinking (services.uuid 0) s "思考完成"
  waiting-handle_event s (AgentEvent.tool_started call) =
      waiting-finish_thinking (services.uuid 0) s "思考完成"
  waiting-handle_event s (AgentEvent.approval c r i t k) =
      ap (λ w. (w.0, w.1, (waiting_after s (AgentEvent.approval c r i t k)).2, w.3))
        (waiting-finish_thinking (services.uuid 0) s "思考完成")
  waiting-handle_event s (AgentEvent.completed items) =
      ap (λ w. (false, false, w.2, w.3)) (waiting-finish_thinking (services.uuid 0) s "思考完成")
  waiting-handle_event s (AgentEvent.failed error) =
      ap (λ w. (false, false, w.2, w.3)) (waiting-finish_thinking (services.uuid 0) s "思考失败")
  waiting-handle_event s (AgentEvent.local_command_finished command result) =
      elim (Bool-cases (str_eq command "/diff")) [ inl e ↦ rw e refl | inr e ↦ rw e refl ]
  waiting-handle_event s other = refl

  -- A full-replay round sets the meter to the larger of the provider's input tokens and the
  -- estimate of the same request, numbers of `u64`, so a provider that reports too little never
  -- shrinks it.
  pub usage_reanchors :
      (s : SessionRuntime V F) (usage : Usage) (input_estimate : ℕ)
      → 0 < input_estimate
      → usage.input_tokens ≤ u64_max
      → input_estimate ≤ u64_max
      → (handle_event services s (AgentEvent.usage usage input_estimate)).0.context_used_tokens
        ≡ max usage.input_tokens input_estimate
  unfolding handle_event handle_branch trim_session
  usage_reanchors s usage input_estimate h k m = rw (lt→ltb 0 input_estimate h) (
      (estimate_used_tokens_anchored
          (record {
            real_input = max usage.input_tokens input_estimate;
            at_len = length s.conversation;
          })
          s.conversation s.token_calibration (omega arith) (omega arith)).1
        refl)
