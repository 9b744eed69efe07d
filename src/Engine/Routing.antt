-- ===== src/Engine/Routing.antt =====
-- service/engine.rs and app.rs: an agent's event on its way through the engine: `routed_to_event`,
-- `App`'s `handle_routed_event`, `handle_routed` and the context budget that follows it.
use h_agent_core.Config.Types.{is_config}
use h_agent_core.ModelMeta.{window_source_tag}
use h_agent_core.Base.{
  ◌+◌, ◌-◌, max, String, Bool, true, false, not, ◌&&◌, List, [], ◌∷◌, ◌++◌, Option, none, some,
  if◌then◌else◌, all, any, filter, length, str_eq, lookup, ◌+s◌, print_ℕ,
}
use h_agent_core.Protocol.{Json, Event, ContextBudgetDto}
use h_agent_core.Bridge.{push}
use h_agent_core.Conversation.{F64, estimate_used_tokens}
use h_agent_core.Session.Children.{
  ChildSessionProgress, is_terminal, is_queued, wire_name, phase_name,
}
use h_agent_core.Session.Model.{Services, PendingApproval, AgentEvent}
use h_agent_core.Session.Events.{handle_event}
use h_agent_core.App.{App, contains_key, evict_background_overflow}
use h_agent_core.Engine.{Engine, Moment, insert_key, remove_key, runtime, runtime_mut, on_session}

abbrev unwrap_or {ℓ} : {A : Type ℓ} → Option A → A → A
unwrap_or none d = d
unwrap_or (some a) d = a

abbrev pub map_option {ℓ κ} : {A : Type ℓ} {B : Type κ} → (A → B) → Option A → Option B
map_option f none = none
map_option f (some a) = some (f a)

-- `is_some_and` on the status of a child.
abbrev child_is : (ChildSessionProgress → Bool) → Option ChildSessionProgress → Bool
child_is test none = false
child_is test (some p) = test p

-- A `HashSet` of children with no member twice.
abbrev insert_member : String → List String → List String
insert_member x xs = if any (λ y. str_eq y x) xs then xs else xs ++ x ∷ []

abbrev is_nonempty : List String → Bool
is_nonempty [] = false
is_nonempty (x ∷ xs) = true

module _ {V : Type 0} where
  unfoldable pub routed_to_event : (String → String) → AgentEvent V → Option (Event V)
  routed_to_event redact_cached (AgentEvent.reasoning_delta delta) =
      some (Event.reasoning_delta delta)
  routed_to_event redact_cached AgentEvent.reasoning_completed = some Event.reasoning_completed
  routed_to_event redact_cached (AgentEvent.provider_retry attempt reason delay_ms) =
      some (Event.provider_retry attempt reason delay_ms)
  routed_to_event redact_cached AgentEvent.model_streaming = some Event.model_streaming
  routed_to_event redact_cached (AgentEvent.web_search_started query) =
      some (Event.web_search_started query)
  routed_to_event redact_cached (AgentEvent.web_search_result title url snippet) =
      some (Event.web_search_result title url snippet)
  routed_to_event redact_cached (AgentEvent.web_search_completed count) =
      some (Event.web_search_completed count)
  routed_to_event redact_cached (AgentEvent.cancelled reason) = some (Event.cancelled reason)
  routed_to_event redact_cached (AgentEvent.text_delta delta) = some (Event.text_delta delta)
  routed_to_event redact_cached (AgentEvent.tool_call_streaming name received_bytes) =
      some (Event.tool_call_streaming name received_bytes)
  routed_to_event redact_cached
        (AgentEvent.approval call reason source_session_id source_title reply) =
      none
  routed_to_event redact_cached (AgentEvent.tool_started call) = some (Event.tool_started call)
  routed_to_event redact_cached (AgentEvent.tool_finished call result) =
      some (Event.tool_finished call result)
  routed_to_event redact_cached (AgentEvent.usage usage input_estimate) =
      some (Event.usage usage.input_tokens usage.output_tokens usage.total_tokens)
  routed_to_event redact_cached (AgentEvent.completed items) = some Event.completed
  routed_to_event redact_cached (AgentEvent.failed error) =
      some (Event.failed (redact_cached error))
  routed_to_event redact_cached AgentEvent.sessions_changed = some Event.sessions_changed
  routed_to_event redact_cached (AgentEvent.child_session_progress session_id progress) = some (
      Event.child_session_progress session_id (wire_name progress.status)
        (phase_name progress.status) progress.turn progress.max_turns progress.tool)
  routed_to_event redact_cached (AgentEvent.local_command_finished command result) =
      some (Event.local_command_finished command result)
  routed_to_event redact_cached AgentEvent.compaction_started = some Event.compaction_started
  routed_to_event redact_cached (AgentEvent.compaction_completed hidden) =
      some (Event.compaction_completed hidden)
  routed_to_event redact_cached (AgentEvent.compaction_failed error) =
      some (Event.compaction_failed (redact_cached error))
  routed_to_event redact_cached (AgentEvent.todo_updated tasks) = some (Event.todo_updated tasks)

  unfoldable pub context_dirty : AgentEvent V → Bool
  context_dirty (AgentEvent.usage usage input_estimate) = true
  context_dirty (AgentEvent.completed items) = true
  context_dirty (AgentEvent.compaction_completed hidden) = true
  context_dirty (AgentEvent.compaction_failed error) = true
  context_dirty _ = false

abbrev pub with_id : {V : Type 0} → String → PendingApproval V → PendingApproval V
with_id id approval = record approval { approval_id = some id }

module _ {V F : Type 0} where
  -- `approval.approval_id = Some(approval_id)` where the session waits on an approval.
  abbrev pub mark_approval : Moment → String → AgentEvent V → App V F → App V F
  mark_approval moment session_id
        (AgentEvent.approval call reason source_session_id source_title reply) app =
      runtime_mut app session_id (
        on_session (λ s. record s {
          pending_approval = map_option (with_id moment.uuid) s.pending_approval;
        }))
  mark_approval moment session_id _ app = app

  -- `update_cluster_batch_status`.
  unfoldable pub update_cluster_batch_status : Engine V F → String → Engine V F
  update_cluster_batch_status e parent_id = elim (lookup parent_id e.child_batches) [
    | none ↦ e
    | some children ↦
        (let counted = λ (test : ChildSessionProgress → Bool).
            length (filter (λ child. child_is test (lookup child e.child_status)) children) in
          let total = length children in
          let completed = counted (λ p. is_terminal p.status) in
          let queued = counted (λ p. is_queued p.status) in
          let status =
            "集群 "
            +s print_ℕ completed
            +s "/"
            +s print_ℕ total
            +s " 完成 · "
            +s print_ℕ (total - (completed + queued))
            +s " 运行 · "
            +s print_ℕ queued
            +s " 排队" in
          record e {
            app = runtime_mut e.app parent_id (on_session (λ s. record s { status = status }));
          })
  ]

  -- The `ChildSessionProgress` branch of `handle_routed_event`.
  unfoldable pub handle_child_progress :
      Engine V F → String → String → ChildSessionProgress → Engine V F
  handle_child_progress e session_id child_id progress =
      let finished = λ (children : List String).
        is_nonempty children
        && all (λ child. child_is (λ p. is_terminal p.status) (lookup child e.child_status))
            children in
      let previous_batch_finished = finished (unwrap_or (lookup session_id e.child_batches) []) in
      let batches =
        if is_queued progress.status && previous_batch_finished
        then remove_key session_id e.child_batches
        else e.child_batches in
      update_cluster_batch_status
        (record e {
          child_batches =
              insert_key session_id
                (insert_member child_id (unwrap_or (lookup session_id batches) [])) batches;
          child_status = insert_key child_id progress e.child_status;
        })
        session_id

  unfoldable pub context_budget :
      ⦃j : Json V⦄ ⦃f : F64 F⦄ → Engine V F → String → Option ContextBudgetDto
  context_budget e session_id = elim (runtime e.app session_id) [
    | none ↦ none
    | some r ↦
        (let s = r.session in
          let window = s.context_limit_tokens in
          let used =
            max (estimate_used_tokens s.usage_anchor s.conversation s.token_calibration)
              s.context_used_tokens in
          let reserve = unwrap_or e.resolved.max_output_tokens 0 in
          some (record {
            context_window_tokens = window;
            used_tokens = used;
            output_reserve_tokens = reserve;
            safe_input_tokens = map_option (λ w. (w - reserve) - used) window;
            window_source = window_source_tag e.resolved;
            estimated = not (is_config e.resolved.window_source);
          }))
  ]

module _ {V F : Type 0} ⦃j : Json V⦄ ⦃f : F64 F⦄ where
  abbrev pub told : Engine V F → String → Event V → Engine V F
  told e session_id event = record e { bridge = (push e.bridge session_id event).0 }

  unfoldable pub push_context_updated : Engine V F → String → Engine V F
  push_context_updated e session_id = elim (context_budget e session_id) [
    | none ↦ e
    | some budget ↦ told e session_id (Event.context_updated budget)
  ]

module _ {V F : Type 0} ⦃j : Json V⦄ ⦃f : F64 F⦄ (services : Services V F) where
  unfoldable pub handle_active : Moment → App V F → AgentEvent V → App V F
  handle_active moment app event =
      let (s, sessions_dirty) = handle_event services app.current.session event in
      let failed = sessions_dirty && not moment.refreshed in
      record app {
        current = record app.current {
          session = if failed then record s { status = "就绪，但刷新会话失败" } else s;
        };
      }

  unfoldable pub handle_background : App V F → String → AgentEvent V → App V F
  handle_background app session_id event =
      let changed =
        runtime_mut app session_id (on_session (λ s. (handle_event services s event).0)) in
      if contains_key session_id app.background
      then record changed {
        background = evict_background_overflow changed.max_background_sessions changed.background;
      }
      else app

  -- `handle_routed_event` of app.rs, for an event that is not a child's progress.
  unfoldable pub handle_session_event : Moment → App V F → String → AgentEvent V → App V F
  unfolding handle_active handle_background
  handle_session_event moment app session_id event =
      if str_eq session_id app.active_session
      then handle_active moment app event
      else handle_background app session_id event

  unfoldable pub handle_routed_event : Moment → Engine V F → String → AgentEvent V → Engine V F
  handle_routed_event moment e session_id (AgentEvent.child_session_progress child_id progress) =
      handle_child_progress e session_id child_id progress
  handle_routed_event moment e session_id event = record e {
    app = handle_session_event moment e.app session_id event;
  }

  -- What `handle_routed` does before the event reaches its session.
  unfoldable pub announce : Moment → Engine V F → String → AgentEvent V → Engine V F
  announce moment e session_id
        (AgentEvent.approval call reason source_session_id source_title reply) =
      told
        (record e {
          pending =
              insert_key moment.uuid
                (record { session_id = session_id; deadline = moment.now + e.approval_timeout })
                e.pending;
        })
        session_id (Event.approval moment.uuid call reason source_session_id source_title)
  announce moment e session_id event = elim (routed_to_event services.redact_cached event) [
    | none ↦ e
    | some out ↦ told e session_id out
  ]

  unfoldable pub handle_routed : Moment → Engine V F → String → AgentEvent V → Engine V F
  handle_routed moment e session_id event =
      let handled =
        handle_routed_event moment (announce moment e session_id event) session_id event in
      let marked = record handled { app = mark_approval moment session_id event handled.app } in
      if context_dirty event then push_context_updated marked session_id else marked
