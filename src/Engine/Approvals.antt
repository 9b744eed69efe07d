-- ===== src/Engine/Approvals.antt =====
-- service/engine.rs and app.rs: asking for an approval, answering one, and the sweep, the
-- cancellation and the shutdown that turn approvals down. An `Option ApiError` is a
-- `Result<(), ApiError>`, with `none` for `Ok(())`.
use h_agent_core.Base.{
  ℕ, ◌+◌, String, Bool, true, false, not, ◌&&◌, List, [], ◌∷◌, ◌++◌, Option, none, some,
  if◌then◌else◌, filter, leb, ◌==◌, str_eq, lookup, map, ◌+s◌,
}
use h_agent_core.Protocol.{Json, ToolCall, Event}
use h_agent_core.Policy.{allow_for_session, normalized_command_prefix}
use h_agent_core.Conversation.{F64}
use h_agent_core.Session.Model.{
  SessionRuntime, Services, PendingApproval, ApprovalAction, AgentPhase, ModelPhase, DisplayKind,
}
use h_agent_core.Session.Entries.{markdown_entry}
use h_agent_core.Session.Thinking.{push_entry, finish_thinking, mark_partial_if_streaming}
use h_agent_core.Session.Events.{refuse_pending, shutdown}
use h_agent_core.App.{App}
use h_agent_core.Engine.{
  Engine, Moment, Pending, PendingRecord, ApiError, ApiErrorKind, insert_key, remove_key, runtime,
  runtime_mut, on_session, waiting_approval, waits_on, take_pending_approval,
}
use h_agent_core.Engine.Routing.{told}

-- A session that is active has a runtime, so it is never missing.
abbrev pub is_stale : Option ℕ → ℕ → Bool
is_stale none current = false
is_stale (some seq) current = not (current == seq)

-- The ids that `sweep_expired_approvals` collects.
abbrev pub expired : ℕ → Pending → List String
expired now pending = map (λ p. p.0) (filter (λ p. leb (p.1).deadline now) pending)

module _ {V : Type 0} ⦃j : Json V⦄ where
  -- `session_allow_for_call`: the tool, the command and the label of the audit entry.
  unfoldable pub session_allow_for_call : ToolCall V → String × Option String × String
  session_allow_for_call call = elim (normalized_command_prefix call) [
    | some command ↦ (call.name, some command, call.name +s " " +s command)
    | none ↦ (call.name, none, call.name)
  ]

  unfoldable pub allow_key : PendingApproval V → String × Option String × String
  unfolding session_allow_for_call
  allow_key approval = elim approval.action [
    | ApprovalAction.agent reply ↦ session_allow_for_call approval.call
    | ApprovalAction.shell command ↦ ("terminal_shell", some command, command)
  ]

module _ {V F : Type 0} ⦃j : Json V⦄ where
  unfoldable pub note_rule : String → SessionRuntime V F → SessionRuntime V F
  note_rule label s =
      record (push_entry s (markdown_entry DisplayKind.system ("本会话放行：" +s label))) {
        status = "本会话已放行 " +s label;
      }

  -- The rule of the session and the entry that names it, `if accept && allow_session`.
  unfoldable pub allow_always : App V F → String → PendingApproval V → App V F
  unfolding allow_key
  allow_always app owner approval =
      let (tool, prefix, label) = allow_key approval in
      runtime_mut (record app { registry = allow_for_session app.registry tool prefix }) owner
        (on_session (note_rule label))

  -- `reply.send(accept)` and what the session shows then.
  unfoldable pub answer_agent : ℕ → Bool → SessionRuntime V F → SessionRuntime V F
  answer_agent reply accept s = record s {
    replies = s.replies ++ (reply, accept) ∷ [];
    agent_phase = if accept then AgentPhase.thinking else AgentPhase.idle;
    model_phase = ModelPhase.idle;
    status = if accept then "已批准，开始执行工具……" else "已拒绝，将结果返回模型……";
  }

  unfoldable pub answer_shell : Bool → SessionRuntime V F → SessionRuntime V F
  answer_shell true s = record s {
    busy = true;
    agent_phase = AgentPhase.tool_running;
    model_phase = ModelPhase.idle;
    status = "正在执行 Shell 命令……";
    active_task = true;
  }
  answer_shell false s = record s { agent_phase = AgentPhase.idle; status = "Shell 命令已拒绝" }

  unfoldable pub answer : ApprovalAction → Bool → SessionRuntime V F → SessionRuntime V F
  unfolding answer_agent answer_shell
  answer (ApprovalAction.agent reply) accept s = answer_agent reply accept s
  answer (ApprovalAction.shell command) accept s = answer_shell accept s

module _ {V F : Type 0} ⦃j : Json V⦄ ⦃f : F64 F⦄ (services : Services V F) where
  abbrev pub failure : ApiErrorKind → String → Option ApiError
  failure kind message = some (record { kind = kind; message = services.redact_cached message })

  -- The part of `resolve_approval` behind its guards. The runtime is there, since the approval was
  -- taken from it.
  unfoldable pub settle_approval :
      Engine V F → String → String → Bool → Bool → PendingApproval V × App V F → Engine V F
  unfolding allow_always answer
  settle_approval e owner approval_id accept allow_session (approval, app) =
      let allowed = if accept && allow_session then allow_always app owner approval else app in
      told
        (record e {
          app = runtime_mut allowed owner (on_session (answer approval.action accept));
          pending = remove_key approval_id e.pending;
        })
        owner (Event.approval_resolved approval_id accept)

  unfoldable pub resolve_owned :
      Engine V F → String → Bool → Bool → PendingRecord → Engine V F × Option ApiError
  unfolding settle_approval
  resolve_owned e approval_id accept allow_session found =
      let owner = found.session_id in
      let taken : Engine V F × Option ApiError =
        elim (take_pending_approval e.app owner approval_id) [
          | none ↦ (e, failure ApiErrorKind.conflict "approval already resolved")
          | some t ↦ (settle_approval e owner approval_id accept allow_session t, none)
        ] in
      if waits_on approval_id (waiting_approval (runtime e.app owner))
      then taken
      else (e, failure ApiErrorKind.conflict "approval already resolved")

  unfoldable pub resolve_approval : Engine V F → String → Bool → Bool → Engine V F × Option ApiError
  unfolding resolve_owned
  resolve_approval e approval_id accept allow_session = elim (lookup approval_id e.pending) [
    | none ↦ (e, failure ApiErrorKind.not_found ("unknown approval " +s approval_id))
    | some found ↦ resolve_owned e approval_id accept allow_session found
  ]

  -- A list of approvals turned down one after the other, whatever comes of each.
  unfoldable pub reject_all : List String → Engine V F → Engine V F
  reject_all [] e = e
  reject_all (id ∷ ids) e = reject_all ids (resolve_approval e id false false).0

  unfoldable pub sweep_expired_approvals : ℕ → Engine V F → Engine V F
  sweep_expired_approvals now e = reject_all (expired now e.pending) e

  -- The loop of `clear_session_approvals`, over the ids that were collected.
  unfoldable pub clear_ids : String → List String → Engine V F → Engine V F
  clear_ids session_id [] e = e
  clear_ids session_id (id ∷ ids) e = clear_ids session_id ids (
      told (record e { pending = remove_key id e.pending }) session_id
        (Event.approval_resolved id false))

  unfoldable pub clear_session_approvals : Engine V F → String → Engine V F
  clear_session_approvals e session_id =
      clear_ids session_id
        (map (λ p. p.0) (filter (λ p. str_eq (p.1).session_id session_id) e.pending)) e

  -- `cancel_active_request`, but for the partial text that the storage keeps.
  unfoldable pub cancel_active_request : SessionRuntime V F → SessionRuntime V F
  cancel_active_request s =
      let stopped = record (refuse_pending s) { active_task = false } in
      let marked = mark_partial_if_streaming (finish_thinking (services.uuid 0) stopped "思考已取消") in
      push_entry
        (record marked {
          busy = false;
          agent_phase = AgentPhase.idle;
          model_phase = ModelPhase.idle;
          status = "已取消当前请求";
        })
        (markdown_entry DisplayKind.system "当前请求已取消。")

  unfoldable pub cancel_session : Engine V F → String → Option ℕ → Engine V F × Option ApiError
  cancel_session e session_id request_seq =
      let app = record e.app { current = on_session cancel_active_request e.app.current } in
      let cleared = clear_session_approvals (record e { app = app }) session_id in
      if not (str_eq session_id e.app.active_session)
      then (e, failure ApiErrorKind.conflict "only the active session can be cancelled")
      else if is_stale request_seq e.app.current.request_seq
      then (e, none)
      else (told cleared session_id (Event.cancelled "user"), none)

  -- `request_shell_approval` of app.rs: `!` and a command.
  unfoldable pub request_shell_approval : String → App V F → String → App V F
  request_shell_approval id app command = record app {
    current =
        on_session
          (λ s. record s {
            pending_approval = some (record {
              approval_id = none;
              call = record {
                id = "shell_" +s id;
                name = "terminal_shell";
                arguments = services.object "command" command;
              };
              reason = "! 命令将通过 workspace Shell 执行";
              source_session_id = none;
              source_title = none;
              action = ApprovalAction.shell command;
            });
            agent_phase = AgentPhase.waiting_approval;
            model_phase = ModelPhase.idle;
            status = "Shell 命令需要确认";
          })
          app.current;
  }

  unfoldable pub register_shell_approval : Moment → Engine V F → Engine V F
  register_shell_approval moment e = elim e.app.current.session.pending_approval [
    | none ↦ e
    | some approval ↦
        (let session_id = e.app.active_session in
          let app = record e.app {
            current =
                on_session
                  (λ s. record s {
                    pending_approval = some (record approval { approval_id = some moment.uuid });
                  })
                  e.app.current;
          } in
          told
            (record e {
              app = app;
              pending =
                  insert_key moment.uuid
                    (record { session_id = session_id; deadline = moment.now + e.approval_timeout })
                    e.pending;
            })
            session_id
            (Event.approval moment.uuid approval.call approval.reason approval.source_session_id
              approval.source_title))
  ]

  -- The branch of `submit_input` for a text that begins with `!`; `id` names the call.
  unfoldable pub submit_shell : Moment → String → Engine V F → String → Engine V F
  unfolding request_shell_approval register_shell_approval
  submit_shell moment id e command =
      register_shell_approval moment (record e { app = request_shell_approval id e.app command })

  -- `session_ids` are the sessions that the application lists.
  stop_all : List String → App V F → App V F
  stop_all [] app = app
  stop_all (id ∷ ids) app =
      stop_all ids
        (runtime_mut app id (on_session (λ s. shutdown (record s { active_task = false }))))

  unfoldable pub shutdown_engine : List String → Engine V F → Engine V F
  unfolding stop_all
  shutdown_engine session_ids e =
      let rejected = reject_all (map (λ p. p.0) e.pending) e in
      record rejected { app = stop_all session_ids rejected.app; should_quit = true }
