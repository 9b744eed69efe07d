-- ===== src/Engine/Asking.antt =====
-- service/engine.rs: an approval from the agent's request to its answer. The request reaches its
-- session in the foreground or in the background, where eviction must not take it away.
use h_agent_core.Base.{
  ℕ, ◌+◌, ◌<◌, ◌≤◌, All, String, Bool, true, false, not, ◌&&◌, List, [], ◌∷◌, ◌++◌, Option, none,
  some, if◌then◌else◌, str_eq, lookup, any, ◌≡◌, refl, sym, ap, ◌∙◌, arith, Bool-cases, inl, inr,
}
use h_agent_core.Protocol.{Json, ToolCall, Event}
use h_agent_core.Bridge.{push}
use h_agent_core.Conversation.{F64}
use h_agent_core.Session.Model.{
  SessionRuntime, Services, PendingApproval, ApprovalAction, AgentEvent,
}
use h_agent_core.Session.Events.{handle_event, idle}
use h_agent_core.Session.Settled.{waiting, waiting-handle_event}
use h_agent_core.App.{App, Runtime}
use h_agent_core.App.Keeping.{evict_background_overflow-lookup}
use h_agent_core.Engine.{Engine, Moment, runtime, runtime_mut, on_session, update_key}
use h_agent_core.Engine.Routing.{
  handle_active, handle_background, handle_session_event, handle_routed_event, handle_routed,
  announce, with_id, map_option, context_dirty,
}
use h_agent_core.Engine.Store.{lookup-insert_same, lookup-update_same}
use h_agent_core.Engine.Approvals.{resolve_approval, sweep_expired_approvals}
use h_agent_core.Engine.Resolve.{resolve_approval-answers}
use h_agent_core.Engine.Expiry.{Waits, sweep_expired_approvals-answers}
use h_agent_core.Engine.Sweeps.{no_sooner, no_sooner-insert, sweep_all, sweep_all-Waits}
use h_agent_core.Engine.Replies.{seen, seen_runtime, seen-runtime_mut}

contains-found :
    {A : Type 0} (key : String) (es : List (String × A)) (v : A)
    → lookup key es ≡ some v
    → any (λ e. str_eq (e.0) key) es ≡ true
contains-found key [] v h = absurd (ground arith)
contains-found key (e ∷ es) v h = elim (Bool-cases (str_eq (e.0) key)) [
  | inl s ↦ rw s refl
  | inr s ↦
      rw s (contains-found key es v (sym (ap (λ b. if b then some (e.1) else lookup key es) s) ∙ h))
]

never_idle : (busy task : Bool) → (not busy && (not task && false)) ≡ false
never_idle busy task = ground arith

-- The approval as the session holds it, with the id that the engine gave it.
abbrev pub asked :
    {V : Type 0}
    → Option String
    → ToolCall V
    → String
    → Option String
    → Option String
    → ℕ
    → PendingApproval V
asked id call reason source_session_id source_title reply = record {
  approval_id = id;
  call = call;
  reason = reason;
  source_session_id = source_session_id;
  source_title = source_title;
  action = ApprovalAction.agent reply;
}

module _ {V F : Type 0} ⦃j : Json V⦄ ⦃f : F64 F⦄ (services : Services V F) where
  asked_session :
      (s : SessionRuntime V F) (call : ToolCall V) (reason : String) (src title : Option String)
      (reply : ℕ)
      → waiting (handle_event services s (AgentEvent.approval call reason src title reply)).0
        ≡ (s.busy, s.active_task, some (asked none call reason src title reply), s.replies)
  asked_session s call reason src title reply =
      waiting-handle_event services s (AgentEvent.approval call reason src title reply)

  waiting-not_idle :
      (s : SessionRuntime V F) (approval : PendingApproval V)
      → s.pending_approval ≡ some approval
      → idle s ≡ false
  unfolding idle
  waiting-not_idle s approval h = rw h (never_idle s.busy s.active_task)

  in_foreground :
      (app : App V F) (sid : String)
      → str_eq sid app.active_session ≡ true
      → runtime app sid ≡ some app.current
  unfolding runtime
  in_foreground app sid s = rw s refl

  in_background :
      (app : App V F) (sid : String)
      → str_eq sid app.active_session ≡ false
      → runtime app sid ≡ lookup sid app.background
  unfolding runtime
  in_background app sid s = rw s refl

  -- What a change of the session by the event makes of its runtime.
  abbrev handled : AgentEvent V → Runtime V F → Runtime V F
  handled event r = on_session (λ s. (handle_event services s event).0) r

  handle_active-seen :
      (moment : Moment) (app : App V F) (sid : String) (event : AgentEvent V)
      → str_eq sid app.active_session ≡ true
      → seen (handle_session_event services moment app sid event) sid
        ≡ some (seen_runtime (handled event app.current))
  unfolding handle_session_event handle_active runtime
  handle_active-seen moment app sid event s =
      elim (Bool-cases
        ((handle_event services app.current.session event).1 && not moment.refreshed)) [
          | inl d ↦ rw s (rw s (rw d refl))
          | inr d ↦ rw s (rw s (rw d refl))
        ]

  handle_background-runtime :
      (moment : Moment) (app : App V F) (sid : String) (event : AgentEvent V) (r : Runtime V F)
      → str_eq sid app.active_session ≡ false
      → lookup sid app.background ≡ some r
      → idle (handled event r).session ≡ false
      → runtime (handle_session_event services moment app sid event) sid ≡ some (handled event r)
  unfolding handle_session_event handle_background runtime runtime_mut
  handle_background-runtime moment app sid event r s h w =
      let known = contains-found sid app.background r h in
      let changed = update_key sid (handled event) app.background in
      let there : lookup sid changed ≡ some (handled event r) =
        lookup-update_same sid (handled event) app.background
        ∙ ap (λ o. map_option (handled event) o) h in
      rw s (
        rw known (
          rw s (
            evict_background_overflow-lookup app.max_background_sessions changed sid
              (handled event r) there w)))

  handled-asks :
      (r : Runtime V F) (call : ToolCall V) (reason : String) (src title : Option String)
      (reply : ℕ)
      → seen_runtime (handled (AgentEvent.approval call reason src title reply) r)
        ≡ (some (asked none call reason src title reply), r.session.replies)
  handled-asks r call reason src title reply =
      ap (λ w. (w.2, w.3)) (asked_session r.session call reason src title reply)

  handle_session_event-asks :
      (moment : Moment) (app : App V F) (sid : String) (call : ToolCall V) (reason : String)
      (src title : Option String) (reply : ℕ) (r : Runtime V F)
      → runtime app sid ≡ some r
      → seen
          (handle_session_event services moment app sid
            (AgentEvent.approval call reason src title reply))
          sid
        ≡ some (some (asked none call reason src title reply), r.session.replies)
  handle_session_event-asks moment app sid call reason src title reply r h =
      let event : AgentEvent V = AgentEvent.approval call reason src title reply in
      let asks = handled-asks r call reason src title reply in
      elim (Bool-cases (str_eq sid app.active_session)) [
        | inl s ↦
            (let same : some app.current ≡ some r = sym (in_foreground app sid s) ∙ h in
              handle_active-seen moment app sid event s
              ∙ ap (λ o. map_option (λ x. seen_runtime (handled event x)) o) same
              ∙ ap some asks)
        | inr s ↦
            (let waits =
                waiting-not_idle (handled event r).session (asked none call reason src title reply)
                  (ap (λ w. w.0) asks) in
              ap (λ o. map_option seen_runtime o)
                (handle_background-runtime moment app sid event r s
                  (sym (in_background app sid s) ∙ h) waits)
              ∙ ap some asks)
      ]

  -- An approval that an agent asks for in a session that has a runtime, in the foreground or in the background, is recorded under the new id with its deadline, waits in that session under the same id with the agent's reply channel, and is told to the bridge by one event. No reply is sent yet.
  pub handle_routed-asks :
      (moment : Moment) (e : Engine V F) (session_id : String) (call : ToolCall V) (reason : String)
      (source_session_id source_title : Option String) (reply : ℕ) (r : Runtime V F)
      → runtime e.app session_id ≡ some r
      → (let e' =
            handle_routed services moment e session_id
              (AgentEvent.approval call reason source_session_id source_title reply) in
          (lookup moment.uuid e'.pending
            ≡ some (record { session_id = session_id; deadline = moment.now + e.approval_timeout }))
          × ((seen e'.app session_id
                ≡ some (
                  some (asked (some moment.uuid) call reason source_session_id source_title reply),
                  r.session.replies,
                ))
              × (e'.bridge
                  ≡ (push e.bridge session_id
                      (Event.approval moment.uuid call reason source_session_id source_title)).0)))
  unfolding handle_routed handle_routed_event announce context_dirty
  handle_routed-asks moment e sid call reason src title reply r h =
      let event : AgentEvent V = AgentEvent.approval call reason src title reply in
      let app = handle_session_event services moment e.app sid event in
      (
        lookup-insert_same moment.uuid _ e.pending,
        (
          seen-runtime_mut app sid
                (on_session (λ s. record s {
                  pending_approval = map_option (with_id moment.uuid) s.pending_approval;
                }))
                (λ w. (map_option (with_id moment.uuid) w.0, w.1)) (λ r. refl)
              ∙ ap (λ o. map_option (λ w. (map_option (with_id moment.uuid) w.0, w.1)) o)
                  (handle_session_event-asks moment e.app sid call reason src title reply r h),
          refl,
        ),
      )

  recorded_once :
      (moment : Moment) (e : Engine V F) (session_id : String) (call : ToolCall V) (reason : String)
      (source_session_id source_title : Option String) (reply : ℕ)
      → no_sooner moment.uuid
          (moment.now + e.approval_timeout)
          (handle_routed services moment e session_id
            (AgentEvent.approval call reason source_session_id source_title reply)).pending
        ≡ true
  unfolding handle_routed handle_routed_event announce context_dirty
  recorded_once moment e sid call reason src title reply =
      no_sooner-insert moment.uuid
        (record { session_id = sid; deadline = moment.now + e.approval_timeout }) e.pending

  -- After sweeps before the deadline the approval still waits, under its id and with its record.
  asked-Waits :
      (moment : Moment) (e : Engine V F) (session_id : String) (call : ToolCall V) (reason : String)
      (source_session_id source_title : Option String) (reply : ℕ) (r : Runtime V F)
      (times : List ℕ)
      → runtime e.app session_id ≡ some r
      → All (λ now. now < moment.now + e.approval_timeout) times
      → Waits services
          (sweep_all services times (
            handle_routed services moment e session_id
              (AgentEvent.approval call reason source_session_id source_title reply)))
          moment.uuid
          (record { session_id = session_id; deadline = moment.now + e.approval_timeout })
          (asked (some moment.uuid) call reason source_session_id source_title reply)
          r.session.replies
  unfolding Waits
  asked-Waits moment e sid call reason src title reply r times h early =
      let (recorded, (waits, pushed)) =
        handle_routed-asks moment e sid call reason src title reply r h in
      sweep_all-Waits services times _ moment.uuid _ _ r.session.replies early
        (recorded, (waits, refl)) (recorded_once moment e sid call reason src title reply)

  -- An approval that an agent asks for, in a session that has a runtime, can be answered as long as nothing but sweeps before its deadline came after it: resolving it by the id that it was given, with either decision, succeeds and sends the decision to this agent, once.
  pub handle_routed-resolve_approval :
      (moment : Moment) (e : Engine V F) (session_id : String) (call : ToolCall V) (reason : String)
      (source_session_id source_title : Option String) (reply : ℕ) (r : Runtime V F)
      (times : List ℕ) (accept allow_session : Bool)
      → runtime e.app session_id ≡ some r
      → All (λ now. now < moment.now + e.approval_timeout) times
      → (let e' = sweep_all services times (
            handle_routed services moment e session_id
              (AgentEvent.approval call reason source_session_id source_title reply)) in
          let (after, error) = resolve_approval services e' moment.uuid accept allow_session in
          (error ≡ none)
          × (seen after.app session_id ≡ some (none, r.session.replies ++ (reply, accept) ∷ [])))
  unfolding Waits
  handle_routed-resolve_approval moment e sid call reason src title reply r times accept always h
        early =
      let (recorded, (waits, same)) =
        asked-Waits moment e sid call reason src title reply r times h early in
      let (ok, (answers, rest)) =
        resolve_approval-answers services _ moment.uuid accept always _ _ r.session.replies recorded
          waits same in
      (ok, answers)

  -- An approval that an agent asks for, in a session that has a runtime, is refused when nothing but sweeps comes after it: however many sweeps there are before the end of the timeout, the first one at or after it sends this agent the reply `false`, once, and the session waits no longer.
  pub handle_routed_times_out :
      (moment : Moment) (e : Engine V F) (session_id : String) (call : ToolCall V) (reason : String)
      (source_session_id source_title : Option String) (reply : ℕ) (r : Runtime V F)
      (times : List ℕ) (now : ℕ)
      → runtime e.app session_id ≡ some r
      → All (λ now. now < moment.now + e.approval_timeout) times
      → moment.now + e.approval_timeout ≤ now
      → seen
          (sweep_expired_approvals services now (
            sweep_all services times (
              handle_routed services moment e session_id
                (AgentEvent.approval call reason source_session_id source_title reply)))).app
          session_id
        ≡ some (none, r.session.replies ++ (reply, false) ∷ [])
  unfolding Waits
  handle_routed_times_out moment e sid call reason src title reply r times now h early late =
      let (recorded, (waits, same)) =
        asked-Waits moment e sid call reason src title reply r times h early in
      (sweep_expired_approvals-answers services _ now moment.uuid _ _ r.session.replies recorded
        late waits same).0
