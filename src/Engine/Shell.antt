-- ===== src/Engine/Shell.antt =====
-- service/engine.rs and app.rs: a `!` command in a session that already waits on an approval.
use h_agent_core.Base.{
  ℕ, String, Bool, false, List, [], sym, none, some, str_eq, lookup, ◌≡◌, refl, ap, ◌∙◌, ◌+s◌,
}
use h_agent_core.Protocol.{Json}
use h_agent_core.Conversation.{F64}
use h_agent_core.Session.Model.{Services, PendingApproval, ApprovalAction}
use h_agent_core.Engine.{Engine, Moment, PendingRecord, ApiErrorKind, runtime, waits_on}
use h_agent_core.Engine.Approvals.{
  failure, resolve_approval, request_shell_approval, register_shell_approval, submit_shell,
}
use h_agent_core.Engine.Store.{lookup-insert_other, str_eq_refl}
use h_agent_core.Engine.Replies.{answered, seen, waiting_in, waiting-seen}
use h_agent_core.Engine.Resolve.{resolve_mismatch}
use h_agent_core.Engine.Expiry.{str_eq-differs}
use h_agent_core.Engine.Sweeps.{sweep_all, sweep_all-IsStale, sweep_all-IsSilent}
use h_agent_core.Engine.Routing.{map_option}

module _ {V F : Type 0} ⦃j : Json V⦄ ⦃f : F64 F⦄ (services : Services V F) where
  -- The approval of a `!` command.
  abbrev pub shell_approval : String → String → String → PendingApproval V
  shell_approval uuid id command = record {
    approval_id = some uuid;
    call = record {
      id = "shell_" +s id;
      name = "terminal_shell";
      arguments = services.object "command" command;
    };
    reason = "! 命令将通过 workspace Shell 执行";
    source_session_id = none;
    source_title = none;
    action = ApprovalAction.shell command;
  }

  pub submit_shell-seen :
      (moment : Moment) (id : String) (e : Engine V F) (command : String)
      → seen (submit_shell services moment id e command).app e.app.active_session
        ≡ some (some (shell_approval moment.uuid id command), e.app.current.session.replies)
  unfolding submit_shell request_shell_approval register_shell_approval runtime
  submit_shell-seen moment id e command = rw (str_eq_refl e.app.active_session) refl

  submit_shell-lookup :
      (moment : Moment) (id : String) (e : Engine V F) (command : String) (former : String)
      (found : PendingRecord)
      → lookup former e.pending ≡ some found
      → str_eq moment.uuid former ≡ false
      → lookup former (submit_shell services moment id e command).pending ≡ some found
  unfolding submit_shell register_shell_approval request_shell_approval
  submit_shell-lookup moment id e command former found h fresh =
      lookup-insert_other former moment.uuid _ e.pending (str_eq-differs moment.uuid former fresh)
        fresh
      ∙ h

  -- Turning down a `!` command tells nobody.
  shell_quiet :
      (uuid id command : String) (approval : PendingApproval V)
      → some (shell_approval uuid id command) ≡ some approval
      → answered approval.action false ≡ []
  shell_quiet uuid id command approval h =
      ap (λ o. elim o [ none ↦ [] | some a ↦ answered a.action false ]) (sym h)

  -- A `!` command takes the place of the approval that the active session waits on, and nobody answers it: however many sweeps follow and whatever the time, the former approval is refused as already resolved, its record is still there, and the session has sent no reply since before the command.
  pub submit_shell_displaces :
      (moment : Moment) (id : String) (e : Engine V F) (command : String) (former : String)
      (found : PendingRecord) (times : List ℕ) (accept allow_session : Bool)
      → lookup former e.pending ≡ some found
      → found.session_id ≡ e.app.active_session
      → str_eq moment.uuid former ≡ false
      → (let e' = sweep_all services times (submit_shell services moment id e command) in
          (resolve_approval services e' former accept allow_session
            ≡ (e', failure services ApiErrorKind.conflict "approval already resolved"))
          × ((lookup former e'.pending ≡ some found)
              × (map_option (λ w. w.1) (seen e'.app e.app.active_session)
                  ≡ some e.app.current.session.replies)))
  submit_shell_displaces moment id e command former found times accept always h own fresh =
      let start = submit_shell services moment id e command in
      let sees = submit_shell-seen moment id e command in
      let away : waits_on former (waiting_in (seen start.app found.session_id)) ≡ false =
        ap (λ sid. waits_on former (waiting_in (seen start.app sid))) own
        ∙ ap (λ o. waits_on former (waiting_in o)) sees
        ∙ fresh in
      let (kept, still) =
        sweep_all-IsStale services times start former found
          (submit_shell-lookup moment id e command former found h fresh, away) in
      let e' = sweep_all services times start in
      let (waiting, (quiet, none_told)) =
        sweep_all-IsSilent services times start e.app.active_session e.app.current.session.replies (
          some (shell_approval moment.uuid id command),
          (sees, shell_quiet moment.uuid id command),
        ) in
      (
        resolve_mismatch services e' former accept always found kept
            (ap (λ o. waits_on former o) (waiting-seen (runtime e'.app found.session_id)) ∙ still),
        (kept, ap (map_option (λ w. w.1)) quiet),
      )
