-- ===== src/Engine/Tests.antt =====
-- Tests and examples for the approvals of service/engine.rs.
use h_agent_core.Config.Types.{MetaSource}
use h_agent_core.Base.{
  ℕ, true, false, [], ◌∷◌, Option, none, some, lookup, str_eq, mib, All, ◌≡◌, refl, arith,
}
use h_agent_core.Bridge.{new}
use h_agent_core.Policy.{build}
use h_agent_core.Session.Model.{AgentEvent, PendingApproval}
use h_agent_core.Session.Settled.{waiting}
use h_agent_core.App.{Runtime}
use h_agent_core.Samples.{Sample, sample_json, sample_f64, git_status, streaming, sample_services}
use h_agent_core.Engine.{Engine, Moment, PendingRecord, ApiErrorKind, runtime, waits_on}
use h_agent_core.Engine.Routing.{handle_routed}
use h_agent_core.Engine.Approvals.{
  failure, resolve_approval, sweep_expired_approvals, cancel_session, submit_shell,
}
use h_agent_core.Engine.Replies.{seen, waiting_in}
use h_agent_core.Engine.Asking.{asked, handle_routed-resolve_approval, handle_routed_times_out}
use h_agent_core.Engine.Sweeps.{sweep_all}
use h_agent_core.Engine.Routing.{map_option}
use h_agent_core.Engine.Shell.{submit_shell_displaces}
use h_agent_core.Engine.Cancel.{cancel_session-waiting}

-- A session at work that waits on an approval, or on none.
abbrev with_approval : Option (PendingApproval Sample) → Runtime Sample ℕ
with_approval approval = record {
  session = record streaming { pending_approval = approval };
  mode = build;
  has_runner = true;
  parked_at = 0;
  request_seq = 4;
}

abbrev the_approval : PendingApproval Sample
the_approval = asked (some "a1") git_status "why" none none 7

abbrev the_record : PendingRecord
the_record = record { session_id = "s2"; deadline = 60 }

-- The session `s1` is in the foreground, `s2` waits in the background.
abbrev sample_engine : Engine Sample ℕ
sample_engine = record {
  app = record {
    active_session = "s1";
    current = with_approval none;
    background = ("s2", with_approval (some the_approval)) ∷ [];
    registry = record { mode = build; permissions = []; session_allows = [] };
    input = "";
    max_background_sessions = 1;
  };
  child_batches = [];
  child_status = [];
  resolved = record {
    context_window_tokens = none;
    window_source = MetaSource.registry;
    max_output_tokens = none;
  };
  should_quit = false;
  bridge = new 16 mib;
  pending = ("a1", the_record) ∷ [];
  approval_timeout = 60;
}

abbrev a_moment : Moment
a_moment = record { uuid = "a2"; now = 5; refreshed = true }

found_in_background : seen sample_engine.app "s2" ≡ some (some the_approval, [])
unfolding runtime
found_in_background = refl

unknown_id :
    (resolve_approval sample_services sample_engine "b" true false).1
    ≡ failure sample_services ApiErrorKind.not_found "unknown approval b"
unfolding resolve_approval
unknown_id = refl

-- The same record after the agent let go of its request.
abbrev let_go : Engine Sample ℕ
let_go = record sample_engine {
  app = record sample_engine.app { background = ("s2", with_approval none) ∷ [] };
}

waits_no_more : waits_on "a1" (waiting_in (seen let_go.app "s2")) ≡ false
unfolding runtime
waits_no_more = refl

in_front : runtime sample_engine.app "s1" ≡ some (with_approval none)
unfolding runtime
in_front = refl

handle_routed-resolve_approval_example :
    (let e' = sweep_all sample_services (60 ∷ []) (
        handle_routed sample_services a_moment sample_engine "s1"
          (AgentEvent.approval git_status "why" none none 8)) in
      let (after, error) = resolve_approval sample_services e' "a2" true true in
      (error ≡ none) × (seen after.app "s1" ≡ some (none, (8, true) ∷ [])))
handle_routed-resolve_approval_example =
    handle_routed-resolve_approval sample_services a_moment sample_engine "s1" git_status "why" none
      none 8 (with_approval none) (60 ∷ []) true true in_front (omega arith, tt)

handle_routed_times_out_example :
    seen
      (sweep_expired_approvals sample_services 65 (
        sweep_all sample_services (60 ∷ []) (
          handle_routed sample_services a_moment sample_engine "s1"
            (AgentEvent.approval git_status "why" none none 8)))).app
      "s1"
    ≡ some (none, (8, false) ∷ [])
handle_routed_times_out_example =
    handle_routed_times_out sample_services a_moment sample_engine "s1" git_status "why" none none 8
      (with_approval none) (60 ∷ []) 65 in_front (omega arith, tt) (omega arith)

-- The session in the foreground waits.
abbrev front_waits : Engine Sample ℕ
front_waits = record sample_engine {
  app = record sample_engine.app { current = with_approval (some the_approval) };
}

cancel_session-waiting_example :
    (let (e', error) = cancel_session sample_services front_waits "s1" (some 4) in
      (error ≡ none)
      × ((waiting e'.app.current.session ≡ (false, false, none, (7, false) ∷ []))
          × All (λ p. str_eq (p.1).session_id "s1" ≡ false) e'.pending))
cancel_session-waiting_example =
    cancel_session-waiting sample_services front_waits "s1" (some 4) refl refl

-- The record of the approval that waits in the foreground.
abbrev front_record : PendingRecord
front_record = record { session_id = "s1"; deadline = 60 }

abbrev front_recorded : Engine Sample ℕ
front_recorded = record front_waits { pending = ("a1", front_record) ∷ [] }

submit_shell_displaces_example :
    (let e' =
        sweep_all sample_services
          (90 ∷ [])
          (submit_shell sample_services a_moment "x" front_recorded "ls") in
      (resolve_approval sample_services e' "a1" true false
        ≡ (e', failure sample_services ApiErrorKind.conflict "approval already resolved"))
      × ((lookup "a1" e'.pending ≡ some front_record)
          × (map_option (λ w. w.1) (seen e'.app "s1") ≡ some [])))
submit_shell_displaces_example =
    submit_shell_displaces sample_services a_moment "x" front_recorded "ls" "a1" front_record
      (90 ∷ []) true false refl refl refl
