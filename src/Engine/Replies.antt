-- ===== src/Engine/Replies.antt =====
-- service/engine.rs: what `resolve_approval` does to the session that asked, to the others and to
-- the record of the approval.
use h_agent_core.Base.{
  ℕ, String, Bool, true, false, ◌&&◌, List, [], ◌∷◌, ◌++◌, append-nil, Option, none, some,
  if◌then◌else◌, str_eq, ◌≡◌, refl, ap, ◌∙◌, Bool-cases, inl, inr,
}
use h_agent_core.Protocol.{Json}
use h_agent_core.Session.Model.{SessionRuntime, PendingApproval, ApprovalAction}
use h_agent_core.Session.Thinking.{push_entry}
use h_agent_core.Policy.{ToolRegistry, allow_for_session}
use h_agent_core.App.{App, Runtime}
use h_agent_core.Engine.{runtime, runtime_mut, on_session, waiting_approval}
use h_agent_core.Engine.Routing.{map_option}
use h_agent_core.Engine.Approvals.{
  allow_key, allow_always, note_rule, answer, answer_agent, answer_shell,
}
use h_agent_core.Engine.Store.{runtime-runtime_mut, runtime-runtime_mut_other}

-- What an approval's sender is told: an agent is, a shell command has nobody who waits.
abbrev pub answered : ApprovalAction → Bool → List (ℕ × Bool)
answered (ApprovalAction.agent reply) accept = (reply, accept) ∷ []
answered (ApprovalAction.shell command) accept = []

-- What the sender of an approval sees of a session: the approval that waits and the replies so far.
abbrev pub Seen : Type 0 → Type 0
Seen V = Option (PendingApproval V) × List (ℕ × Bool)

abbrev pub seen_runtime : {V F : Type 0} → Runtime V F → Seen V
seen_runtime r = (r.session.pending_approval, r.session.replies)

abbrev pub seen : {V F : Type 0} → App V F → String → Option (Seen V)
seen app id = map_option seen_runtime (runtime app id)

abbrev pub waiting_in : {V : Type 0} → Option (Seen V) → Option (PendingApproval V)
waiting_in none = none
waiting_in (some w) = w.0

abbrev pub answer_seen : {V : Type 0} → ApprovalAction → Bool → Seen V → Seen V
answer_seen action accept w = (none, w.1 ++ answered action accept)

map-same : {V : Type 0} (o : Option (Seen V)) → map_option (λ w. w) o ≡ o
map-same none = refl
map-same (some w) = refl

map-map :
    {V : Type 0} (f g : Seen V → Seen V) (o : Option (Seen V))
    → map_option f (map_option g o) ≡ map_option (λ w. f (g w)) o
map-map f g none = refl
map-map f g (some w) = refl

module _ {V F : Type 0} where
  map-seen :
      (f : Runtime V F → Runtime V F) (g : Seen V → Seen V)
      → ((r : Runtime V F) → seen_runtime (f r) ≡ g (seen_runtime r))
      → (o : Option (Runtime V F))
      → map_option seen_runtime (map_option f o) ≡ map_option g (map_option seen_runtime o)
  map-seen f g h none = refl
  map-seen f g h (some r) = ap some (h r)

  pub seen-runtime_mut :
      (app : App V F) (id : String) (f : Runtime V F → Runtime V F) (g : Seen V → Seen V)
      → ((r : Runtime V F) → seen_runtime (f r) ≡ g (seen_runtime r))
      → seen (runtime_mut app id f) id ≡ map_option g (seen app id)
  seen-runtime_mut app id f g h =
      ap (λ o. map_option seen_runtime o) (runtime-runtime_mut app id f)
      ∙ map-seen f g h (runtime app id)

  pub seen-runtime_mut_other :
      (app : App V F) (other id : String) (f : Runtime V F → Runtime V F)
      → str_eq other id ≡ false
      → seen (runtime_mut app id f) other ≡ seen app other
  seen-runtime_mut_other app other id f h =
      ap (λ o. map_option seen_runtime o) (runtime-runtime_mut_other app other id f h)

  pub waiting-seen :
      (o : Option (Runtime V F)) → waiting_approval o ≡ waiting_in (map_option seen_runtime o)
  waiting-seen none = refl
  waiting-seen (some r) = refl

  seen-registry :
      (app : App V F) (registry : ToolRegistry) (id : String)
      → seen (record app { registry = registry }) id ≡ seen app id
  unfolding runtime
  seen-registry app registry id = refl

module _ {V F : Type 0} ⦃j : Json V⦄ where
  answer-seen :
      (action : ApprovalAction) (accept : Bool) (s : SessionRuntime V F)
      → ◌≡◌ {A = Seen V}
          ((answer action accept s).pending_approval, (answer action accept s).replies)
          (s.pending_approval, s.replies ++ answered action accept)
  unfolding answer answer_agent answer_shell
  answer-seen (ApprovalAction.agent reply) accept s = refl
  answer-seen (ApprovalAction.shell command) true s = rw (append-nil s.replies) refl
  answer-seen (ApprovalAction.shell command) false s = rw (append-nil s.replies) refl

  allow_always-seen :
      (app : App V F) (owner : String) (approval : PendingApproval V)
      → seen (allow_always app owner approval) owner ≡ seen app owner
  unfolding allow_always note_rule push_entry
  allow_always-seen app owner approval =
      let (tool, prefix, label) = allow_key approval in
      let noted : App V F = record app { registry = allow_for_session app.registry tool prefix } in
      seen-runtime_mut noted owner (on_session (note_rule label)) (λ w. w) (λ r. refl)
      ∙ map-same (seen noted owner)
      ∙ seen-registry app noted.registry owner

  allow_always-seen_other :
      (app : App V F) (other owner : String) (approval : PendingApproval V)
      → str_eq other owner ≡ false
      → seen (allow_always app owner approval) other ≡ seen app other
  unfolding allow_always
  allow_always-seen_other app other owner approval h =
      let (tool, prefix, label) = allow_key approval in
      let noted : App V F = record app { registry = allow_for_session app.registry tool prefix } in
      seen-runtime_mut_other noted other owner (on_session (note_rule label)) h
      ∙ seen-registry app noted.registry other

  -- The application after an approval of `owner` was taken and answered.
  abbrev pub answered_app : App V F → String → PendingApproval V → Bool → Bool → App V F
  answered_app app owner approval accept allow_session =
      let taken = runtime_mut app owner (on_session (λ s. record s { pending_approval = none })) in
      let allowed = if accept && allow_session then allow_always taken owner approval else taken in
      runtime_mut allowed owner (on_session (answer approval.action accept))

  pub answered-seen :
      (app : App V F) (owner : String) (approval : PendingApproval V) (accept always : Bool)
      → seen (answered_app app owner approval accept always) owner
        ≡ map_option (answer_seen approval.action accept) (seen app owner)
  answered-seen app owner approval accept always =
      let taken = runtime_mut app owner (on_session (λ s. record s { pending_approval = none })) in
      let first =
        seen-runtime_mut app owner (on_session (λ s. record s { pending_approval = none }))
          (λ w. (none, w.1)) (λ r. refl) in
      let noted : seen (if accept && always then allow_always taken owner approval else taken) owner
          ≡ seen taken owner =
        elim (Bool-cases (accept && always)) [
          | inl e ↦ rw e (allow_always-seen taken owner approval)
          | inr e ↦ rw e refl
        ] in
      seen-runtime_mut (if accept && always then allow_always taken owner approval else taken) owner
        (on_session (answer approval.action accept))
        (λ w. (w.0, w.1 ++ answered approval.action accept))
        (λ r. answer-seen approval.action accept r.session)
      ∙ ap (λ o. map_option (λ w. (w.0, w.1 ++ answered approval.action accept)) o) (noted ∙ first)
      ∙ map-map (λ w. (w.0, w.1 ++ answered approval.action accept)) (λ w. (none, w.1))
          (seen app owner)

  pub answered-seen_other :
      (app : App V F) (other owner : String) (approval : PendingApproval V) (accept always : Bool)
      → str_eq other owner ≡ false
      → seen (answered_app app owner approval accept always) other ≡ seen app other
  answered-seen_other app other owner approval accept always h =
      let taken = runtime_mut app owner (on_session (λ s. record s { pending_approval = none })) in
      let noted : seen (if accept && always then allow_always taken owner approval else taken) other
          ≡ seen taken other =
        elim (Bool-cases (accept && always)) [
          | inl e ↦ rw e (allow_always-seen_other taken other owner approval h)
          | inr e ↦ rw e refl
        ] in
      seen-runtime_mut_other (if accept && always then allow_always taken owner approval else taken)
        other owner (on_session (answer approval.action accept)) h
      ∙ noted
      ∙ seen-runtime_mut_other app other owner
          (on_session (λ s. record s { pending_approval = none })) h
