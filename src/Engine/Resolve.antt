-- ===== src/Engine/Resolve.antt =====
-- service/engine.rs: `resolve_approval` on every branch.
use h_agent_core.Base.{
  ℕ, String, Bool, true, false, List, ◌++◌, Option, none, some, str_eq, lookup, ◌≡◌, ◌≢◌, refl, sym,
  ap, ◌∙◌, arith, Bool-cases, Option-cases, ◌⊎◌, inl, inr, ◌+s◌,
}
use h_agent_core.Protocol.{Json, Event}
use h_agent_core.Bridge.{push}
use h_agent_core.Conversation.{F64}
use h_agent_core.Session.Model.{Services, PendingApproval}
use h_agent_core.Engine.{
  Engine, PendingRecord, ApiError, ApiErrorKind, runtime, waiting_approval, waits_on, has_id,
  take_pending_approval, remove_key,
}
use h_agent_core.Engine.Routing.{map_option, told}
use h_agent_core.Engine.Approvals.{failure, settle_approval, resolve_owned, resolve_approval}
use h_agent_core.Engine.Store.{lookup-remove_same, str_eq_refl}
use h_agent_core.Engine.Replies.{
  answered, seen, waiting_in, waiting-seen, answer_seen, answered_app, answered-seen,
  answered-seen_other,
}

none_some : (error : ApiError) → ◌≢◌ {A = Option ApiError} none (some error)
none_some error h = ground arith

some-inj : (a b : PendingRecord) → some a ≡ some b → a ≡ b
some-inj a b h = ground arith

module _ {V F : Type 0} ⦃j : Json V⦄ ⦃f : F64 F⦄ (services : Services V F) where
  -- An approval that can be answered now.
  pub record Answerable (e : Engine V F) (id : String) : Type 0 where
    pub found : PendingRecord
    pub approval : PendingApproval V
    pub recorded : lookup id e.pending ≡ some found
    pub waiting : waiting_approval (runtime e.app found.session_id) ≡ some approval
    pub same_id : has_id id approval.approval_id ≡ true

  -- The engine after it was answered.
  abbrev pub after_answer :
      (e : Engine V F) (id : String) → Bool → Bool → Answerable e id → Engine V F
  after_answer e id accept always a =
      told
        (record e {
          app = answered_app e.app a.found.session_id a.approval accept always;
          pending = remove_key id e.pending;
        })
        a.found.session_id (Event.approval_resolved id accept)

  pub resolve-Answerable :
      (e : Engine V F) (id : String) (accept always : Bool) (a : Answerable e id)
      → resolve_approval services e id accept always ≡ (after_answer e id accept always a, none)
  unfolding resolve_approval resolve_owned take_pending_approval settle_approval
  resolve-Answerable e id accept always a =
      rw (a.recorded, a.waiting, a.same_id, resolve_approval, resolve_owned, take_pending_approval)
        refl

  resolve_missing :
      (e : Engine V F) (id : String) (accept always : Bool)
      → lookup id e.pending ≡ none
      → resolve_approval services e id accept always
        ≡ (e, failure services ApiErrorKind.not_found ("unknown approval " +s id))
  unfolding resolve_approval
  resolve_missing e id accept always h = rw (h, resolve_approval) refl

  pub resolve_mismatch :
      (e : Engine V F) (id : String) (accept always : Bool) (found : PendingRecord)
      → lookup id e.pending ≡ some found
      → waits_on id (waiting_approval (runtime e.app found.session_id)) ≡ false
      → resolve_approval services e id accept always
        ≡ (e, failure services ApiErrorKind.conflict "approval already resolved")
  unfolding resolve_approval resolve_owned
  resolve_mismatch e id accept always found h k = rw (h, k, resolve_approval, resolve_owned) refl

  -- Either an approval can be answered, or asking to changes nothing.
  pub resolve-cases :
      (e : Engine V F) (id : String) (accept always : Bool)
      → Answerable e id
        ⊎ ((kind : ApiErrorKind) × ((message : String) × (resolve_approval services e id accept
                  always
                ≡ (e, failure services kind message))))
  resolve-cases e id accept always = elim (Option-cases (lookup id e.pending)) [
    | inl h ↦ inr (ApiErrorKind.not_found, (_, resolve_missing e id accept always h))
    | inr (found, h) ↦ elim (Option-cases (waiting_approval (runtime e.app found.session_id))) [
      | inl n ↦
          inr (ApiErrorKind.conflict, (_, resolve_mismatch e id accept always found h (rw n refl)))
      | inr (approval, w) ↦ elim (Bool-cases (has_id id approval.approval_id)) [
        | inl s ↦
            inl (record {
              found = found;
              approval = approval;
              recorded = h;
              waiting = w;
              same_id = s;
            })
        | inr s ↦
            inr (ApiErrorKind.conflict, (_, resolve_mismatch e id accept always found h (rw w s)))
      ]
    ]
  ]

  -- A request to resolve an approval that is answered with an error changes nothing: no reply is sent, no session is touched, no record is dropped and no event is pushed.
  pub resolve_approval-unchanged :
      (e : Engine V F) (id : String) (accept allow_session : Bool) (error : ApiError)
      → (resolve_approval services e id accept allow_session).1 ≡ some error
      → (resolve_approval services e id accept allow_session).0 ≡ e
  resolve_approval-unchanged e id accept always error h = elim (resolve-cases e id accept always) [
    | inl a ↦
        absurd (none_some error (sym (ap (λ p. p.1) (resolve-Answerable e id accept always a)) ∙ h))
    | inr (kind, (message, k)) ↦ ap (λ p. p.0) k
  ]

  -- An approval is resolved at most once: after it was, any further answer to it is refused as unknown, and changes nothing.
  pub resolve_approval_once :
      (e : Engine V F) (id : String) (accept allow_session accept' allow_session' : Bool)
      → (resolve_approval services e id accept allow_session).1 ≡ none
      → (let e' = (resolve_approval services e id accept allow_session).0 in
          resolve_approval services e' id accept' allow_session'
          ≡ (e', failure services ApiErrorKind.not_found ("unknown approval " +s id)))
  resolve_approval_once e id accept always accept' always' h =
      elim (resolve-cases e id accept always) [
        | inl a ↦
            (let gone : lookup id (resolve_approval services e id accept always).0.pending ≡ none =
                rw (resolve-Answerable e id accept always a) (lookup-remove_same id e.pending) in
              resolve_missing (resolve_approval services e id accept always).0 id accept' always'
                gone)
        | inr (kind, (message, k)) ↦ absurd (none_some _ (sym h ∙ ap (λ p. p.1) k))
      ]

  -- An approval that is recorded and that its session waits on is resolved: its sender gets exactly one reply, the decision (a shell command has no sender), the session waits on no approval any more, the record is gone, and one event that tells the decision is pushed to the bridge.
  pub resolve_approval-answers :
      (e : Engine V F) (id : String) (accept allow_session : Bool) (found : PendingRecord)
      (approval : PendingApproval V) (replies : List (ℕ × Bool))
      → lookup id e.pending ≡ some found
      → seen e.app found.session_id ≡ some (some approval, replies)
      → approval.approval_id ≡ some id
      → (let (e', error) = resolve_approval services e id accept allow_session in
          (error ≡ none)
          × ((seen e'.app found.session_id
                ≡ some (none, replies ++ answered approval.action accept))
              × ((lookup id e'.pending ≡ none)
                  × (e'.bridge
                      ≡ (push e.bridge found.session_id (Event.approval_resolved id accept)).0))))
  resolve_approval-answers e id accept always found approval replies h w s =
      let a : Answerable e id = record {
        found = found;
        approval = approval;
        recorded = h;
        waiting = waiting-seen (runtime e.app found.session_id) ∙ ap waiting_in w;
        same_id = rw s (str_eq_refl id);
      } in
      rw (resolve-Answerable e id accept always a) (
        refl,
        (
          answered-seen e.app found.session_id approval accept always
              ∙ ap (λ o. map_option (answer_seen approval.action accept) o) w,
          (lookup-remove_same id e.pending, refl),
        ),
      )

  -- Resolving an approval leaves every other session as it is, in the approval that it waits on and in the replies that were sent.
  pub resolve_approval-seen_other :
      (e : Engine V F) (id : String) (accept allow_session : Bool) (found : PendingRecord)
      (other : String)
      → lookup id e.pending ≡ some found
      → str_eq other found.session_id ≡ false
      → seen (resolve_approval services e id accept allow_session).0.app other ≡ seen e.app other
  resolve_approval-seen_other e id accept always found other h n =
      elim (resolve-cases e id accept always) [
        | inl a ↦
            (let same : a.found ≡ found = some-inj a.found found (sym a.recorded ∙ h) in
              rw (resolve-Answerable e id accept always a) (
                answered-seen_other e.app other a.found.session_id a.approval accept always
                  (ap (λ r. str_eq other r.session_id) same ∙ n)))
        | inr (kind, (message, k)) ↦ rw k refl
      ]
