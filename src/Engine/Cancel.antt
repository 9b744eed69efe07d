-- ===== src/Engine/Cancel.antt =====
-- service/engine.rs: `cancel_session` and the approvals of the session that it cancels.
use mathlib.Core.Path.{subst}
use h_agent_core.Base.{
  ℕ, String, true, false, ◌||◌, List, [], ◌∷◌, ◌++◌, Option, none, str_eq, any, filter, map, All,
  ◌≡◌, refl, sym, ap, ◌∙◌, arith, Bool-cases, ◌⊎◌, inl, inr,
}
use h_agent_core.Protocol.{Json}
use h_agent_core.Conversation.{F64}
use h_agent_core.Session.Model.{SessionRuntime, Services}
use h_agent_core.Session.Thinking.{push_entry, mark_partial_if_streaming}
use h_agent_core.Session.Updates.{refusal}
use h_agent_core.Session.Events.{refuse_pending}
use h_agent_core.Session.Settled.{waiting, waiting-finish_thinking}
use h_agent_core.Engine.{Engine, Pending, PendingRecord, remove_key, on_session}
use h_agent_core.Engine.Approvals.{
  cancel_active_request, cancel_session, clear_ids, clear_session_approvals, is_stale,
}
use h_agent_core.Engine.Store.{str_eq_refl}

-- A record that is of another session, or among the ids to clear.
Cleared : String → List String → String × PendingRecord → Type 0
Cleared sid ids p = (str_eq (p.1).session_id sid ≡ false) ⊎ (any (λ x. str_eq (p.0) x) ids ≡ true)

remove-Cleared :
    (sid id : String) (ids : List String) (es : Pending)
    → All (Cleared sid (id ∷ ids)) es
    → All (Cleared sid ids) (remove_key id es)
unfolding Cleared
remove-Cleared sid id ids [] h = tt
remove-Cleared sid id ids (e ∷ es) (here, h) =
    let rest = remove-Cleared sid id ids es h in
    elim (Bool-cases (str_eq (e.0) id)) [
      | inl s ↦ rw s rest
      | inr s ↦ rw s (
        elim here [
          | inl o ↦ inl o
          | inr m ↦ inr (sym (ap (λ b. b || any (λ x. str_eq (e.0) x) ids) s) ∙ m)
        ],
        rest,
      )
    ]

more-Cleared :
    (sid x : String) (ids : List String) (es : Pending)
    → All (Cleared sid ids) es
    → All (Cleared sid (x ∷ ids)) es
unfolding Cleared
more-Cleared sid x ids [] h = tt
more-Cleared sid x ids (e ∷ es) (here, h) =
    (elim here [ inl o ↦ inl o | inr m ↦ inr (ground arith) ], more-Cleared sid x ids es h)

abbrev owned : String → Pending → List String
owned sid es = map (λ p. p.0) (filter (λ p. str_eq (p.1).session_id sid) es)

owned-mine :
    (sid : String) (e : String × PendingRecord) (es : Pending)
    → str_eq (e.1).session_id sid ≡ true
    → e.0 ∷ owned sid es ≡ owned sid (e ∷ es)
owned-mine sid e es s = rw s refl

owned-other :
    (sid : String) (e : String × PendingRecord) (es : Pending)
    → str_eq (e.1).session_id sid ≡ false
    → owned sid es ≡ owned sid (e ∷ es)
owned-other sid e es s = rw s refl

owned-Cleared : (sid : String) (es : Pending) → All (Cleared sid (owned sid es)) es
unfolding Cleared
owned-Cleared sid [] = tt
owned-Cleared sid (e ∷ es) =
    let rest = owned-Cleared sid es in
    elim (Bool-cases (str_eq (e.1).session_id sid)) [
      | inl s ↦
          subst (λ ids. All (Cleared sid ids) (e ∷ es)) (owned-mine sid e es s)
            (inr (rw (str_eq_refl (e.0)) refl), more-Cleared sid (e.0) (owned sid es) es rest)
      | inr s ↦ subst (λ ids. All (Cleared sid ids) (e ∷ es)) (owned-other sid e es s) (inl s, rest)
    ]

module _ {V F : Type 0} ⦃j : Json V⦄ ⦃f : F64 F⦄ (services : Services V F) where
  clear_ids-Cleared :
      (sid : String) (ids : List String) (e : Engine V F)
      → All (Cleared sid ids) e.pending
      → All (Cleared sid []) (clear_ids services sid ids e).pending
  unfolding clear_ids
  clear_ids-Cleared sid [] e h = h
  clear_ids-Cleared sid (id ∷ ids) e h =
      clear_ids-Cleared sid ids _ (remove-Cleared sid id ids e.pending h)

  clear_ids-app :
      (sid : String) (ids : List String) (e : Engine V F)
      → (clear_ids services sid ids e).app ≡ e.app
  unfolding clear_ids
  clear_ids-app sid [] e = refl
  clear_ids-app sid (id ∷ ids) e = clear_ids-app sid ids _

  -- `cancel_active_request`.
  cancelled-waiting :
      (s : SessionRuntime V F)
      → waiting (cancel_active_request services s)
        ≡ (false, false, none, s.replies ++ refusal s.pending_approval)
  unfolding cancel_active_request push_entry mark_partial_if_streaming
  cancelled-waiting s =
      ap (λ w. (false, w.1, w.2, w.3))
        (waiting-finish_thinking (services.uuid 0)
          (record (refuse_pending s) { active_task = false }) "思考已取消")

  none_owned :
      (sid : String) (es : Pending)
      → All (Cleared sid []) es
      → All (λ p. str_eq (p.1).session_id sid ≡ false) es
  unfolding Cleared
  none_owned sid [] h = tt
  none_owned sid (e ∷ es) (here, h) =
      (elim here [ inl o ↦ o | inr m ↦ absurd (ground arith) ], none_owned sid es h)

  -- A cancellation of the active session, for its current request or for none in particular, stops the request: the session is not busy, has no task and waits on no approval, an agent whose approval waited gets the reply `false`, and no record of an approval of this session is left.
  pub cancel_session-waiting :
      (e : Engine V F) (session_id : String) (request_seq : Option ℕ)
      → str_eq session_id e.app.active_session ≡ true
      → is_stale request_seq e.app.current.request_seq ≡ false
      → (let (e', error) = cancel_session services e session_id request_seq in
          let s = e.app.current.session in
          (error ≡ none)
          × ((waiting e'.app.current.session
                ≡ (false, false, none, s.replies ++ refusal s.pending_approval))
              × All (λ p. str_eq (p.1).session_id session_id ≡ false) e'.pending))
  unfolding cancel_session clear_session_approvals
  cancel_session-waiting e sid seq a b =
      let stopped : Engine V F = record e {
        app = record e.app { current = on_session (cancel_active_request services) e.app.current };
      } in
      let ids = owned sid e.pending in
      rw a (
        rw b (
          refl,
          (
            ap (λ app. waiting app.current.session) (clear_ids-app sid ids stopped)
                ∙ cancelled-waiting e.app.current.session,
            none_owned sid _ (clear_ids-Cleared sid ids stopped (owned-Cleared sid e.pending)),
          ),
        ))

  -- A cancellation of a session in the background, or of a request that is not the current one any more, changes nothing.
  pub cancel_session-unchanged :
      (e : Engine V F) (session_id : String) (request_seq : Option ℕ)
      → (str_eq session_id e.app.active_session ≡ false)
        ⊎ (is_stale request_seq e.app.current.request_seq ≡ true)
      → (cancel_session services e session_id request_seq).0 ≡ e
  unfolding cancel_session
  cancel_session-unchanged e sid seq (inl a) = rw a refl
  cancel_session-unchanged e sid seq (inr b) = elim (Bool-cases (str_eq sid e.app.active_session)) [
    | inl a ↦ rw a (rw b refl)
    | inr a ↦ rw a refl
  ]
