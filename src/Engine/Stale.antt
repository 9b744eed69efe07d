-- ===== src/Engine/Stale.antt =====
-- service/engine.rs: a record of an approval that no session waits on any more.
use mathlib.Core.Bool.{true≢false}
use h_agent_core.Base.{
  ℕ, ◌≤◌, String, Bool, true, false, List, [], ◌∷◌, Option, none, some, str_eq, lookup, ◌≡◌, refl,
  sym, ap, ◌∙◌, Bool-cases, inl, inr,
}
use h_agent_core.Protocol.{Json}
use h_agent_core.Conversation.{F64}
use h_agent_core.Session.Model.{Services, ApprovalAction}
use h_agent_core.Engine.{Engine, PendingRecord, waits_on}
use h_agent_core.Engine.Routing.{map_option}
use h_agent_core.Engine.Approvals.{resolve_approval, reject_all, expired, sweep_expired_approvals}
use h_agent_core.Engine.Store.{str_eq_refl, str_eq_sound}
use h_agent_core.Engine.Replies.{Seen, seen, waiting_in, answer_seen, answered-seen}
use h_agent_core.Engine.Resolve.{Answerable, resolve-Answerable, resolve-cases}
use h_agent_core.Engine.Expiry.{record-inj, reject_other, reject-lookup, own_approval}

waiting_in-answer :
    {V : Type 0} (action : ApprovalAction) (accept : Bool) (o : Option (Seen V))
    → waiting_in (map_option (answer_seen action accept) o) ≡ none
waiting_in-answer action accept none = refl
waiting_in-answer action accept (some w) = refl

module _ {V F : Type 0} ⦃j : Json V⦄ ⦃f : F64 F⦄ (services : Services V F) where
  -- A record whose session waits on another approval, or on none.
  abbrev pub IsStale : Engine V F → String → PendingRecord → Type 0
  IsStale e id found =
      (lookup id e.pending ≡ some found)
      × (waits_on id (waiting_in (seen e.app found.session_id)) ≡ false)

  pub reject_own :
      (e : Engine V F) (x owner : String) (a : Answerable services e x)
      → str_eq owner a.found.session_id ≡ true
      → waiting_in (seen (resolve_approval services e x false false).0.app owner) ≡ none
  reject_own e x owner a s = rw (resolve-Answerable services e x false false a) (
      rw (str_eq_sound owner a.found.session_id s) (
        ap waiting_in (answered-seen e.app a.found.session_id a.approval false false)
        ∙ waiting_in-answer a.approval.action false (seen e.app a.found.session_id)))

  -- A stale record's own id cannot be answered.
  not-Answerable :
      (e : Engine V F) (id : String) (found : PendingRecord)
      → IsStale e id found
      → (a : Answerable services e id) → ⊥
  not-Answerable e id found (h, w) a =
      let same : a.found ≡ found = record-inj a.found found (sym a.recorded ∙ h) in
      let own : waiting_in (seen e.app found.session_id) ≡ some a.approval =
        ap (λ r. waiting_in (seen e.app r.session_id)) (sym same)
        ∙ own_approval services e id a.found.session_id a (str_eq_refl a.found.session_id) in
      true≢false (sym a.same_id ∙ sym (ap (λ o. waits_on id o) own) ∙ w)

  reject-IsStale :
      (e : Engine V F) (x id : String) (found : PendingRecord)
      → IsStale e id found
      → IsStale (resolve_approval services e x false false).0 id found
  reject-IsStale e x id found (h, w) = elim (resolve-cases services e x false false) [
    | inr (kind, (message, k)) ↦ rw k (h, w)
    | inl a ↦ elim (Bool-cases (str_eq id x)) [
      | inl s ↦ absurd (not-Answerable e x found (rw (← str_eq_sound id x s) (h, w)) a)
      | inr n ↦ (
        reject-lookup services e x id n ∙ h,
        elim (reject_other services e x found.session_id) [
          | inl (b, s) ↦ ap (λ o. waits_on id o) (reject_own e x found.session_id b s)
          | inr u ↦ ap (λ o. waits_on id (waiting_in o)) u ∙ w
        ],
      )
    ]
  ]

  pub reject_all-IsStale :
      (ids : List String) (e : Engine V F) (id : String) (found : PendingRecord)
      → IsStale e id found
      → IsStale (reject_all services ids e) id found
  unfolding reject_all
  reject_all-IsStale [] e id found h = h
  reject_all-IsStale (x ∷ ids) e id found h =
      reject_all-IsStale ids (resolve_approval services e x false false).0 id found
        (reject-IsStale e x id found h)

  -- The record of an approval that its session does not wait on any more, because the agent ended the request or another approval took its place, outlives a sweep, though its deadline has passed.
  pub sweep_expired_approvals-IsStale :
      (e : Engine V F) (now : ℕ) (id : String) (found : PendingRecord)
      → found.deadline ≤ now
      → lookup id e.pending ≡ some found
      → waits_on id (waiting_in (seen e.app found.session_id)) ≡ false
      → lookup id (sweep_expired_approvals services now e).pending ≡ some found
  unfolding sweep_expired_approvals
  sweep_expired_approvals-IsStale e now id found le h w =
      (reject_all-IsStale (expired now e.pending) e id found (h, w)).0
