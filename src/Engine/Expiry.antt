-- ===== src/Engine/Expiry.antt =====
-- service/engine.rs: `sweep_expired_approvals`. What it does for an approval that a session waits
-- on, and for a record that no session waits on any more.
use mathlib.Core.Bool.{true≢false}
use h_agent_core.Base.{
  ℕ, ◌≤◌, String, Bool, true, false, ◌||◌, List, [], ◌∷◌, ◌++◌, Option, none, some, if◌then◌else◌,
  str_eq, lookup, any, leb, ◌≡◌, ◌≢◌, refl, sym, ap, ◌∙◌, arith, Bool-cases, ◌⊎◌, inl, inr,
}
use h_agent_core.Protocol.{Json}
use h_agent_core.Conversation.{F64}
use h_agent_core.Session.Model.{Services, PendingApproval}
use h_agent_core.Engine.{Engine, Pending, PendingRecord, runtime, has_id, remove_key}
use h_agent_core.Engine.Approvals.{resolve_approval, reject_all, expired, sweep_expired_approvals}
use h_agent_core.Engine.Store.{lookup-remove_same, lookup-remove_other, str_eq_refl, str_eq_sound}
use h_agent_core.Engine.Replies.{answered, seen, waiting_in, waiting-seen, answered-seen_other}
use h_agent_core.Engine.Resolve.{
  Answerable, resolve-Answerable, resolve-cases, resolve_approval-answers,
}

pub none_some :
    {V : Type 0} (a : PendingApproval V) → ◌≢◌ {A = Option (PendingApproval V)} none (some a)
none_some a h = ground arith

some-inj : {V : Type 0} (a b : PendingApproval V) → some a ≡ some b → a ≡ b
some-inj a b h = ground arith

pub record-inj : (a b : PendingRecord) → some a ≡ some b → a ≡ b
record-inj a b h = ground arith

pub str_eq-differs : (a b : String) → str_eq a b ≡ false → str_eq b a ≡ false
str_eq-differs a b h = elim (Bool-cases (str_eq b a)) [
  | inl e ↦
      absurd
        (true≢false (sym (str_eq_refl a) ∙ ap (λ x. str_eq a x) (sym (str_eq_sound b a e)) ∙ h))
  | inr e ↦ e
]

-- The ids that the sweep collects hold that of every record whose deadline has passed.
any-expired :
    (now : ℕ) (id : String) (found : PendingRecord) (pending : Pending)
    → lookup id pending ≡ some found
    → found.deadline ≤ now
    → any (λ x. str_eq x id) (expired now pending) ≡ true
any-expired now id found [] h le = absurd (ground arith)
any-expired now id found ((k, v) ∷ es) h le = elim (Bool-cases (str_eq k id)) [
  | inl e ↦
      (let same : some v ≡ some found = sym (ap (λ b. if b then some v else lookup id es) e) ∙ h in
        let early : leb v.deadline now ≡ true = rw (record-inj v found same) (ground arith) in
        rw early (rw e refl))
  | inr e ↦
      (let later : lookup id es ≡ some found =
          sym (ap (λ b. if b then some v else lookup id es) e) ∙ h in
        let ih = any-expired now id found es later le in
        elim (Bool-cases (leb v.deadline now)) [ inl l ↦ rw l (rw e ih) | inr l ↦ rw l ih ])
]

module _ {V F : Type 0} ⦃j : Json V⦄ ⦃f : F64 F⦄ (services : Services V F) where
  -- The two ways in which turning down another approval can meet a session: it is the session's own, or it leaves it as it is.
  pub reject_other :
      (e : Engine V F) (id owner : String)
      → ((a : Answerable services e id) × (str_eq owner a.found.session_id ≡ true))
        ⊎ (seen (resolve_approval services e id false false).0.app owner ≡ seen e.app owner)
  reject_other e id owner = elim (resolve-cases services e id false false) [
    | inr (kind, (message, k)) ↦ inr (rw k refl)
    | inl a ↦ elim (Bool-cases (str_eq owner a.found.session_id)) [
      | inl s ↦ inl (a, s)
      | inr s ↦ inr (
          rw (resolve-Answerable services e id false false a)
            (answered-seen_other e.app owner a.found.session_id a.approval false false s))
    ]
  ]

  pub reject-lookup :
      (e : Engine V F) (id other : String)
      → str_eq other id ≡ false
      → lookup other (resolve_approval services e id false false).0.pending ≡ lookup other e.pending
  reject-lookup e id other n = elim (resolve-cases services e id false false) [
    | inr (kind, (message, k)) ↦ rw k refl
    | inl a ↦
        rw (resolve-Answerable services e id false false a)
          (lookup-remove_other other id e.pending n)
  ]

  reject-lookup-none :
      (e : Engine V F) (id other : String)
      → lookup other e.pending ≡ none
      → lookup other (resolve_approval services e id false false).0.pending ≡ none
  reject-lookup-none e id other h = elim (Bool-cases (str_eq other id)) [
    | inr n ↦ reject-lookup e id other n ∙ h
    | inl s ↦ elim (resolve-cases services e id false false) [
      | inr (kind, (message, k)) ↦ rw k h
      | inl a ↦ rw (resolve-Answerable services e id false false a) (
          ap (λ x. lookup x (remove_key id e.pending)) (str_eq_sound other id s)
          ∙ lookup-remove_same id e.pending)
    ]
  ]

  -- The approval that an answerable one is, as its session sees it.
  pub own_approval :
      (e : Engine V F) (id owner : String) (a : Answerable services e id)
      → str_eq owner a.found.session_id ≡ true
      → waiting_in (seen e.app owner) ≡ some a.approval
  own_approval e id owner a s =
      rw (str_eq_sound owner a.found.session_id s)
        (sym (waiting-seen (runtime e.app a.found.session_id)) ∙ a.waiting)

  at_rest_stays :
      (ids : List String) (e : Engine V F) (id owner : String) (replies : List (ℕ × Bool))
      → seen e.app owner ≡ some (none, replies)
      → lookup id e.pending ≡ none
      → (seen (reject_all services ids e).app owner ≡ some (none, replies))
        × (lookup id (reject_all services ids e).pending ≡ none)
  unfolding reject_all
  at_rest_stays [] e id owner replies h k = (h, k)
  at_rest_stays (x ∷ ids) e id owner replies h k =
      let same : seen (resolve_approval services e x false false).0.app owner
          ≡ some (none, replies) =
        elim (reject_other e x owner) [
          | inl (a, s) ↦
              absurd (none_some a.approval (sym (ap waiting_in h) ∙ own_approval e x owner a s))
          | inr u ↦ u ∙ h
        ] in
      at_rest_stays ids (resolve_approval services e x false false).0 id owner replies same
        (reject-lookup-none e x id k)

  -- What is true while an approval waits for its answer.
  unfoldable pub Waits :
      Engine V F → String → PendingRecord → PendingApproval V → List (ℕ × Bool) → Type 0
  Waits e id found approval replies =
      (lookup id e.pending ≡ some found)
      × ((seen e.app found.session_id ≡ some (some approval, replies))
          × (approval.approval_id ≡ some id))

  pub another-Waits :
      (e : Engine V F) (x id : String) (found : PendingRecord) (approval : PendingApproval V)
      (replies : List (ℕ × Bool))
      → str_eq x id ≡ false
      → Waits e id found approval replies
      → Waits (resolve_approval services e x false false).0 id found approval replies
  unfolding Waits
  another-Waits e x id found approval replies n (h, (w, s)) =
      let n' : str_eq id x ≡ false = str_eq-differs x id n in
      let same : seen (resolve_approval services e x false false).0.app found.session_id
          ≡ some (some approval, replies) =
        elim (reject_other e x found.session_id) [
          | inl (a, o) ↦
              (let own : approval ≡ a.approval =
                  some-inj approval a.approval
                    (sym (ap waiting_in w) ∙ own_approval e x found.session_id a o) in
                let k : str_eq id x ≡ true =
                  sym (ap (λ i. has_id x i) s) ∙ ap (λ p. has_id x p.approval_id) own ∙ a.same_id in
                absurd (true≢false (sym k ∙ n')))
          | inr u ↦ u ∙ w
        ] in
      (reject-lookup e x id n' ∙ h, (same, s))

  reject_all-answers :
      (ids : List String) (e : Engine V F) (id : String) (found : PendingRecord)
      (approval : PendingApproval V) (replies : List (ℕ × Bool))
      → any (λ x. str_eq x id) ids ≡ true
      → Waits e id found approval replies
      → (seen (reject_all services ids e).app found.session_id
          ≡ some (none, replies ++ answered approval.action false))
        × (lookup id (reject_all services ids e).pending ≡ none)
  unfolding reject_all Waits
  reject_all-answers [] e id found approval replies m w = absurd (ground arith)
  reject_all-answers (x ∷ ids) e id found approval replies m w = elim (Bool-cases (str_eq x id)) [
    | inl s ↦
        (let (ok, (sees, (gone, pushed))) =
            resolve_approval-answers services e id false false found approval replies w.0 w.1.0
              w.1.1 in
          rw (str_eq_sound x id s) (
            at_rest_stays ids (resolve_approval services e id false false).0 id found.session_id
              (replies ++ answered approval.action false) sees gone))
    | inr n ↦
        reject_all-answers ids (resolve_approval services e x false false).0 id found approval
          replies (sym (ap (λ b. b || any (λ y. str_eq y id) ids) n) ∙ m)
          (another-Waits e x id found approval replies n w)
  ]

  -- The first sweep at or after the deadline of an approval that its session waits on turns it down. Its sender gets the reply `false`, once, the session waits on no approval any more, and the record is gone, whatever else has expired by then.
  pub sweep_expired_approvals-answers :
      (e : Engine V F) (now : ℕ) (id : String) (found : PendingRecord)
      (approval : PendingApproval V) (replies : List (ℕ × Bool))
      → lookup id e.pending ≡ some found
      → found.deadline ≤ now
      → seen e.app found.session_id ≡ some (some approval, replies)
      → approval.approval_id ≡ some id
      → (let e' = sweep_expired_approvals services now e in
          (seen e'.app found.session_id ≡ some (none, replies ++ answered approval.action false))
          × (lookup id e'.pending ≡ none))
  unfolding sweep_expired_approvals Waits
  sweep_expired_approvals-answers e now id found approval replies h le w s =
      reject_all-answers (expired now e.pending) e id found approval replies
        (any-expired now id found e.pending h le) (h, (w, s))
