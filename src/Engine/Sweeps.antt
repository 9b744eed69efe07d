-- ===== src/Engine/Sweeps.antt =====
-- service/engine.rs: several runs of `sweep_expired_approvals`, one after another.
use h_agent_core.Base.{
  ℕ, ◌<◌, String, Bool, true, false, not, ◌&&◌, ◌||◌, List, [], ◌∷◌, ◌++◌, Option, none, some,
  str_eq, any, all, filter, leb, ◌≡◌, refl, sym, ap, ◌∙◌, arith, Bool-cases, inl, inr, append-nil,
  All,
}
use h_agent_core.Protocol.{Json}
use h_agent_core.Conversation.{F64}
use h_agent_core.Session.Model.{Services, PendingApproval}
use h_agent_core.Engine.{Engine, Pending, PendingRecord, insert_key}
use h_agent_core.Engine.Routing.{map_option}
use h_agent_core.Engine.Approvals.{resolve_approval, reject_all, expired, sweep_expired_approvals}
use h_agent_core.Engine.Store.{str_eq_refl, str_eq_sound}
use h_agent_core.Engine.Replies.{answered, seen, waiting_in, answer_seen, answered-seen}
use h_agent_core.Engine.Resolve.{resolve-Answerable, resolve-cases}
use h_agent_core.Engine.Expiry.{none_some, Waits, another-Waits, reject_other, own_approval}
use h_agent_core.Engine.Stale.{IsStale, reject_all-IsStale}

-- Every record of the id has this deadline or a later one.
abbrev pub no_sooner : String → ℕ → Pending → Bool
no_sooner id deadline pending =
    all (λ p. not (str_eq (p.0) id) || leb deadline (p.1).deadline) pending

first_of_both : (a b : Bool) → (a && b) ≡ true → a ≡ true
first_of_both a b h = ground arith

second_of_both : (a b : Bool) → (a && b) ≡ true → b ≡ true
second_of_both a b h = ground arith

neither_first : (a b : Bool) → (a || b) ≡ false → a ≡ false
neither_first a b h = ground arith

neither_second : (a b : Bool) → (a || b) ≡ false → b ≡ false
neither_second a b h = ground arith

filter-all :
    {A : Type 0} (p q : A → Bool) (xs : List A) → all p xs ≡ true → all p (filter q xs) ≡ true
filter-all p q [] h = refl
filter-all p q (x ∷ xs) h = elim (Bool-cases (q x)) [
  | inl e ↦
      rw (e, first_of_both (p x) (all p xs) h)
        (filter-all p q xs (second_of_both (p x) (all p xs) h))
  | inr e ↦ rw e (filter-all p q xs (second_of_both (p x) (all p xs) h))
]

pub no_sooner-insert :
    (id : String) (found : PendingRecord) (pending : Pending)
    → no_sooner id found.deadline (insert_key id found pending) ≡ true
no_sooner-insert id found [] = rw (str_eq_refl id) (ground arith)
no_sooner-insert id found ((k, v) ∷ es) = elim (Bool-cases (str_eq k id)) [
  | inl e ↦ rw e (no_sooner-insert id found es)
  | inr e ↦ rw e (rw e (no_sooner-insert id found es))
]

not_sooner :
    (same : Bool) (deadline now found : ℕ)
    → (not same || leb deadline found) ≡ true
    → now < deadline
    → leb found now ≡ true
    → same ≡ false
not_sooner same deadline now found h lt l = ground arith

expired_early :
    (id : String) (deadline now : ℕ) (pending : Pending)
    → no_sooner id deadline pending ≡ true
    → now < deadline
    → any (λ x. str_eq x id) (expired now pending) ≡ false
expired_early id deadline now [] h lt = refl
expired_early id deadline now ((k, v) ∷ es) h lt = elim (Bool-cases (leb v.deadline now)) [
  | inl l ↦
      (let both = first_of_both _ _ h in
        let other : str_eq k id ≡ false =
          not_sooner (str_eq k id) deadline now v.deadline both lt l in
        rw (l, other) (expired_early id deadline now es (second_of_both _ _ h) lt))
  | inr l ↦ rw l (expired_early id deadline now es (second_of_both _ _ h) lt)
]

module _ {V F : Type 0} ⦃j : Json V⦄ ⦃f : F64 F⦄ (services : Services V F) where
  -- The sweeps at these moments, the first of the list first.
  unfoldable pub sweep_all : List ℕ → Engine V F → Engine V F
  sweep_all [] e = e
  sweep_all (now ∷ later) e = sweep_all later (sweep_expired_approvals services now e)

  reject-no_sooner :
      (e : Engine V F) (x id : String) (deadline : ℕ)
      → no_sooner id deadline e.pending ≡ true
      → no_sooner id deadline (resolve_approval services e x false false).0.pending ≡ true
  reject-no_sooner e x id deadline h = elim (resolve-cases services e x false false) [
    | inr (kind, (message, k)) ↦ rw k h
    | inl a ↦
        rw (resolve-Answerable services e x false false a)
          (filter-all (λ p. not (str_eq (p.0) id) || leb deadline (p.1).deadline) _ e.pending h)
  ]

  reject_all-Waits :
      (ids : List String) (e : Engine V F) (id : String) (found : PendingRecord)
      (approval : PendingApproval V) (replies : List (ℕ × Bool))
      → any (λ x. str_eq x id) ids ≡ false
      → Waits services e id found approval replies
      → no_sooner id found.deadline e.pending ≡ true
      → Waits services (reject_all services ids e) id found approval replies
        × (no_sooner id found.deadline (reject_all services ids e).pending ≡ true)
  unfolding reject_all
  reject_all-Waits [] e id found approval replies m w s = (w, s)
  reject_all-Waits (x ∷ ids) e id found approval replies m w s =
      reject_all-Waits ids (resolve_approval services e x false false).0 id found approval replies
        (neither_second (str_eq x id) _ m)
        (another-Waits services e x id found approval replies (neither_first (str_eq x id) _ m) w)
        (reject-no_sooner e x id found.deadline s)

  -- Sweeps before the deadline leave the approval as it is.
  pub sweep_all-Waits :
      (times : List ℕ) (e : Engine V F) (id : String) (found : PendingRecord)
      (approval : PendingApproval V) (replies : List (ℕ × Bool))
      → All (λ now. now < found.deadline) times
      → Waits services e id found approval replies
      → no_sooner id found.deadline e.pending ≡ true
      → Waits services (sweep_all times e) id found approval replies
  unfolding sweep_all sweep_expired_approvals
  sweep_all-Waits [] e id found approval replies early w s = w
  sweep_all-Waits (now ∷ times) e id found approval replies (lt, early) w s =
      let (w', s') =
        reject_all-Waits (expired now e.pending) e id found approval replies
          (expired_early id found.deadline now e.pending s lt) w s in
      sweep_all-Waits times (sweep_expired_approvals services now e) id found approval replies early
        w' s'

  pub sweep_all-IsStale :
      (times : List ℕ) (e : Engine V F) (id : String) (found : PendingRecord)
      → IsStale services e id found
      → IsStale services (sweep_all times e) id found
  unfolding sweep_all sweep_expired_approvals
  sweep_all-IsStale [] e id found h = h
  sweep_all-IsStale (now ∷ times) e id found h =
      sweep_all-IsStale times (sweep_expired_approvals services now e) id found
        (reject_all-IsStale services (expired now e.pending) e id found h)

  -- The session waits on a `!` command or on nothing, and these are the replies that it sent.
  abbrev pub IsSilent : Engine V F → String → List (ℕ × Bool) → Type 0
  IsSilent e owner replies =
      (waiting : Option (PendingApproval V)) × ((seen e.app owner ≡ some (waiting, replies))
        × ((approval : PendingApproval V)
            → waiting ≡ some approval
            → answered approval.action false ≡ []))

  reject-IsSilent :
      (e : Engine V F) (x owner : String) (replies : List (ℕ × Bool))
      → IsSilent e owner replies
      → IsSilent (resolve_approval services e x false false).0 owner replies
  reject-IsSilent e x owner replies (waiting, (sees, quiet)) =
      elim (reject_other services e x owner) [
        | inr same ↦ (waiting, (same ∙ sees, quiet))
        | inl (a, s) ↦
            (let own : waiting ≡ some a.approval =
                sym (ap waiting_in sees) ∙ own_approval services e x owner a s in
              let at_owner : seen e.app a.found.session_id ≡ some (waiting, replies) =
                rw (str_eq_sound owner a.found.session_id s) at sees in
              (
                none,
                (
                  rw (resolve-Answerable services e x false false a) (
                      rw (str_eq_sound owner a.found.session_id s) (
                        answered-seen e.app a.found.session_id a.approval false false
                        ∙ ap (map_option (answer_seen a.approval.action false)) at_owner
                        ∙ ap (λ more. some (none, replies ++ more)) (quiet a.approval own)
                        ∙ ap (λ l. some (none, l)) (append-nil replies))),
                  λ approval h. absurd (none_some approval h),
                ),
              ))
      ]

  reject_all-IsSilent :
      (ids : List String) (e : Engine V F) (owner : String) (replies : List (ℕ × Bool))
      → IsSilent e owner replies
      → IsSilent (reject_all services ids e) owner replies
  unfolding reject_all
  reject_all-IsSilent [] e owner replies h = h
  reject_all-IsSilent (x ∷ ids) e owner replies h =
      reject_all-IsSilent ids (resolve_approval services e x false false).0 owner replies
        (reject-IsSilent e x owner replies h)

  pub sweep_all-IsSilent :
      (times : List ℕ) (e : Engine V F) (owner : String) (replies : List (ℕ × Bool))
      → IsSilent e owner replies
      → IsSilent (sweep_all times e) owner replies
  unfolding sweep_all sweep_expired_approvals
  sweep_all-IsSilent [] e owner replies h = h
  sweep_all-IsSilent (now ∷ times) e owner replies h =
      sweep_all-IsSilent times (sweep_expired_approvals services now e) owner replies
        (reject_all-IsSilent (expired now e.pending) e owner replies h)
