-- ===== src/Engine.antt =====
-- service/engine.rs: the engine, which owns the application and the bridge and answers approvals.
-- The `HashMap` of pending approvals is an association list in the order in which it happens to be
-- iterated. What a step reads from outside is a `Moment`: the id that `Uuid::new_v4` makes, the
-- clock, and whether the storage could list the sessions again. A reply channel whose sender is
-- dropped is one that is never answered in `replies`.
pub mod Routing
pub mod Approvals
pub mod Store
pub mod Replies
pub mod Resolve
pub mod Expiry
pub mod Stale
pub mod Sweeps
pub mod Asking
pub mod Cancel
pub mod Shell
mod Tests
use h_agent_core.ModelMeta.{ResolvedMeta}
use h_agent_core.Base.{
  ℕ, ◌+◌, ◌-◌, max, String, Bool, true, false, not, List, [], ◌∷◌, ◌++◌, Option, none, some,
  if◌then◌else◌, any, filter, str_eq, lookup, map,
}
use h_agent_core.Protocol.{ToolCall, Event, ContextBudgetDto}
use h_agent_core.Bridge.{EventBridge}
use h_agent_core.Conversation.{F64, estimate_used_tokens}
use h_agent_core.Session.Children.{ChildSessionProgress}
use h_agent_core.Session.Model.{SessionRuntime, PendingApproval}
use h_agent_core.App.{App, Runtime, Background}

pub data ApiErrorKind : Type 0 where
  bad_request not_found unauthorized conflict internal resync_required : ApiErrorKind

pub record ApiError : Type 0 where
  pub kind : ApiErrorKind
  pub message : String

pub record PendingRecord : Type 0 where
  pub session_id : String
  pub deadline : ℕ

abbrev pub Pending : Type 0
Pending = List (String × PendingRecord)

-- `Engine`, with the fields of `App` that only child sessions and budgets use; `resolved` is what
-- `model_meta::resolve` gives for the configured provider.
pub record Engine (V F : Type 0) : Type 0 where
  pub app : App V F
  pub child_batches : List (String × List String)
  pub child_status : List (String × ChildSessionProgress)
  pub resolved : ResolvedMeta
  pub should_quit : Bool
  pub bridge : EventBridge V
  pub pending : Pending
  pub approval_timeout : ℕ

pub record Moment : Type 0 where
  pub uuid : String
  pub now : ℕ
  pub refreshed : Bool

-- `HashMap::remove` and `HashMap::insert`.
abbrev pub remove_key {ℓ} : {A : Type ℓ} → String → List (String × A) → List (String × A)
remove_key key entries = filter (λ e. not (str_eq (e.0) key)) entries

abbrev pub insert_key {ℓ} : {A : Type ℓ} → String → A → List (String × A) → List (String × A)
insert_key key value entries = remove_key key entries ++ (key, value) ∷ []

-- The value at the first entry of the key, changed in place.
unfoldable pub update_key {ℓ} :
    {A : Type ℓ} → String → (A → A) → List (String × A) → List (String × A)
update_key key change [] = []
update_key key change (e ∷ es) =
    let rest = update_key key change es in
    if str_eq (e.0) key then (e.0, change (e.1)) ∷ es else e ∷ rest

abbrev pub has_id : String → Option String → Bool
has_id approval_id none = false
has_id approval_id (some id) = str_eq id approval_id

-- `is_some_and(|approval| approval.approval_id.as_deref() == Some(approval_id))`.
abbrev pub waits_on : {V : Type 0} → String → Option (PendingApproval V) → Bool
waits_on approval_id none = false
waits_on approval_id (some approval) = has_id approval_id approval.approval_id

module _ {V F : Type 0} where
  unfoldable pub runtime : App V F → String → Option (Runtime V F)
  runtime app session_id =
      if str_eq session_id app.active_session
      then some app.current
      else lookup session_id app.background

  -- A change through `runtime_mut`; it does nothing where there is no runtime.
  unfoldable pub runtime_mut : App V F → String → (Runtime V F → Runtime V F) → App V F
  runtime_mut app session_id change =
      if str_eq session_id app.active_session
      then record app { current = change app.current }
      else record app { background = update_key session_id change app.background }

  abbrev pub on_session : (SessionRuntime V F → SessionRuntime V F) → Runtime V F → Runtime V F
  on_session change r = record r { session = change r.session }

  abbrev pub waiting_approval : Option (Runtime V F) → Option (PendingApproval V)
  waiting_approval none = none
  waiting_approval (some r) = r.session.pending_approval

  -- `App::take_pending_approval`.
  unfoldable pub take_pending_approval :
      App V F → String → String → Option (PendingApproval V × App V F)
  unfolding runtime runtime_mut
  take_pending_approval app owner approval_id =
      let taken = runtime_mut app owner (on_session (λ s. record s { pending_approval = none })) in
      elim (waiting_approval (runtime app owner)) [
        | none ↦ none
        | some approval ↦
            if has_id approval_id approval.approval_id then some (approval, taken) else none
      ]
