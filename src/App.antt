-- ===== src/App.antt =====
-- app/runtime.rs: the sessions that run in the background, and switching to another one. The
-- `HashMap` of parked runtimes is an association list in the order in which it happens to be
-- iterated, with no two entries of one id, so the entry that a search finds is the one that
-- `remove` of its id takes out. `Instant` is a number. The storage and the keys of the providers
-- enter as the runtime that `build_runtime` makes.
pub mod Capacity
pub mod Keeping
pub mod Switching
mod Tests
use h_agent_core.Base.{
  ℕ, zero, suc, String, Bool, true, false, not, ◌&&◌, List, [], ◌∷◌, Option, none, some, ltb, leb,
  if◌then◌else◌, length, str_eq, any,
}
use h_agent_core.Policy.{AgentMode, ToolRegistry, set_mode}
use h_agent_core.Session.Model.{SessionRuntime}
use h_agent_core.Session.Events.{idle}

-- A session with the fields that switching uses, beside those that its events touch.
pub record Runtime (V F : Type 0) : Type 0 where
  pub session : SessionRuntime V F
  pub mode : AgentMode
  pub has_runner : Bool
  pub parked_at : ℕ
  pub request_seq : ℕ

abbrev pub Background : Type 0 → Type 0 → Type 0
Background V F = List (String × Runtime V F)

-- The fields of the application that switching uses.
pub record App (V F : Type 0) : Type 0 where
  pub active_session : String
  pub current : Runtime V F
  pub background : Background V F
  pub registry : ToolRegistry
  pub input : String
  pub max_background_sessions : ℕ

module _ {V F : Type 0} where
  abbrev pub is_idle : String × Runtime V F → Bool
  is_idle e = idle (e.1).session

  -- The idle runtime that was parked first, `filter(idle).min_by_key(parked_at)`, and the others.
  unfoldable pub take_oldest_idle :
      Background V F → Option ((String × Runtime V F) × Background V F)
  take_oldest_idle [] = none
  take_oldest_idle (e ∷ es) =
      let alone : Option ((String × Runtime V F) × Background V F) =
        if is_idle e then some (e, es) else none in
      elim (take_oldest_idle es) [
        | none ↦ alone
        | some (oldest, rest) ↦
            if is_idle e && leb (e.1).parked_at (oldest.1).parked_at
            then some (e, es)
            else some (oldest, e ∷ rest)
      ]

  -- The `while` of `evict_background_overflow`. A round takes a runtime out, so there are no more
  -- rounds than runtimes. What is taken out is shut down, which stops nothing in an idle runtime.
  unfoldable pub evict_rounds : ℕ → ℕ → Background V F → Background V F
  evict_rounds zero capacity background = background
  evict_rounds (suc rounds) capacity background =
      let next : Background V F = elim (take_oldest_idle background) [
        | none ↦ background
        | some (oldest, rest) ↦ evict_rounds rounds capacity rest
      ] in
      if ltb capacity (length background) then next else background

  unfoldable pub evict_background_overflow : ℕ → Background V F → Background V F
  evict_background_overflow capacity background =
      evict_rounds (length background) capacity background

  abbrev pub contains_key : String → Background V F → Bool
  contains_key id background = any (λ e. str_eq (e.0) id) background

  -- `background.remove(&id).unwrap_or_else(build)`.
  unfoldable pub take_key : String → Runtime V F → Background V F → Runtime V F × Background V F
  take_key id built [] = (built, [])
  take_key id built (e ∷ es) =
      let (found, rest) = take_key id built es in
      if str_eq (e.0) id then (e.1, es) else (found, e ∷ rest)

  -- `background.insert(id, runtime)`.
  unfoldable pub put_key : String → Runtime V F → Background V F → Background V F
  put_key id runtime [] = (id, runtime) ∷ []
  put_key id runtime (e ∷ es) =
      let rest = put_key id runtime es in if str_eq (e.0) id then (id, runtime) ∷ es else e ∷ rest

  -- Room for a runtime that is not parked yet; `none` is the error that all of them are at work.
  unfoldable pub make_room : ℕ → String → Background V F → Option (Background V F)
  make_room capacity id background =
      let unloaded : Option (Background V F) = elim (take_oldest_idle background) [
        | none ↦ none
        | some (oldest, rest) ↦ some rest
      ] in
      if not (contains_key id background) && leb capacity (length background)
      then unloaded
      else some background

  abbrev with_status : Runtime V F → Runtime V F
  with_status r = record r {
    session = record r.session { status = if r.has_runner then "就绪" else "需要配置提供商" };
  }

  -- `built` is what `build_runtime` makes for the id, and `now` the time.
  unfoldable pub activate_session : App V F → Runtime V F → ℕ → String → Option (App V F)
  activate_session app built now id =
      let switched : Option (App V F) =
        elim (make_room app.max_background_sessions id app.background) [
          | none ↦ none
          | some room ↦
              (let (target, rest) = take_key id built room in
                let parked =
                  put_key app.active_session (record app.current { parked_at = now }) rest in
                some (record app {
                  active_session = id;
                  current = with_status target;
                  background = evict_background_overflow app.max_background_sessions parked;
                  registry = set_mode app.registry target.mode;
                  input = "";
                }))
        ] in
      if str_eq id app.active_session then some app else switched
