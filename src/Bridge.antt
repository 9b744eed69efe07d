-- ===== src/Bridge.antt =====
-- bridge.rs: the bounded replay ring of UI events. A `VecDeque` is a list with its front at the
-- head. The `RwLock` makes each section over the ring one step, so an operation is a function of
-- the state. The channels of tokio are read through what was put into them: `sent` is the list of
-- all envelopes that `tx.send` was given, and `changed` the value that `send_replace` stored last.
-- A broadcast receiver is its position, the number of envelopes that were sent before the next one
-- that it is to receive. `live` is all that it finds in the channel then, and `none` stands for
-- `RecvError::Lagged`: more envelopes wait for it than the channel holds.
pub mod Eviction
pub mod History
pub mod Replay
pub mod Stream
pub mod Delivery
mod Tests
use h_agent_core.Base.{
  ℕ, ◌+◌, ◌-◌, ◌*◌, ◌/◌, max, String, ◌&&◌, ◌||◌, List, [], ◌∷◌, ◌++◌, Option, none, some, ltb, leb,
  if◌then◌else◌, length, take, drop, filter, clamp, mib, u64_add, saturating_add, byte_len,
  opt_byte_len,
}
use h_agent_core.Protocol.{
  Json, TodoTask, ToolCall, Event, reasoning_delta, reasoning_completed, provider_retry,
  model_streaming, web_search_started, web_search_result, web_search_completed, cancelled,
  text_delta, tool_call_streaming, approval, approval_resolved, tool_started, tool_finished, usage,
  completed, failed, sessions_changed, child_session_progress, local_command_finished,
  compaction_started, compaction_completed, compaction_failed, todo_updated, transcript_invalidated,
  context_updated, resync_required, Envelope,
}

-- The argument of `broadcast::channel`.
abbrev pub channel_capacity : ℕ
channel_capacity = 256

abbrev pub min_max_events : ℕ
min_max_events = 16

abbrev pub max_max_events : ℕ
max_max_events = 4096

abbrev pub min_max_bytes : ℕ
min_max_bytes = mib

abbrev pub max_max_bytes : ℕ
max_max_bytes = 16 * mib

pub data ReplayResult (V : Type 0) : Type 0 where
  replay : List (Envelope V) → ReplayResult V
  resync : ReplayResult V

pub record Ring (V : Type 0) : Type 0 where
  pub events : List (Envelope V)
  pub bytes : ℕ
  pub last_cursor : ℕ

pub record EventBridge (V : Type 0) : Type 0 where
  pub sent : List (Envelope V)
  pub capacity : ℕ
  pub changed : ℕ
  pub ring : Ring V
  pub max_events : ℕ
  pub max_bytes : ℕ

abbrev task_bytes : TodoTask → ℕ
task_bytes t = byte_len t.id + byte_len t.title + byte_len t.created_at + byte_len t.updated_at

abbrev tasks_bytes : List TodoTask → ℕ
tasks_bytes [] = 0
tasks_bytes (t ∷ ts) = task_bytes t + tasks_bytes ts

module _ {V : Type 0} where
  unfoldable pub ring_new : Ring V
  ring_new = record { events = []; bytes = 0; last_cursor = 0 }

  unfoldable pub new : ℕ → ℕ → EventBridge V
  unfolding ring_new
  new max_events max_bytes = record {
    sent = [];
    capacity = channel_capacity;
    changed = 0;
    ring = ring_new;
    max_events = clamp max_events min_max_events max_max_events;
    max_bytes = clamp max_bytes min_max_bytes max_max_bytes;
  }

  unfoldable pub current_cursor : EventBridge V → ℕ
  current_cursor b = b.ring.last_cursor

  -- `filter(|envelope| envelope.cursor > after)`.
  abbrev pub newer : ℕ → List (Envelope V) → List (Envelope V)
  newer after es = filter (λ e. ltb after e.cursor) es

  -- The refusal that all four readers share, `none` for a resync. `select` is applied to the
  -- retained events where the cursor is still covered.
  replay_events : ℕ → ℕ → List (Envelope V) → ReplayResult V
  replay_events last after [] = if ltb after last then resync else replay []
  replay_events last after (oldest ∷ es) =
      if ltb (saturating_add after 1) oldest.cursor
      then resync
      else replay (newer after (oldest ∷ es))

  unfoldable pub replay_after : EventBridge V → ℕ → ReplayResult V
  unfolding replay_events
  replay_after b after = replay_events b.ring.last_cursor after b.ring.events

  -- `tx.subscribe()`: the position of the new receiver.
  unfoldable pub subscribe : EventBridge V → ℕ
  subscribe b = length b.sent

  -- What waits for a receiver at a position: `try_recv` until the channel is empty.
  unfoldable pub live : EventBridge V → ℕ → Option (List (Envelope V))
  live b position =
      if ltb b.capacity (length b.sent - position) then none else some (drop position b.sent)

  -- The part of `subscribe_from` and of `subscribe_cursor_from` under the ring's read lock;
  -- `none` is `Err(ResyncRequired)`.
  boundary_events : ℕ → ℕ → List (Envelope V) → Option (List (Envelope V))
  boundary_events last after [] = if ltb after last then none else some []
  boundary_events last after (oldest ∷ es) =
      if ltb (saturating_add after 1) oldest.cursor
      then none
      else some (filter (λ e. ltb after e.cursor && ltb e.cursor (u64_add last 1)) (oldest ∷ es))

  unfoldable pub boundary_snapshot : EventBridge V → ℕ → Option (List (Envelope V))
  unfolding boundary_events
  boundary_snapshot b after = boundary_events b.ring.last_cursor after b.ring.events

  batch_events : ℕ → ℕ → ℕ → List (Envelope V) → Option (List (Envelope V))
  batch_events last after limit [] = if leb last after then some [] else none
  batch_events last after limit (oldest ∷ es) =
      if ltb (saturating_add after 1) oldest.cursor
      then none
      else some (take (max limit 1) (newer after (oldest ∷ es)))

  unfoldable pub events_after : EventBridge V → ℕ → ℕ → Option (List (Envelope V))
  unfolding batch_events
  events_after b after limit = batch_events b.ring.last_cursor after limit b.ring.events

module _ {V : Type 0} ⦃j : Json V⦄ where
  unfoldable pub tool_call_bytes : ToolCall V → ℕ
  tool_call_bytes call =
      byte_len call.id + byte_len call.name + byte_len (j.to_string call.arguments) + 32

  unfoldable pub event_payload_bytes : Event V → ℕ
  unfolding tool_call_bytes
  event_payload_bytes (reasoning_delta delta) = byte_len delta
  event_payload_bytes reasoning_completed = 0
  event_payload_bytes (provider_retry attempt reason delay_ms) =
      byte_len reason + 16 + delay_ms / 16
  event_payload_bytes model_streaming = 0
  event_payload_bytes (web_search_started query) = byte_len query
  event_payload_bytes (web_search_result title url snippet) =
      byte_len title + byte_len url + byte_len snippet
  event_payload_bytes (web_search_completed count) = 8
  event_payload_bytes (cancelled reason) = byte_len reason
  event_payload_bytes (text_delta delta) = byte_len delta
  event_payload_bytes (tool_call_streaming name received) = opt_byte_len name + 16
  event_payload_bytes (approval id call reason source title) =
      tool_call_bytes call + byte_len reason + opt_byte_len source + opt_byte_len title
  event_payload_bytes (approval_resolved id approved) = 24
  event_payload_bytes (tool_started call) = tool_call_bytes call
  event_payload_bytes (tool_finished call result) = tool_call_bytes call + byte_len result
  event_payload_bytes (usage i o t) = 24
  event_payload_bytes completed = 0
  event_payload_bytes (failed error) = byte_len error
  event_payload_bytes sessions_changed = 0
  event_payload_bytes (child_session_progress child status phase turn turns tool) =
      byte_len child + byte_len status + opt_byte_len tool
  event_payload_bytes (local_command_finished command result) = byte_len command + byte_len result
  event_payload_bytes compaction_started = 0
  event_payload_bytes (compaction_completed hidden) = 8
  event_payload_bytes (compaction_failed error) = byte_len error
  event_payload_bytes (todo_updated tasks) = tasks_bytes tasks
  event_payload_bytes transcript_invalidated = 0
  event_payload_bytes (context_updated budget) = 48
  event_payload_bytes resync_required = 0

  unfoldable pub envelope_bytes : Envelope V → ℕ
  envelope_bytes e = byte_len e.session_id + 16 + event_payload_bytes e.event

  -- The `while` of `push`, over the retained events and their byte count.
  unfoldable pub evict : ℕ → ℕ → List (Envelope V) → ℕ → List (Envelope V) × ℕ
  evict max_events max_bytes [] bytes = ([], bytes)
  evict max_events max_bytes (oldest ∷ es) bytes =
      let rest = evict max_events max_bytes es (bytes - envelope_bytes oldest) in
      if ltb max_events (length (oldest ∷ es)) || ltb max_bytes bytes
      then rest
      else (oldest ∷ es, bytes)

  -- The section of `push` under the ring's write lock.
  unfoldable pub register : EventBridge V → String → Event V → EventBridge V × Envelope V
  register b session_id event =
      let cursor = u64_add b.ring.last_cursor 1 in
      let envelope : Envelope V = record {
        cursor = cursor;
        session_id = session_id;
        event = event;
      } in
      let (events, bytes) =
        evict b.max_events b.max_bytes (b.ring.events ++ envelope ∷ [])
          (saturating_add b.ring.bytes (envelope_bytes envelope)) in
      (
        record b { ring = record { events = events; bytes = bytes; last_cursor = cursor } },
        envelope,
      )

  -- The end of `push`, after the lock is released: `tx.send` and `changed.send_replace`.
  unfoldable pub publish : EventBridge V → Envelope V → EventBridge V
  publish b envelope = record b { sent = b.sent ++ envelope ∷ []; changed = envelope.cursor }

  unfoldable pub push : EventBridge V → String → Event V → EventBridge V × Envelope V
  push b session_id event =
      let (b', envelope) = register b session_id event in (publish b' envelope, envelope)
