-- ===== src/Protocol.antt =====
-- protocol.rs: the events of the UI wire protocol and their envelopes. `ToolCall` is that of
-- provider/mod.rs and `TodoTask` that of model.rs. A JSON value (`serde_json::Value`) is a
-- parameter `V`, and what the program needs of it the record `Json V`.
use h_agent_core.Base.{ℕ, String, Bool, List, Option, none, some, clamp}

-- The operations of `serde_json::Value` that the program calls. `to_string` is the printed value,
-- `get` the field of an object, and `parse` is `serde_json::from_str`.
pub record Json (V : Type 0) : Type 0 where
  pub to_string : V → String
  pub get : V → String → Option V
  pub as_array : V → Option (List V)
  pub as_str : V → Option String
  pub parse : String → Option V

pub data TodoStatus : Type 0 where
  pending in_progress done : TodoStatus

pub record TodoTask : Type 0 where
  pub id : String
  pub title : String
  pub status : TodoStatus
  pub created_at : String
  pub updated_at : String

pub record ToolCall (V : Type 0) : Type 0 where
  pub id : String
  pub name : String
  pub arguments : V

pub record ContextBudgetDto : Type 0 where
  pub context_window_tokens : Option ℕ
  pub used_tokens : ℕ
  pub output_reserve_tokens : ℕ
  pub safe_input_tokens : Option ℕ
  pub window_source : String
  pub estimated : Bool

pub data Event (V : Type 0) : Type 0 where
  reasoning_delta : (delta : String) → Event V
  reasoning_completed : Event V
  provider_retry : (attempt : ℕ) (reason : String) (delay_ms : ℕ) → Event V
  model_streaming : Event V
  web_search_started : (query : String) → Event V
  web_search_result : (title url snippet : String) → Event V
  web_search_completed : (count : ℕ) → Event V
  cancelled : (reason : String) → Event V
  text_delta : (delta : String) → Event V
  tool_call_streaming : (name : Option String) (received_bytes : ℕ) → Event V
  approval :
      (approval_id : String) (call : ToolCall V) (reason : String)
      (source_session_id source_title : Option String)
      → Event V
  approval_resolved : (approval_id : String) (approved : Bool) → Event V
  tool_started : (call : ToolCall V) → Event V
  tool_finished : (call : ToolCall V) (result : String) → Event V
  usage : (input_tokens output_tokens total_tokens : ℕ) → Event V
  completed : Event V
  failed : (error : String) → Event V
  sessions_changed : Event V
  child_session_progress :
      (child_session_id status : String) (phase : Option String) (turn max_turns : ℕ)
      (tool : Option String)
      → Event V
  local_command_finished : (command result : String) → Event V
  compaction_started : Event V
  compaction_completed : (hidden : ℕ) → Event V
  compaction_failed : (error : String) → Event V
  todo_updated : (tasks : List TodoTask) → Event V
  transcript_invalidated : Event V
  context_updated : (budget : ContextBudgetDto) → Event V
  resync_required : Event V

pub record Envelope (V : Type 0) : Type 0 where
  pub cursor : ℕ
  pub session_id : String
  pub event : Event V

abbrev pub default_page_size : ℕ
default_page_size = 100

abbrev pub min_page_size : ℕ
min_page_size = 20

abbrev pub max_page_size : ℕ
max_page_size = 200

abbrev unwrap_or : Option ℕ → ℕ → ℕ
unwrap_or none d = d
unwrap_or (some n) d = n

unfoldable pub clamp_page_size : Option ℕ → ℕ
clamp_page_size requested =
    clamp (unwrap_or requested default_page_size) min_page_size max_page_size
