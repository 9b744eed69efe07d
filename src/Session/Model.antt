-- ===== src/Session/Model.antt =====
-- The data of a session: the display types of model.rs, `AgentEvent` of agent/events.rs and
-- `SessionRuntime` of session.rs. A reply channel is a number, and `replies` is the log of what
-- was sent on them.
use h_agent_core.Base.{ℕ, String, Bool, List, Option}
use h_agent_core.Protocol.{ToolCall, TodoTask}
use h_agent_core.Conversation.{ConversationItem, UsageAnchor}
use h_agent_core.Collector.{Usage}
use h_agent_core.Session.Children.{ChildSessionProgress}

pub data DisplayKind : Type 0 where
  user assistant assistant_partial thinking tool error system : DisplayKind

pub data AgentPhase : Type 0 where
  idle thinking streaming_text streaming_tool_call waiting_approval tool_running completed failed :
      AgentPhase

pub data ModelPhase : Type 0 where
  idle streaming completed failed : ModelPhase

pub data ToolDisplayStatus : Type 0 where
  running completed failed rejected : ToolDisplayStatus

pub data ThinkingResult : Type 0 where
  completed failed cancelled : ThinkingResult

pub record ToolDisplay (V : Type 0) : Type 0 where
  pub call_id : String
  pub name : String
  pub arguments : V
  pub status : ToolDisplayStatus
  pub result : Option String

pub record ThinkingDisplay : Type 0 where
  pub id : String
  pub content : String

pub data DisplayContent (V : Type 0) : Type 0 where
  markdown diff : String → DisplayContent V
  tool : ToolDisplay V → DisplayContent V
  thinking : ThinkingDisplay → DisplayContent V

pub record DisplayEntry (V : Type 0) : Type 0 where
  pub kind : DisplayKind
  pub content : DisplayContent V

pub data ApprovalAction : Type 0 where
  agent : (reply : ℕ) → ApprovalAction
  shell : String → ApprovalAction

pub record PendingApproval (V : Type 0) : Type 0 where
  pub approval_id : Option String
  pub call : ToolCall V
  pub reason : String
  pub source_session_id : Option String
  pub source_title : Option String
  pub action : ApprovalAction

pub data AgentEvent (V : Type 0) : Type 0 where
  reasoning_delta : (delta : String) → AgentEvent V
  reasoning_completed : AgentEvent V
  provider_retry : (attempt : ℕ) (reason : String) (delay_ms : ℕ) → AgentEvent V
  model_streaming : AgentEvent V
  web_search_started : (query : String) → AgentEvent V
  web_search_result : (title url snippet : String) → AgentEvent V
  web_search_completed : (count : ℕ) → AgentEvent V
  cancelled : (reason : String) → AgentEvent V
  text_delta : (delta : String) → AgentEvent V
  tool_call_streaming : (name : Option String) (received_bytes : ℕ) → AgentEvent V
  approval :
      (call : ToolCall V) (reason : String) (source_session_id source_title : Option String)
      (reply : ℕ)
      → AgentEvent V
  tool_started : (call : ToolCall V) → AgentEvent V
  tool_finished : (call : ToolCall V) (result : String) → AgentEvent V
  usage : (usage : Usage) (input_estimate : ℕ) → AgentEvent V
  completed : (items : List (ConversationItem V)) → AgentEvent V
  failed : (error : String) → AgentEvent V
  sessions_changed : AgentEvent V
  child_session_progress : (session_id : String) (progress : ChildSessionProgress) → AgentEvent V
  local_command_finished : (command result : String) → AgentEvent V
  compaction_started : AgentEvent V
  compaction_completed : (hidden : ℕ) → AgentEvent V
  compaction_failed : (error : String) → AgentEvent V
  todo_updated : (tasks : List TodoTask) → AgentEvent V

pub record SessionRuntime (V F : Type 0) : Type 0 where
  pub session_id : String
  pub status : String
  pub entries : List (DisplayEntry V)
  pub todos : List TodoTask
  pub busy : Bool
  pub agent_phase : AgentPhase
  pub model_phase : ModelPhase
  pub thinking_last_line : String
  pub thinking_active : Bool
  pub thinking_buffer : String
  pub thinking_buffer_truncated : Bool
  pub thinking_buffer_epoch : ℕ
  pub thinking_result : ThinkingResult
  pub usage : Usage
  pub context_used_tokens : ℕ
  pub context_limit_tokens : Option ℕ
  pub token_calibration : F
  pub usage_anchor : Option UsageAnchor
  pub pending_approval : Option (PendingApproval V)
  pub conversation : List (ConversationItem V)
  pub active_task : Bool
  pub replies : List (ℕ × Bool)

-- What an event needs of other crates and of the parts that are not modelled: the identifiers of
-- `Uuid::new_v4` that one event takes, the offsets of the grapheme clusters of a text
-- (unicode-segmentation), the redaction of secrets.rs, the two texts that a status line shows,
-- `serde_json::json!({key: value})` and `Value::Null`, the calibration
-- `(real as f64 / estimate as f64).clamp(0.5, 2.0)`, and the saving of a context in the storage,
-- which gives the text of its error.
pub record Services (V F : Type 0) : Type 0 where
  pub uuid : ℕ → String
  pub grapheme_offsets : String → List ℕ
  pub redact : String → String
  pub redact_cached : String → String
  pub tool_display_name : String → String
  pub format_bytes : ℕ → String
  pub object : String → String → V
  pub null : V
  pub calibrate : ℕ → ℕ → F
  pub append_context : String → String → String → Option String
