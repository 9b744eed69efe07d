-- ===== src/Samples.antt =====
-- Test data that the tests of the components share: a small type of JSON values with the
-- operations of `Json`, whole numbers for `f64` and `f32`, three tool calls, and
-- a session at work.
use h_agent_core.Base.{
  true, false, ℕ, ◌*◌, String, List, [], ◌∷◌, Option, none, some, map, if◌then◌else◌, str_eq, clamp,
}
use h_agent_core.Protocol.{Json, ToolCall}
use h_agent_core.Limits.{F32}
use h_agent_core.Conversation.{F64, message, user}
use h_agent_core.Session.Model.{
  DisplayKind, AgentPhase, ModelPhase, ThinkingResult, ApprovalAction, SessionRuntime, Services,
}
use h_agent_core.Session.Entries.{markdown_entry}

pub data Sample : Type 0 where
  null : Sample
  text : String → Sample
  array : List String → Sample
  call : (program : String) (args : List String) → Sample

abbrev sample_get : Sample → String → Option Sample
sample_get (call program args) key =
    if str_eq key "args"
    then some (array args)
    else if str_eq key "program"
    then some (text program)
    else none
sample_get _ key = none

abbrev sample_to_string : Sample → String
sample_to_string null = "{}"
sample_to_string (text s) = s
sample_to_string (array _) = "[..]"
sample_to_string (call program _) = program

abbrev sample_as_array : Sample → Option (List Sample)
sample_as_array (array items) = some (map text items)
sample_as_array _ = none

abbrev sample_as_str : Sample → Option String
sample_as_str (text s) = some s
sample_as_str _ = none

instance abbrev pub sample_json : Json Sample
sample_json = record {
  to_string = sample_to_string;
  get = sample_get;
  as_array = sample_as_array;
  as_str = sample_as_str;
  parse = λ s. if str_eq s "{}" then some null else none;
}

-- A number of hundredths.
instance abbrev pub sample_f32 : F32 ℕ
sample_f32 = record { hundredths = λ n. n; clamp = clamp }

-- A whole factor.
instance abbrev pub sample_f64 : F64 ℕ
sample_f64 = record { scale = λ tokens factor. tokens * factor }

abbrev pub git_status : ToolCall Sample
git_status = record { id = "c1"; name = "git"; arguments = call "" ("status" ∷ []) }

abbrev pub git_push : ToolCall Sample
git_push = record { id = "c2"; name = "git"; arguments = call "" ("push" ∷ []) }

abbrev pub write_file : ToolCall Sample
write_file = record { id = "c3"; name = "file_write"; arguments = text "a" }

-- A session whose answer is cut off while an approval waits.
abbrev pub streaming : SessionRuntime Sample ℕ
streaming = record {
  session_id = "s1";
  status = "";
  entries = markdown_entry DisplayKind.assistant "half an answer" ∷ [];
  todos = [];
  busy = true;
  agent_phase = AgentPhase.waiting_approval;
  model_phase = ModelPhase.idle;
  thinking_last_line = "";
  thinking_active = false;
  thinking_buffer = "";
  thinking_buffer_truncated = false;
  thinking_buffer_epoch = 0;
  thinking_result = ThinkingResult.completed;
  usage = record { input_tokens = 0; output_tokens = 0; total_tokens = 0 };
  context_used_tokens = 0;
  context_limit_tokens = none;
  token_calibration = 1;
  usage_anchor = none;
  pending_approval = some (record {
    approval_id = none;
    call = git_status;
    reason = "why";
    source_session_id = none;
    source_title = none;
    action = ApprovalAction.agent 7;
  });
  conversation = message user "hi" ∷ [];
  active_task = true;
  replies = [];
}

-- No cluster is said to begin anywhere, so a text that is too long loses all.
abbrev pub sample_services : Services Sample ℕ
sample_services = record {
  uuid = λ n. "id";
  grapheme_offsets = λ s. [];
  redact = λ s. s;
  redact_cached = λ s. s;
  tool_display_name = λ s. s;
  format_bytes = λ n. "some bytes";
  object = λ key value. text value;
  null = null;
  calibrate = λ real estimate. 1;
  append_context = λ session label content. none;
}
