-- ===== src/Session/Tests.antt =====
-- Tests and examples for the sessions of session.rs.
use h_agent_core.Base.{
  trim, trim_start, trim_end_by, is_whitespace, ◌*◌, ◌≤◌, ◌≡◌, refl, false, [], ◌∷◌, none, some,
  arith, length, mib, lower_code,
}
use h_agent_core.Collector.{Usage}
use h_agent_core.Conversation.{assistant_tool_calls, tool_output}
use h_agent_core.Samples.{sample_json, sample_f64, git_status, streaming, sample_services}
use h_agent_core.Session.Model.{ToolDisplayStatus, AgentEvent}
use h_agent_core.Session.Entries.{
  tool_entry, display_entries, display_entry_bytes, finish_tool_at, tool_result_status,
}
use h_agent_core.Session.Thinking.{last_line, split_lines, strip_return}
use h_agent_core.Session.Events.{handle_event}
use h_agent_core.Session.Bounds.{IsBuffered, handle_event-IsBuffered}
use h_agent_core.Session.Settled.{waiting, waiting-handle_event}

a_blank_text : trim " \t λ \n" ≡ "λ"
unfolding trim trim_start trim_end_by is_whitespace
a_blank_text = refl

the_latest_line : last_line (split_lines "first\r\nsecond\r\n \n") ≡ some "second"
unfolding last_line split_lines strip_return trim trim_start trim_end_by is_whitespace
the_latest_line = refl

a_finished_tool :
    display_entries sample_services
      (assistant_tool_calls (git_status ∷ []) ∷ tool_output "c1" "Denied by policy: no" ∷ [])
    ≡ tool_entry "c1" "git" git_status.arguments ToolDisplayStatus.rejected
        (some "Denied by policy: no")
      ∷ []
unfolding display_entries finish_tool_at tool_result_status lower_code
a_finished_tool = refl

handle_event-IsBuffered_example :
    IsBuffered (handle_event sample_services streaming (AgentEvent.reasoning_delta "so")).0
    × (length (handle_event sample_services streaming (AgentEvent.reasoning_delta "so")).0.entries
        ≤ 1000)
    × (display_entry_bytes
          (handle_event sample_services streaming (AgentEvent.reasoning_delta "so")).0.entries
        ≤ 2 * mib)
handle_event-IsBuffered_example =
    handle_event-IsBuffered sample_services streaming (AgentEvent.reasoning_delta "so")
      (omega arith)

waiting-handle_event_example :
    waiting (handle_event sample_services streaming (AgentEvent.cancelled "stop")).0
    ≡ (false, false, none, (7, false) ∷ [])
waiting-handle_event_example =
    waiting-handle_event sample_services streaming (AgentEvent.cancelled "stop")

abbrev reported : Usage
reported = record { input_tokens = 50; output_tokens = 5; total_tokens = 55 }
