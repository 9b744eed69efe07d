-- ===== src/Collector/Tests.antt =====
-- Tests and examples for `StreamCollector` of agent.rs.
use h_agent_core.Base.{some, ◌≡◌, refl, ◌↔◌, arith, All}
use h_agent_core.Limits.{memory_default}
use h_agent_core.Samples.{Sample, sample_json}
use h_agent_core.Collector.{
  StreamCollector, ModelEvent, tool_call_delta, ok, new, with_memory_limits, on_event,
  finish_partials, append_text_bounded, floor_boundary, on_tool_call_delta, extend_partial,
  find_slot, put_slot,
}
use h_agent_core.Collector.Accounting.{on_event-IsBounded, new-IsBounded}
use h_agent_core.Collector.Invariant.{HasLimits, IsBounded}
use h_agent_core.Collector.Finish.{IsNamed, IsComplete, finish_partials_iff}

abbrev fresh : StreamCollector Sample
fresh = with_memory_limits (new (some 1000)) memory_default

abbrev a_delta : ModelEvent Sample
a_delta = tool_call_delta "0" (some "c1") (some "git") "{}"

fresh-HasLimits : HasLimits fresh
unfolding with_memory_limits
fresh-HasLimits = (omega arith, omega arith, omega arith)

-- The second character does not fit in three bytes.
cut_at_boundary : append_text_bounded "" "λλ" 3 ≡ "λ"
unfolding append_text_bounded floor_boundary
cut_at_boundary = refl

on_event-IsBounded_example : IsBounded (on_event fresh a_delta).0
on_event-IsBounded_example =
    on_event-IsBounded fresh a_delta fresh-HasLimits (new-IsBounded (some 1000) memory_default)

-- A call whose delta has come, and not yet its end.
abbrev streamed : StreamCollector Sample
streamed = (on_event fresh a_delta).0

streamed-IsBounded : IsBounded streamed
streamed-IsBounded =
    on_event-IsBounded fresh a_delta fresh-HasLimits (new-IsBounded (some 1000) memory_default)

streamed-IsNamed : All IsNamed streamed.completed_calls
unfolding with_memory_limits new on_event on_tool_call_delta extend_partial find_slot put_slot
streamed-IsNamed = tt

finish_partials_iff_example :
    ((finish_partials (λ n. "x") streamed "call").1 ≡ ok tt)
    ↔ All (IsComplete sample_json streamed.completed_ids) streamed.partials
finish_partials_iff_example = finish_partials_iff (λ n. "x") streamed "call"
