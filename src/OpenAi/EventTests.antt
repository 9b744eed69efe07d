-- ===== src/OpenAi/EventTests.antt =====
-- Tests and examples for the events of provider/openai.rs.
use h_agent_core.Base.{
  trim, trim_end_by, trim_start, is_whitespace, lower_code, ℕ, String, true, false, List, [], ◌∷◌,
  some, All, Result, ok, err, any, ◌≡◌, refl,
}
use h_agent_core.Collector.{ModelEvent, reasoning_delta, web_search_completed, provider_item, done}
use h_agent_core.Value.{Value, string, array, object, Numbers, of_list, obj}
use h_agent_core.OpenAi.Events.{
  append_native_search_events, search_started, search_result, append_url_citations, search_ended,
  safe_reasoning_text,
}
use h_agent_core.OpenAi.Responses.{
  response_part, item_done, response_completed, append_reasoning_summary, compatible_auto,
  parse_responses_event_for_mode,
}
use h_agent_core.OpenAi.Reasoning.{
  is_reasoning, is_search_completed, parse_responses_event_completed,
}
use h_agent_core.OpenAi.Replays.{seen_after, parse_responses_event_once}
use h_agent_core.OpenAi.SearchLimits.{IsShort, append_native_search_events-IsShort}

-- Numbers that are all whole.
instance abbrev whole_numbers : Numbers ℕ
whole_numbers = record {
  as_u64 = λ x. some x;
  as_i64_unsigned = λ x. some x;
  as_f64_whole = λ x. some x;
  of_u64 = λ x. x;
}

abbrev no_json : String → Result String (Value ℕ)
no_json s = err "not read"

abbrev thought : Value ℕ
thought =
    object (obj (("type", string "response.reasoning_text.delta") ∷ ("delta", string "so") ∷ []))

abbrev summary_part : Value ℕ
summary_part = object (obj (("text", string "so") ∷ []))

abbrev reasoning_item : Value ℕ
reasoning_item =
    object
      (obj (("type", string "reasoning") ∷ ("summary", array (of_list (summary_part ∷ []))) ∷ []))

abbrev item_event : Value ℕ
item_event =
    object (obj (("type", string "response.output_item.done") ∷ ("item", reasoning_item) ∷ []))

abbrev completed_event : Value ℕ
completed_event = object (obj (("type", string "response.completed") ∷ []))

reads_thought :
    parse_responses_event_for_mode no_json thought compatible_auto false
    ≡ (ok (reasoning_delta "so" ∷ []), true)
unfolding parse_responses_event_for_mode response_part append_native_search_events search_started
    search_result append_url_citations search_ended lower_code safe_reasoning_text trim trim_end_by
    trim_start is_whitespace
reads_thought = refl

item_after_thought :
    parse_responses_event_for_mode no_json item_event compatible_auto true
    ≡ (ok (provider_item reasoning_item ∷ []), true)
unfolding parse_responses_event_for_mode response_part append_native_search_events search_started
    search_result append_url_citations search_ended lower_code item_done
item_after_thought = refl

item_alone :
    parse_responses_event_for_mode no_json item_event compatible_auto false
    ≡ (ok (reasoning_delta "so" ∷ provider_item reasoning_item ∷ []), false)
unfolding parse_responses_event_for_mode response_part append_native_search_events search_started
    search_result append_url_citations search_ended lower_code item_done append_reasoning_summary
    safe_reasoning_text trim trim_end_by trim_start is_whitespace
item_alone = refl

end_of_response :
    parse_responses_event_for_mode no_json completed_event compatible_auto false
    ≡ (ok (web_search_completed 0 ∷ done ∷ []), false)
unfolding parse_responses_event_for_mode response_part append_native_search_events search_started
    search_result append_url_citations search_ended lower_code response_completed
end_of_response = refl

parse_responses_event_once_example : any is_reasoning (provider_item reasoning_item ∷ []) ≡ false
unfolding seen_after
parse_responses_event_once_example =
    parse_responses_event_once no_json compatible_auto false thought (reasoning_delta "so" ∷ [])
      true [] item_event (provider_item reasoning_item ∷ []) true refl reads_thought refl refl
      item_after_thought

parse_responses_event_completed_example :
    (events : List (ModelEvent (Value ℕ))) × (parse_responses_event_for_mode no_json completed_event
        compatible_auto false
      ≡ (ok events, false))
    × (any is_search_completed events ≡ true)
parse_responses_event_completed_example =
    parse_responses_event_completed no_json completed_event compatible_auto false refl

append_native_search_events-IsShort_example : All IsShort (append_native_search_events item_event)
append_native_search_events-IsShort_example = append_native_search_events-IsShort item_event
