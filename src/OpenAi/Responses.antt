-- ===== src/OpenAi/Responses.antt =====
-- provider/openai.rs: how a JSON event of a responses stream is read.
-- `parse` is `serde_json::from_str`.
use h_agent_core.Base.{
  String, Bool, true, false, List, [], ◌∷◌, ◌++◌, none, some, Result, ok, err, if◌then◌else◌, ◌>>=◌,
  str_eq, one_of, print_ℕ, ◌+s◌,
}
use h_agent_core.Provider.{ProviderError, protocol}
use h_agent_core.Collector.{
  ModelEvent, reasoning_delta, text_delta, provider_item, tool_call_delta, tool_call_complete,
  response_id, usage, done,
}
use h_agent_core.Value.{Value, null, Numbers, get, as_str, as_u64, get_str, get_list}
use h_agent_core.OpenAi.Events.{
  text_or, or_else, when_some, concat_map, safe_reasoning_text, filtered, not_empty, or_null,
  pointer, parse_usage, append_native_search_events,
}

-- provider/mod.rs
pub data ThinkingMode : Type 0 where
  open_ai_responses_summary deep_seek_responses qwen_responses deep_seek_chat qwen_chat :
      ThinkingMode
  volcano_chat compatible_auto disabled : ThinkingMode

abbrev pub takes_summary : ThinkingMode → Bool
takes_summary open_ai_responses_summary = true
takes_summary compatible_auto = true
takes_summary _ = false

abbrev pub takes_reasoning : ThinkingMode → Bool
takes_reasoning deep_seek_responses = true
takes_reasoning qwen_responses = true
takes_reasoning compatible_auto = true
takes_reasoning _ = false

-- The events that are read, and whether a reasoning delta was seen in the stream by now.
abbrev pub Read : Type 0 → Type 0
Read N = Result ProviderError (List (ModelEvent (Value N))) × Bool

module _ {N : Type 0} ⦃n : Numbers N⦄ where
  unfoldable pub response_slot : Value N → Value N → String
  response_slot event item = elim (get event "output_index" >>= as_u64) [
    | some index ↦ print_ℕ index
    | none ↦ text_or "0" (get_str item "id")
  ]

  unfoldable pub append_reasoning_summary : Value N → List (ModelEvent (Value N))
  append_reasoning_summary item =
      concat_map
        (λ summary.
          when_some (filtered safe_reasoning_text (get_str summary "text"))
            (λ text. reasoning_delta text ∷ []))
        (get_list item "summary")

  abbrev pub reasoning_part : Bool → Value N → Bool → Read N
  reasoning_part takes value seen =
      elim (if takes then filtered safe_reasoning_text (get_str value "delta") else none) [
        | none ↦ (ok [], seen)
        | some delta ↦ (ok (reasoning_delta delta ∷ []), true)
      ]

  abbrev pub call_added : Value N → Value N → List (ModelEvent (Value N))
  call_added value item =
      if str_eq (text_or "" (get_str item "type")) "function_call"
      then tool_call_delta (response_slot value item) (get_str item "call_id") (get_str item "name")
          (text_or "" (get_str item "arguments"))
        ∷ []
      else []

  abbrev pub completed_call :
      Value N → Result String (Value N) → Result ProviderError (List (ModelEvent (Value N)))
  completed_call item (err error) = err (protocol ("invalid tool arguments: " +s error))
  completed_call item (ok arguments) = ok (
      tool_call_complete (record {
        id = text_or "" (get_str item "call_id");
        name = text_or "" (get_str item "name");
        arguments = arguments;
      })
      ∷ [])

  unfoldable pub item_done :
      (String → Result String (Value N))
      → Value N
      → Bool
      → Result ProviderError (List (ModelEvent (Value N)))
  item_done parse item seen =
      if str_eq (text_or "" (get_str item "type")) "function_call"
      then completed_call item (parse (text_or "{}" (get_str item "arguments")))
      else if str_eq (text_or "" (get_str item "type")) "reasoning"
      then ok ((if seen then [] else append_reasoning_summary item) ++ provider_item item ∷ [])
      else if str_eq (text_or "" (get_str item "type")) "web_search_call"
      then ok (provider_item item ∷ [])
      else ok []

  unfoldable pub response_completed : Value N → List (ModelEvent (Value N))
  response_completed value =
      when_some (get value "response") (λ response.
        when_some (get_str response "id") (λ id. response_id id ∷ [])
        ++ when_some (get response "usage") (λ u. usage (parse_usage u) ∷ []))
      ++ done ∷ []

  -- `match event_type`. An arm whose guard fails falls to the last one.
  unfoldable pub response_part :
      (String → Result String (Value N)) → String → Value N → ThinkingMode → Bool → Read N
  response_part parse kind value mode seen =
      if one_of ("response.created" ∷ "response.in_progress" ∷ []) kind
      then (
        ok (when_some (pointer value "response" "id" >>= as_str) (λ id. response_id id ∷ [])),
        seen,
      )
      else if str_eq kind "response.output_text.delta"
      then (
        ok (when_some (filtered not_empty (get_str value "delta")) (λ text. text_delta text ∷ [])),
        seen,
      )
      else if str_eq kind "response.reasoning_summary_text.delta"
      then reasoning_part (takes_summary mode) value seen
      else if one_of
          ("response.reasoning_text.delta" ∷ "response.reasoning_content.delta"
            ∷ "response.reasoning.delta" ∷ [])
          kind
      then reasoning_part (takes_reasoning mode) value seen
      else if str_eq kind "response.output_item.added"
      then (ok (call_added value (or_null (get value "item"))), seen)
      else if str_eq kind "response.function_call_arguments.delta"
      then (
        ok (
            tool_call_delta (response_slot value null) none none
              (text_or "" (get_str value "delta"))
            ∷ []),
        seen,
      )
      else if str_eq kind "response.output_item.done"
      then (item_done parse (or_null (get value "item")) seen, seen)
      else if str_eq kind "response.completed"
      then (ok (response_completed value), seen)
      else if str_eq kind "response.incomplete"
      then (
        err (
            protocol (
              "provider response incomplete: "
              +s text_or "output was truncated"
                  (pointer value "response" "incomplete_details" >>= λ d. get_str d "reason"))),
        seen,
      )
      else if one_of ("response.failed" ∷ "error" ∷ []) kind
      then (
        err (
            protocol (
              text_or "provider reported an unknown error" (
                or_else (pointer value "response" "error" >>= λ e. get e "message")
                  (pointer value "error" "message")
                >>= as_str))),
        seen,
      )
      else (ok [], seen)

  abbrev pub behind : List (ModelEvent (Value N)) → Read N → Read N
  behind events (ok more, seen) = (ok (events ++ more), seen)
  behind events (err error, seen) = (err error, seen)

  unfoldable pub parse_responses_event_for_mode :
      (String → Result String (Value N)) → Value N → ThinkingMode → Bool → Read N
  parse_responses_event_for_mode parse value mode seen =
      behind (append_native_search_events value)
        (response_part parse (text_or "" (get_str value "type")) value mode seen)
