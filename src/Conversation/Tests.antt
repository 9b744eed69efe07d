-- ===== src/Conversation/Tests.antt =====
-- Tests and examples for the conversations of session.rs and agent.rs.
use h_agent_core.Base.{List, [], ◌∷◌, ◌≡◌, ◌≢◌, refl, true, false, decimal}
use h_agent_core.Samples.{Sample, sample_json, sample_f64, git_status}
use h_agent_core.Conversation.{
  ConversationItem, message, system, user, drop_while_over, drop_outputs, assistant,
  assistant_tool_calls, tool_output, trim_conversation_bounded, replay_safe_items, UsageAnchor,
  conversation_bytes, item_bytes, output_ids, contains,
}
use h_agent_core.Conversation.Trim.{IsBounded, trim_conversation_bounded-IsBounded}
use h_agent_core.Conversation.Replay.{OutputsKnown, replay_safe_items-OutputsKnown}
use h_agent_core.Conversation.Early.{all_calls, OutputsEarly, early_output_unanswered}
use h_agent_core.Conversation.Paired.{CallsIn}

abbrev a_turn : List (ConversationItem Sample)
a_turn =
    message user "run git"
    ∷ assistant_tool_calls (git_status ∷ [])
    ∷ tool_output "c1" "clean"
    ∷ message assistant "done"
    ∷ []

-- Of the last two items the output has lost its call, so it goes too, and a note takes the place.
a_trimmed_turn :
    trim_conversation_bounded a_turn 2 1000
    ≡ message system "Earlier context was locally compacted (3 items omitted)."
      ∷ message assistant "done"
      ∷ []
unfolding trim_conversation_bounded conversation_bytes item_bytes drop_while_over drop_outputs
    decimal
a_trimmed_turn = refl

abbrev anchor : UsageAnchor
anchor = record { real_input = 100; at_len = 3 }

trim_conversation_bounded-IsBounded_example :
    IsBounded 2 1000 a_turn (trim_conversation_bounded a_turn 2 1000)
trim_conversation_bounded-IsBounded_example = trim_conversation_bounded-IsBounded a_turn 2 1000

replay_safe_items-OutputsKnown_example : OutputsKnown [] (replay_safe_items a_turn)
replay_safe_items-OutputsKnown_example = replay_safe_items-OutputsKnown a_turn

-- An output before its call.
abbrev early_turn : List (ConversationItem Sample)
early_turn = tool_output "c1" "clean" ∷ assistant_tool_calls (git_status ∷ []) ∷ []

early_output : contains (output_ids early_turn) "c1" ≡ true
unfolding output_ids
early_output = refl

no_late_output : OutputsEarly "c1" early_turn
unfolding output_ids
no_late_output = refl

early_output_unanswered_example :
    (contains (all_calls (replay_safe_items early_turn)) "c1" ≡ true)
    × (contains (output_ids (replay_safe_items early_turn)) "c1" ≡ false)
early_output_unanswered_example =
    early_output_unanswered early_turn "c1" refl early_output no_late_output

some_call : (git_status ∷ []) ≢ []
some_call h = cc

outputs_in : CallsIn (output_ids a_turn) a_turn
unfolding output_ids
outputs_in = (some_call, (refl, tt), tt)
