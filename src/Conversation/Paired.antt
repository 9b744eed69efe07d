-- ===== src/Conversation/Paired.antt =====
-- `replay_safe_items` (agent.rs) on a history whose calls and outputs are paired already.
use h_agent_core.Base.{String, ◌≡◌, ◌≢◌, refl, ap, ◌∙◌, true, List, [], ◌∷◌, ◌++◌, All}
use h_agent_core.Protocol.{ToolCall}
use h_agent_core.Conversation.{
  ConversationItem, message, assistant_tool_calls, tool_output, contains, output_ids, call_ids,
  answered, push_calls, replay_from, replay_safe_items,
}
use h_agent_core.Conversation.Replay.{OutputsKnown}

module _ {V : Type 0} where
  -- No call list is empty, and every call has an output somewhere among `outputs`.
  abbrev pub CallsIn : List String → List (ConversationItem V) → Type 0
  CallsIn outputs [] = Unit
  CallsIn outputs (assistant_tool_calls calls ∷ is) =
      (calls ≢ []) × All (λ c. contains outputs c.id ≡ true) calls × CallsIn outputs is
  CallsIn outputs (_ ∷ is) = CallsIn outputs is

  answered-All :
      (outputs : List String) (calls : List (ToolCall V))
      → All (λ c. contains outputs c.id ≡ true) calls
      → answered outputs calls ≡ calls
  answered-All outputs [] h = refl
  answered-All outputs (c ∷ cs) (h, hs) = rw h (ap (λ t. c ∷ t) (answered-All outputs cs hs))

  push_calls_some :
      (calls : List (ToolCall V)) (rest : List (ConversationItem V))
      → calls ≢ []
      → push_calls calls rest ≡ assistant_tool_calls calls ∷ rest
  push_calls_some [] rest h = absurd (h refl)
  push_calls_some (c ∷ cs) rest h = refl

  replay_from_paired :
      (outputs known : List String) (items : List (ConversationItem V))
      → OutputsKnown known items
      → CallsIn outputs items
      → replay_from outputs known items ≡ items
  unfolding replay_from
  replay_from_paired outputs known [] h k = refl
  replay_from_paired outputs known (assistant_tool_calls calls ∷ is) h (some_call, out, k) =
      rw (answered-All outputs calls out) (
        push_calls_some calls _ some_call
        ∙ ap (λ t. assistant_tool_calls calls ∷ t)
            (replay_from_paired outputs (known ++ call_ids calls) is h k))
  replay_from_paired outputs known (tool_output i o ∷ is) (here, h) k =
      rw here (ap (λ t. tool_output i o ∷ t) (replay_from_paired outputs known is h k))
  replay_from_paired outputs known (message r c ∷ is) h k =
      ap (λ t. message r c ∷ t) (replay_from_paired outputs known is h k)
  replay_from_paired outputs known (i ∷ is) h k =
      ap (λ t. i ∷ t) (replay_from_paired outputs known is h k)

  -- A history in which every output follows a call with its id, no list of calls is empty and
  -- every call has an output somewhere is replayed whole.
  pub replay_safe_items_paired :
      (items : List (ConversationItem V))
      → OutputsKnown [] items
      → CallsIn (output_ids items) items
      → replay_safe_items items ≡ items
  unfolding replay_safe_items
  replay_safe_items_paired items h k = replay_from_paired (output_ids items) [] items h k
