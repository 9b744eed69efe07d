-- ===== src/Conversation.antt =====
-- The items of a conversation (provider/mod.rs) and what session.rs and agent.rs make of a list of
-- them: its size, its trimming, the context meter and the history that is safe to replay. `f64`
-- enters as a parameter `F` with the one operation that the meter uses.
pub mod Trim
pub mod Suffix
pub mod Replay
pub mod Early
pub mod Paired
pub mod Meter
mod Tests
use h_agent_core.Base.{
  ℕ, zero, suc, ◌+◌, ◌-◌, ◌*◌, ◌/◌, max, String, Bool, true, false, not, ◌&&◌, ◌||◌, List, [], ◌∷◌,
  ◌++◌, map, Option, none, some, ltb, leb, if◌then◌else◌, length, drop, any, filter, byte_len,
  str_eq, ◌+s◌, print_ℕ, saturating_add, mib,
}
use h_agent_core.Protocol.{Json, ToolCall}

pub data Role : Type 0 where
  system user assistant : Role

pub data ConversationItem (V : Type 0) : Type 0 where
  message : (role : Role) (content : String) → ConversationItem V
  thinking_summary : (content : String) → ConversationItem V
  compaction_summary : (content : String) → ConversationItem V
  context : (label content : String) → ConversationItem V
  provider_item : (item : V) → ConversationItem V
  assistant_tool_calls : (calls : List (ToolCall V)) → ConversationItem V
  tool_output : (call_id output : String) → ConversationItem V

module _ {V : Type 0} ⦃j : Json V⦄ where
  abbrev calls_bytes : List (ToolCall V) → ℕ
  calls_bytes [] = 0
  calls_bytes (c ∷ cs) = byte_len c.name + byte_len (j.to_string c.arguments) + calls_bytes cs

  unfoldable pub item_bytes : ConversationItem V → ℕ
  item_bytes (message role content) = byte_len content
  item_bytes (context label content) = byte_len content
  item_bytes (thinking_summary content) = 0
  item_bytes (compaction_summary content) = byte_len content
  item_bytes (provider_item item) = byte_len (j.to_string item)
  item_bytes (assistant_tool_calls calls) = calls_bytes calls
  item_bytes (tool_output call_id output) = byte_len output

  unfoldable pub conversation_bytes : List (ConversationItem V) → ℕ
  conversation_bytes [] = 0
  conversation_bytes (i ∷ is) = item_bytes i + conversation_bytes is

  unfoldable pub estimate_context_tokens : List (ConversationItem V) → ℕ
  estimate_context_tokens items = max (saturating_add (conversation_bytes items) 3 / 4) 1

module _ {V : Type 0} where
  -- `matches!(items.first(), Some(ConversationItem::ToolOutput { .. }))`.
  abbrev pub starts_with_output : List (ConversationItem V) → Bool
  starts_with_output (tool_output call_id output ∷ is) = true
  starts_with_output _ = false

  -- The first loop of both trims: items go from the front while the rest is not empty and over.
  unfoldable pub drop_while_over :
      (List (ConversationItem V) → Bool)
      → List (ConversationItem V)
      → ℕ
      → List (ConversationItem V) × ℕ
  drop_while_over over [] removed = ([], removed)
  drop_while_over over (i ∷ is) removed =
      let rest = drop_while_over over is (suc removed) in
      if over (i ∷ is) then rest else (i ∷ is, removed)

  -- The second loop: outputs that have lost their call go too.
  unfoldable pub drop_outputs : List (ConversationItem V) → ℕ → List (ConversationItem V) × ℕ
  drop_outputs (tool_output call_id output ∷ is) removed = drop_outputs is (suc removed)
  drop_outputs is removed = (is, removed)

  abbrev pub insert_note : (ℕ → String) → List (ConversationItem V) × ℕ → List (ConversationItem V)
  insert_note note (items, removed) =
      if ltb 0 removed then message system (note removed) ∷ items else items

  abbrev pub trim_with :
      (List (ConversationItem V) → Bool) → List (ConversationItem V) → List (ConversationItem V) × ℕ
  trim_with over items =
      let (kept, removed) = drop_while_over over items 0 in drop_outputs kept removed

abbrev pub budget_note : ℕ → String
budget_note removed =
    "Earlier context was trimmed to fit the model's input budget ("
    +s print_ℕ removed
    +s " items omitted)."

abbrev pub bounded_note : ℕ → String
bounded_note removed =
    "Earlier context was locally compacted (" +s print_ℕ removed +s " items omitted)."

module _ {V : Type 0} ⦃j : Json V⦄ where
  abbrev pub over_budget : ℕ → List (ConversationItem V) → Bool
  over_budget budget_tokens items = not (leb (estimate_context_tokens items) budget_tokens)

  -- The trimmed items and how many were removed.
  unfoldable pub trim_conversation_to_budget :
      List (ConversationItem V) → ℕ → List (ConversationItem V) × ℕ
  trim_conversation_to_budget items budget_tokens =
      let trimmed = trim_with (over_budget budget_tokens) items in
      (insert_note budget_note trimmed, trimmed.1)

  abbrev pub over_bounds : ℕ → ℕ → List (ConversationItem V) → Bool
  over_bounds max_items max_bytes items =
      ltb max_items (length items) || ltb max_bytes (conversation_bytes items)

  unfoldable pub trim_conversation_bounded :
      List (ConversationItem V) → ℕ → ℕ → List (ConversationItem V)
  trim_conversation_bounded items max_items max_bytes =
      insert_note bounded_note (trim_with (over_bounds max_items max_bytes) items)

  unfoldable pub trim_conversation : List (ConversationItem V) → List (ConversationItem V)
  trim_conversation items = trim_conversation_bounded items 200 mib

-- The real usage of a request and the length of the conversation that it covered.
pub record UsageAnchor : Type 0 where
  pub real_input : ℕ
  pub at_len : ℕ

-- `(tokens as f64 * calibration).ceil() as u64`.
pub record F64 (F : Type 0) : Type 0 where
  pub scale : ℕ → F → ℕ

module _ {V F : Type 0} ⦃j : Json V⦄ ⦃f : F64 F⦄ where
  abbrev pub anchored : UsageAnchor → List (ConversationItem V) → F → ℕ
  anchored anchor [] calibration = anchor.real_input
  anchored anchor (i ∷ is) calibration =
      saturating_add anchor.real_input (f.scale (estimate_context_tokens (i ∷ is)) calibration)

  unfoldable pub estimate_used_tokens : Option UsageAnchor → List (ConversationItem V) → F → ℕ
  estimate_used_tokens none items calibration = f.scale (estimate_context_tokens items) calibration
  estimate_used_tokens (some anchor) items calibration =
      if leb anchor.at_len (length items)
      then anchored anchor (drop anchor.at_len items) calibration
      else f.scale (estimate_context_tokens items) calibration

-- A set of ids is the list of its members.
abbrev pub contains : List String → String → Bool
contains ids id = any (λ i. str_eq i id) ids

module _ {V : Type 0} where
  unfoldable pub output_ids : List (ConversationItem V) → List String
  output_ids [] = []
  output_ids (tool_output call_id output ∷ is) = call_id ∷ output_ids is
  output_ids (_ ∷ is) = output_ids is

  abbrev pub call_ids : List (ToolCall V) → List String
  call_ids calls = map (λ c. c.id) calls

  abbrev pub answered : List String → List (ToolCall V) → List (ToolCall V)
  answered outputs calls = filter (λ c. contains outputs c.id) calls

  -- `if !calls.is_empty()`.
  abbrev pub push_calls : List (ToolCall V) → List (ConversationItem V) → List (ConversationItem V)
  push_calls [] replay = replay
  push_calls (c ∷ cs) replay = assistant_tool_calls (c ∷ cs) ∷ replay

  abbrev pub push_output :
      Bool → ConversationItem V → List (ConversationItem V) → List (ConversationItem V)
  push_output true i replay = i ∷ replay
  push_output false i replay = replay

  -- The loop of `replay_safe_items` over the rest of the items, with the calls known so far.
  unfoldable pub replay_from :
      List String → List String → List (ConversationItem V) → List (ConversationItem V)
  replay_from outputs known [] = []
  replay_from outputs known (assistant_tool_calls calls ∷ is) =
      push_calls (answered outputs calls)
        (replay_from outputs (known ++ call_ids (answered outputs calls)) is)
  replay_from outputs known (tool_output call_id output ∷ is) =
      push_output (contains known call_id) (tool_output call_id output)
        (replay_from outputs known is)
  replay_from outputs known (i ∷ is) = i ∷ replay_from outputs known is

  unfoldable pub replay_safe_items : List (ConversationItem V) → List (ConversationItem V)
  replay_safe_items items = replay_from (output_ids items) [] items
