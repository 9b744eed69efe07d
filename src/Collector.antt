-- ===== src/Collector.antt =====
-- agent.rs: `StreamCollector`, which gathers one streamed model response under byte and count
-- limits. A `HashMap` is an association list in the order in which it happens to be iterated, and
-- has no two entries of one slot; a `HashSet` is the list of its members. The shared
-- `partial_output_sink` is the text that it holds. An operation returns the state that it leaves,
-- also with an error; of the error of a JSON text only the part before its detail is kept.
-- `uuid n` is what `Uuid::new_v4` gives at the n-th open call.
pub mod Texts
pub mod Limits
pub mod Invariant
pub mod Accounting
pub mod Finish
mod Tests
use Prim.Native.Char.{Char, len_utf8}
use Prim.Native.String
use Prim.Native.String.{slice}
use text.Mathlib.Text.{is_char_boundary}
pub use h_agent_core.Base.{Result, ok, err}
use h_agent_core.Base.{
  ℕ, zero, suc, ◌+◌, ◌-◌, ◌*◌, min, String, Bool, true, false, ◌&&◌, ◌||◌, List, [], ◌∷◌, ◌++◌,
  Option, none, some, ltb, leb, ◌==◌, if◌then◌else◌, length, byte_len, str_eq, ◌+s◌, print_ℕ,
  saturating_add, kib, mib, any,
}
use h_agent_core.Protocol.{Json, ToolCall}
use h_agent_core.Limits.{MemoryConfig}

pub record Usage : Type 0 where
  pub input_tokens : ℕ
  pub output_tokens : ℕ
  pub total_tokens : ℕ

-- provider/mod.rs
pub data ModelEvent (V : Type 0) : Type 0 where
  reasoning_delta : (delta : String) → ModelEvent V
  retrying : (attempt : ℕ) (reason : String) (delay_ms : ℕ) → ModelEvent V
  web_search_started : (query : String) → ModelEvent V
  web_search_result : (title url snippet : String) → ModelEvent V
  web_search_completed : (count : ℕ) → ModelEvent V
  provider_item : V → ModelEvent V
  text_delta : (delta : String) → ModelEvent V
  tool_call_delta :
      (slot : String) (id name : Option String) (arguments_delta : String) → ModelEvent V
  tool_call_complete : ToolCall V → ModelEvent V
  response_id : String → ModelEvent V
  usage : Usage → ModelEvent V
  done : ModelEvent V

pub record PartialToolCall : Type 0 where
  pub id : String
  pub name : String
  pub arguments : String

abbrev pub default_partial : PartialToolCall
default_partial = record { id = ""; name = ""; arguments = "" }

pub record StreamCollector (V : Type 0) : Type 0 where
  pub assistant_text : String
  pub reasoning_text : String
  pub partials : List (String × PartialToolCall)
  pub completed_calls : List (ToolCall V)
  pub completed_ids : List String
  pub saw_done : Bool
  pub max_text_bytes : Option ℕ
  pub max_tool_call_bytes : ℕ
  pub max_tool_call_total_bytes : ℕ
  pub max_tool_calls : ℕ
  pub tool_call_bytes : ℕ
  pub partial_output_sink : Option String

abbrev pub max_reasoning_bytes : ℕ
max_reasoning_bytes = 64 * kib

-- The text from the first character on whose offset is `minimum` or more.
unfoldable pub drop_to : String → ℕ → String
drop_to String.[] minimum = ""
drop_to (String.◌∷◌ c s) minimum =
    let later = drop_to s (minimum - len_utf8 c) in if minimum == 0 then String.◌∷◌ c s else later

unfoldable pub append_reasoning_bounded : String → String → String
append_reasoning_bounded buffer delta =
    let joined = buffer +s delta in
    if leb (byte_len joined) max_reasoning_bytes
    then joined
    else drop_to joined (byte_len joined - max_reasoning_bytes)

-- `while end > 0 && !delta.is_char_boundary(end) { end -= 1; }`
unfoldable pub floor_boundary : String → ℕ → ℕ
floor_boundary s zero = zero
floor_boundary s (suc end) =
    let lower = floor_boundary s end in if is_char_boundary s (suc end) then suc end else lower

unfoldable pub append_text_bounded : String → String → ℕ → String
append_text_bounded buffer delta max_bytes =
    let remaining = max_bytes - byte_len buffer in
    if remaining == 0
    then buffer
    else buffer +s slice delta 0 (floor_boundary delta (min (byte_len delta) remaining))

abbrev set_sink : Option String → String → Option String
set_sink none text = none
set_sink (some old) text = some text

-- `partials.contains_key` and `partials.get`.
unfoldable pub find_slot : String → List (String × PartialToolCall) → Option PartialToolCall
find_slot slot [] = none
find_slot slot ((s, p) ∷ ps) = if str_eq s slot then some p else find_slot slot ps

-- The map with the entry of a slot replaced, or added.
unfoldable pub put_slot :
    String → PartialToolCall → List (String × PartialToolCall) → List (String × PartialToolCall)
put_slot slot q [] = (slot, q) ∷ []
put_slot slot q ((s, p) ∷ ps) = if str_eq s slot then (s, q) ∷ ps else (s, p) ∷ put_slot slot q ps

abbrev pub or_default : Option PartialToolCall → PartialToolCall
or_default none = default_partial
or_default (some p) = p

abbrev or_keep : Option String → String → String
or_keep none old = old
or_keep (some new) old = new

-- `partials.iter().find(|(_, partial)| partial.id == call.id)` and the removal of what is found:
-- the length of its arguments and the other entries.
unfoldable pub take_partial :
    String → List (String × PartialToolCall) → ℕ × List (String × PartialToolCall)
take_partial id [] = (0, [])
take_partial id ((s, p) ∷ ps) =
    if str_eq p.id id
    then (byte_len p.arguments, ps)
    else (let (bytes, rest) = take_partial id ps in (bytes, (s, p) ∷ rest))

abbrev pub Outcome : Type 0 → Type 0
Outcome V = StreamCollector V × Result String (Option (ModelEvent V))

abbrev pub is_none : Option PartialToolCall → Bool
is_none none = true
is_none (some p) = false

abbrev pub arguments_or_empty : String → String
arguments_or_empty s = if str_eq s "" then "{}" else s

abbrev pub skipped : List String → PartialToolCall → Bool
skipped completed_ids p = any (λ i. str_eq i p.id) completed_ids || str_eq p.name ""

module _ {V : Type 0} where
  unfoldable pub new : Option ℕ → StreamCollector V
  new max_text_bytes = record {
    assistant_text = "";
    reasoning_text = "";
    partials = [];
    completed_calls = [];
    completed_ids = [];
    saw_done = false;
    max_text_bytes = max_text_bytes;
    max_tool_call_bytes = mib;
    max_tool_call_total_bytes = 4 * mib;
    max_tool_calls = 32;
    tool_call_bytes = 0;
    partial_output_sink = none;
  }

  unfoldable pub with_memory_limits : StreamCollector V → MemoryConfig → StreamCollector V
  with_memory_limits c memory = record c {
    max_tool_call_bytes = memory.max_tool_call_bytes;
    max_tool_call_total_bytes = memory.max_tool_call_total_bytes;
    max_tool_calls = memory.max_tool_calls;
  }

  abbrev set_text : StreamCollector V → String → StreamCollector V
  set_text c text = record c {
    assistant_text = text;
    partial_output_sink = set_sink c.partial_output_sink text;
  }

  on_text_limited : StreamCollector V → String → Option ℕ → Outcome V
  on_text_limited c delta none =
      (set_text c (c.assistant_text +s delta), ok (some (text_delta delta)))
  on_text_limited c delta (some max_bytes) =
      let c' = set_text c (append_text_bounded c.assistant_text delta max_bytes) in
      if ltb max_bytes (saturating_add (byte_len c.assistant_text) (byte_len delta))
      then (c', err ("model response exceeded the " +s print_ℕ max_bytes +s " byte limit"))
      else (c', ok (some (text_delta delta)))

  unfoldable pub on_text : StreamCollector V → String → Outcome V
  unfolding on_text_limited
  on_text c delta = on_text_limited c delta c.max_text_bytes

  abbrev too_many : StreamCollector V → Result String (Option (ModelEvent V))
  too_many c = err ("model returned more than " +s print_ℕ c.max_tool_calls +s " tool calls")

  abbrev too_large : Result String (Option (ModelEvent V))
  too_large = err "tool call arguments exceeded the configured byte limit"

  -- The delta of a call whose entry is `p`, already in the map.
  unfoldable pub extend_partial :
      StreamCollector V
      → String
      → Option String
      → Option String
      → String
      → PartialToolCall
      → Outcome V
  extend_partial c slot id name delta p =
      if ltb c.max_tool_call_bytes (saturating_add (byte_len p.arguments) (byte_len delta))
        || ltb c.max_tool_call_total_bytes (saturating_add c.tool_call_bytes (byte_len delta))
      then (record c { partials = put_slot slot p c.partials }, too_large)
      else (
        record c {
          partials =
              put_slot slot
                (record {
                  id = or_keep id p.id;
                  name = or_keep name p.name;
                  arguments = p.arguments +s delta;
                })
                c.partials;
          tool_call_bytes = saturating_add c.tool_call_bytes (byte_len delta);
        },
        ok (some (tool_call_delta slot none name delta)),
      )

  unfoldable pub on_tool_call_delta :
      StreamCollector V → String → Option String → Option String → String → Outcome V
  on_tool_call_delta c slot id name delta =
      let found = find_slot slot c.partials in
      if is_none found
        && leb c.max_tool_calls (saturating_add (length c.partials) (length c.completed_calls))
      then (c, too_many c)
      else extend_partial c slot id name delta (or_default found)

module _ {V : Type 0} ⦃j : Json V⦄ where
  abbrev pub call_bytes : ToolCall V → ℕ
  call_bytes call = saturating_add (byte_len call.name) (byte_len (j.to_string call.arguments))

  unfoldable pub on_tool_call_complete : StreamCollector V → ToolCall V → Outcome V
  on_tool_call_complete c call =
      let (bytes, rest) = take_partial call.id c.partials in
      let c' : StreamCollector V = record c {
        partials = rest;
        tool_call_bytes = c.tool_call_bytes - bytes;
      } in
      if leb c.max_tool_calls (saturating_add (length c.completed_calls) (length rest))
      then (c', too_many c)
      else if ltb c.max_tool_call_bytes (call_bytes call)
          || ltb c.max_tool_call_total_bytes (saturating_add c'.tool_call_bytes (call_bytes call))
      then (c', too_large)
      else (
        record c' {
          tool_call_bytes = saturating_add c'.tool_call_bytes (call_bytes call);
          completed_ids = call.id ∷ c.completed_ids;
          completed_calls = c.completed_calls ++ call ∷ [];
        },
        ok none,
      )

  unfoldable pub on_event : StreamCollector V → ModelEvent V → Outcome V
  on_event c (text_delta delta) = on_text c delta
  on_event c (reasoning_delta delta) = (
    record c { reasoning_text = append_reasoning_bounded c.reasoning_text delta },
    ok (some (reasoning_delta delta)),
  )
  on_event c (tool_call_delta slot id name delta) = on_tool_call_delta c slot id name delta
  on_event c (tool_call_complete call) = on_tool_call_complete c call
  on_event c done = (record c { saw_done = true }, ok none)
  on_event c other = (c, ok (some other))

  abbrev pub finished_call : (ℕ → String) → ℕ → PartialToolCall → V → ToolCall V
  finished_call uuid n p arguments = record {
    id = if str_eq p.id "" then "call_" +s uuid n else p.id;
    name = p.name;
    arguments = arguments;
  }

  -- The loop of `finish_partials`: the calls so far, and whether an argument text was refused.
  unfoldable pub finish_from :
      (ℕ → String)
      → String
      → List String
      → ℕ
      → List (String × PartialToolCall)
      → List (ToolCall V)
      → List (ToolCall V) × Result String (Unit {0})
  finish_from uuid kind ids n [] calls = (calls, ok tt)
  finish_from uuid kind ids n ((s, p) ∷ ps) calls =
      let skip = finish_from uuid kind ids (suc n) ps calls in
      let take : List (ToolCall V) × Result String (Unit {0}) =
        elim (j.parse (arguments_or_empty p.arguments)) [
          | none ↦ (calls, err ("invalid " +s kind +s " arguments"))
          | some v ↦ finish_from uuid kind ids (suc n) ps (calls ++ finished_call uuid n p v ∷ [])
        ] in
      if skipped ids p then skip else take

  unfoldable pub finish_partials :
      (ℕ → String) → StreamCollector V → String → StreamCollector V × Result String (Unit {0})
  finish_partials uuid c kind =
      let (calls, result) = finish_from uuid kind c.completed_ids 0 c.partials c.completed_calls in
      (record c { partials = []; completed_calls = calls }, result)
