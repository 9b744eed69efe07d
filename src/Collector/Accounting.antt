-- ===== src/Collector/Accounting.antt =====
-- agent.rs: the bounds that `StreamCollector` keeps through every event of a model's stream.
use text.Mathlib.TextPositions.{len-append}
use h_agent_core.Base.{
  ℕ, ◌+◌, ◌-◌, ◌<◌, String, true, ◌&&◌, ◌||◌, [], ◌∷◌, Option, ltb, leb, length, length-append,
  byte_len, ◌+s◌, ◌≡◌, refl, arith, Bool-cases, inl, inr, saturating_add, All-append,
}
use h_agent_core.Limits.{MemoryConfig}
use h_agent_core.Protocol.{Json, ToolCall}
use h_agent_core.Collector.{
  StreamCollector, PartialToolCall, ModelEvent, call_bytes, find_slot, take_partial, or_default,
  or_keep, is_none, on_tool_call_delta, extend_partial, on_tool_call_complete, on_event, new,
  with_memory_limits, text_delta, reasoning_delta, tool_call_delta, tool_call_complete,
}
use h_agent_core.Collector.Texts.{append_reasoning_bounded-le}
use h_agent_core.Collector.Limits.{
  put_slot-bytes, put_slot-Fits, find_slot-Fits, take_partial-bytes, take_partial-length,
  take_partial-Fits,
}
use h_agent_core.Collector.Invariant.{
  HasLimits, or-false, saturating_fits, room_left, ltb-false, empty_fits, CallFits,
  completed_bytes-append, IsBounded, has_room, slot_room, on_text-IsBounded,
}

module _ {V : Type 0} ⦃j : Json V⦄ where
  extend_partial-IsBounded :
      (c : StreamCollector V) (slot : String) (id name : Option String) (delta : String)
      → HasLimits c
      → (is_none (find_slot slot c.partials) ≡ true
          → length c.partials + length c.completed_calls < c.max_tool_calls)
      → IsBounded c
      → IsBounded (extend_partial c slot id name delta (or_default (find_slot slot c.partials))).0
  unfolding extend_partial
  extend_partial-IsBounded c slot id name delta (lim, limt, limn) room b =
      let p = or_default (find_slot slot c.partials) in
      let q : PartialToolCall = record {
        id = or_keep id p.id;
        name = or_keep name p.name;
        arguments = p.arguments +s delta;
      } in
      let pfit = find_slot-Fits c.max_tool_call_bytes slot c.partials b.partials_fit in
      let over1 =
        ltb c.max_tool_call_bytes (saturating_add (byte_len p.arguments) (byte_len delta)) in
      let over2 =
        ltb c.max_tool_call_total_bytes (saturating_add c.tool_call_bytes (byte_len delta)) in
      elim (Bool-cases (over1 || over2)) [
        | inl h ↦ rw h (record {
          counted = let e = put_slot-bytes slot p c.partials in let k = b.counted in omega arith;
          total = b.total;
          calls = slot_room c slot p room b;
          partials_fit = put_slot-Fits c.max_tool_call_bytes slot p c.partials pfit b.partials_fit;
          calls_fit = b.calls_fit;
          text_fits = b.text_fits;
          reasoning_fits = b.reasoning_fits;
        })
        | inr h ↦
            let (h1, h2) = or-false over1 over2 h in
            let (f1, _) =
              saturating_fits (byte_len p.arguments) (byte_len delta) c.max_tool_call_bytes lim
                h1 in
            let (f2, e2) =
              saturating_fits c.tool_call_bytes (byte_len delta) c.max_tool_call_total_bytes limt
                h2 in
            let l = len-append p.arguments delta in
            rw h (record {
              counted =
                  let e = put_slot-bytes slot q c.partials in let k = b.counted in omega arith;
              total = omega arith;
              calls = slot_room c slot q room b;
              partials_fit =
                  put_slot-Fits c.max_tool_call_bytes slot q c.partials (omega arith)
                    b.partials_fit;
              calls_fit = b.calls_fit;
              text_fits = b.text_fits;
              reasoning_fits = b.reasoning_fits;
            })
      ]

  on_tool_call_delta-IsBounded :
      (c : StreamCollector V) (slot : String) (id name : Option String) (delta : String)
      → HasLimits c
      → IsBounded c
      → IsBounded (on_tool_call_delta c slot id name delta).0
  unfolding on_tool_call_delta
  on_tool_call_delta-IsBounded c slot id name delta lim b =
      let full =
        leb c.max_tool_calls (saturating_add (length c.partials) (length c.completed_calls)) in
      let new_slot = is_none (find_slot slot c.partials) in
      elim (Bool-cases (new_slot && full)) [
        | inl h ↦ rw h b
        | inr h ↦ rw h (
            extend_partial-IsBounded c slot id name delta lim (λ e. has_room c new_slot lim.2 e h)
              b)
      ]

  on_tool_call_complete-IsBounded :
      (c : StreamCollector V) (call : ToolCall V)
      → HasLimits c
      → IsBounded c
      → IsBounded (on_tool_call_complete c call).0
  unfolding on_tool_call_complete
  on_tool_call_complete-IsBounded c call (lim, limt, limn) b =
      let bytes = (take_partial call.id c.partials).0 in
      let rest = (take_partial call.id c.partials).1 in
      let e = take_partial-bytes call.id c.partials in
      let l = take_partial-length call.id c.partials in
      let k = b.counted in
      let t = b.total in
      let n = b.calls in
      let taken : IsBounded
          (record c { partials = rest; tool_call_bytes = c.tool_call_bytes - bytes }) =
        record {
          counted = omega arith;
          total = omega arith;
          calls = omega arith;
          partials_fit = take_partial-Fits c.max_tool_call_bytes call.id c.partials b.partials_fit;
          calls_fit = b.calls_fit;
          text_fits = b.text_fits;
          reasoning_fits = b.reasoning_fits;
        } in
      let full = leb c.max_tool_calls (saturating_add (length c.completed_calls) (length rest)) in
      let over1 = ltb c.max_tool_call_bytes (call_bytes call) in
      let over2 =
        ltb c.max_tool_call_total_bytes
          (saturating_add (c.tool_call_bytes - bytes) (call_bytes call)) in
      elim (Bool-cases full) [
        | inl h ↦ rw h taken
        | inr h ↦ rw h (elim (Bool-cases (over1 || over2)) [
          | inl g ↦ rw g taken
          | inr g ↦
              let (h1, h2) = or-false over1 over2 g in
              let (_, e2) =
                saturating_fits (c.tool_call_bytes - bytes) (call_bytes call)
                  c.max_tool_call_total_bytes limt h2 in
              let (f2, _) =
                saturating_fits (c.tool_call_bytes - bytes) (call_bytes call)
                  c.max_tool_call_total_bytes limt h2 in
              let a = completed_bytes-append c.completed_calls (call ∷ []) in
              let m = length-append c.completed_calls (call ∷ []) in
              let u = taken.counted in
              rw g (record {
                counted = omega arith;
                total = omega arith;
                calls =
                    rw m
                      (room_left (length c.completed_calls) (length rest) c.max_tool_calls limn h);
                partials_fit = taken.partials_fit;
                calls_fit =
                    All-append (CallFits c.max_tool_call_bytes) c.completed_calls (call ∷ [])
                      b.calls_fit (ltb-false c.max_tool_call_bytes (call_bytes call) h1, tt);
                text_fits = b.text_fits;
                reasoning_fits = b.reasoning_fits;
              })
        ])
      ]

  -- With limits below the largest word, every event keeps a bounded collector bounded, whether it
  -- is accepted or refused: the byte count is that of the calls held, which are at most as many
  -- and as large as the limits say, and so are the text and the reasoning.
  pub on_event-IsBounded :
      (c : StreamCollector V) (event : ModelEvent V)
      → HasLimits c
      → IsBounded c
      → IsBounded (on_event c event).0
  unfolding on_event
  on_event-IsBounded c (text_delta delta) lim b = on_text-IsBounded c delta b
  on_event-IsBounded c (reasoning_delta delta) lim b = record {
    counted = b.counted;
    total = b.total;
    calls = b.calls;
    partials_fit = b.partials_fit;
    calls_fit = b.calls_fit;
    text_fits = b.text_fits;
    reasoning_fits = append_reasoning_bounded-le c.reasoning_text delta;
  }
  on_event-IsBounded c (tool_call_delta slot id name delta) lim b =
      on_tool_call_delta-IsBounded c slot id name delta lim b
  on_event-IsBounded c (tool_call_complete call) lim b =
      on_tool_call_complete-IsBounded c call lim b
  on_event-IsBounded c other lim b = record {
    counted = b.counted;
    total = b.total;
    calls = b.calls;
    partials_fit = b.partials_fit;
    calls_fit = b.calls_fit;
    text_fits = b.text_fits;
    reasoning_fits = b.reasoning_fits;
  }

  -- A new collector is bounded, whatever the configured limits are.
  pub new-IsBounded :
      (max_text_bytes : Option ℕ) (memory : MemoryConfig)
      → IsBounded {V = V} (with_memory_limits (new max_text_bytes) memory)
  unfolding new with_memory_limits
  new-IsBounded max_text_bytes memory = record {
    counted = refl;
    total = omega arith;
    calls = omega arith;
    partials_fit = tt;
    calls_fit = tt;
    text_fits = empty_fits max_text_bytes;
    reasoning_fits = omega arith;
  }
