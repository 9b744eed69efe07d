-- ===== src/OpenAi/Replays.antt =====
-- provider/openai.rs: what a responses stream says of reasoning, over several events.
use h_agent_core.Base.{
  String, Bool, true, false, not, List, [], ◌∷◌, some, Result, ok, err, any, ◌≡◌, refl, sym, ◌∙◌,
  ap, arith, str_eq,
}
use h_agent_core.Collector.{ModelEvent}
use h_agent_core.Value.{Value, Numbers, get, get_str}
use h_agent_core.OpenAi.Events.{text_or, or_null, append_native_search_events}
use h_agent_core.OpenAi.Responses.{
  ThinkingMode, Read, item_done, response_part, behind, parse_responses_event_for_mode,
  completed_call,
}
use h_agent_core.OpenAi.Reasoning.{
  is_reasoning, any-append, append_native_search_events-no_reasoning,
}
use h_agent_core.OpenAi.Noted.{
  response_part-notes, response_part-has_seen, notes, has_seen, notes-behind, has_seen-behind,
  done_kind,
}

module _ {N : Type 0} ⦃n : Numbers N⦄ where
  -- The reads of the events of a stream, one after another: whether reasoning was seen by then.
  unfoldable pub seen_after :
      (String → Result String (Value N)) → ThinkingMode → List (Value N) → Bool → Bool
  seen_after parse mode [] seen = seen
  seen_after parse mode (v ∷ vs) seen =
      seen_after parse mode vs (has_seen (parse_responses_event_for_mode parse v mode seen))

  has_seen-read :
      (parse : String → Result String (Value N)) (value : Value N) (mode : ThinkingMode)
      → has_seen (parse_responses_event_for_mode parse value mode true) ≡ true
  unfolding parse_responses_event_for_mode
  has_seen-read parse value mode =
      let kind = text_or "" (get_str value "type") in
      has_seen-behind (append_native_search_events value) (response_part parse kind value mode true)
      ∙ response_part-has_seen parse kind value mode

  seen_after-true :
      (parse : String → Result String (Value N)) (mode : ThinkingMode) (values : List (Value N))
      → seen_after parse mode values true ≡ true
  unfolding seen_after
  seen_after-true parse mode [] = refl
  seen_after-true parse mode (v ∷ vs) =
      rw (has_seen-read parse v mode) (seen_after-true parse mode vs)

  notes-read :
      (parse : String → Result String (Value N)) (value : Value N) (mode : ThinkingMode)
      (seen : Bool)
      → str_eq (text_or "" (get_str value "type")) done_kind ≡ false
      → notes (parse_responses_event_for_mode parse value mode seen) ≡ true
  unfolding parse_responses_event_for_mode
  notes-read parse value mode seen h =
      let kind = text_or "" (get_str value "type") in
      notes-behind (append_native_search_events value) (response_part parse kind value mode seen)
        (append_native_search_events-no_reasoning value)
        (response_part-notes parse kind value mode seen h)

  notes-seen :
      (r : Read N) (events : List (ModelEvent (Value N))) (s : Bool)
      → notes r ≡ true
      → r ≡ (ok events, s)
      → any is_reasoning events ≡ true
      → s ≡ true
  unfolding notes
  notes-seen r events s h e k = ground (arith, sym (ap notes e) ∙ h)

  abbrev silent : Read N → Bool
  silent (ok events, s) = not (any is_reasoning events)
  silent (err e, s) = true

  silent-behind :
      (events : List (ModelEvent (Value N))) (r : Read N)
      → any is_reasoning events ≡ false
      → silent r ≡ true
      → silent (behind events r) ≡ true
  silent-behind events (ok more, s) h k = ground (arith, any-append is_reasoning events more)
  silent-behind events (err e, s) h k = refl

  silent-call :
      (item : Value N) (r : Result String (Value N)) (s : Bool)
      → silent (completed_call item r, s) ≡ true
  silent-call item (ok v) s = refl
  silent-call item (err e) s = refl

  silent-item :
      (parse : String → Result String (Value N)) (item : Value N) (s : Bool)
      → silent (item_done parse item true, s) ≡ true
  unfolding item_done
  silent-item parse item s =
      let c = silent-call item (parse (text_or "{}" (get_str item "arguments"))) s in ground arith

  silent-done :
      (parse : String → Result String (Value N)) (value : Value N) (mode : ThinkingMode)
      → get_str value "type" ≡ some done_kind
      → silent (parse_responses_event_for_mode parse value mode true) ≡ true
  unfolding parse_responses_event_for_mode response_part
  silent-done parse value mode h = rw h (
      silent-behind (append_native_search_events value)
        (item_done parse (or_null (get value "item")) true, true)
        (append_native_search_events-no_reasoning value)
        (silent-item parse (or_null (get value "item")) true))

  -- When an event of the stream that is not the end of an item told of reasoning, then the end of
  -- no item told of it again, however many events were read between the two.
  pub parse_responses_event_once :
      (parse : String → Result String (Value N)) (mode : ThinkingMode) (seen : Bool)
      (delta : Value N) (events : List (ModelEvent (Value N))) (after : Bool)
      (between : List (Value N)) (finished : Value N) (more : List (ModelEvent (Value N)))
      (last : Bool)
      → str_eq (text_or "" (get_str delta "type")) "response.output_item.done" ≡ false
      → parse_responses_event_for_mode parse delta mode seen ≡ (ok events, after)
      → any is_reasoning events ≡ true
      → get_str finished "type" ≡ some "response.output_item.done"
      → parse_responses_event_for_mode parse finished mode (seen_after parse mode between after)
        ≡ (ok more, last)
      → any is_reasoning more ≡ false
  parse_responses_event_once parse mode seen delta events after between finished more last k read
        told f reads =
      let a = notes-seen _ events after (notes-read parse delta mode seen k) read told in
      let b = ap (seen_after parse mode between) a ∙ seen_after-true parse mode between in
      let q = ap (parse_responses_event_for_mode parse finished mode) (sym b) ∙ reads in
      let w = sym (ap silent q) ∙ silent-done parse finished mode f in ground (arith, w)
