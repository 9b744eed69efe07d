-- ===== src/OpenAi/Reasoning.antt =====
-- provider/openai.rs: what the events of a responses stream say of searches and of reasoning.
use Prim.Native.String.{slice}
use text.Mathlib.TextPositions.{len-append}
use h_agent_core.Base.{
  ℕ, ◌-◌, ◌≤◌, String, Bool, true, false, ◌||◌, List, [], ◌∷◌, ◌++◌, some, Result, ok, leb, any,
  take, byte_len, lower_code, Bool-cases, ◌≡◌, refl, inl, inr, arith, lower_codes,
}
use h_agent_core.Collector.{ModelEvent, reasoning_delta, web_search_completed, floor_boundary}
use h_agent_core.Collector.Texts.{floor_boundary-le, floor_boundary-len}
use h_agent_core.Value.{Value, Numbers, get, get_str, get_list}
use h_agent_core.OpenAi.Events.{
  concat_map, url_citation, bounded_text, text_or, or_null, search_started, search_result,
  append_url_citations, search_ended, append_native_search_events,
}
use h_agent_core.OpenAi.Responses.{
  ThinkingMode, response_completed, response_part, parse_responses_event_for_mode,
}

-- A text that is cut to a limit of at least three bytes is within it, with its dots.
pub bounded_text-le :
    (value : String) (max_bytes : ℕ)
    → 3 ≤ max_bytes
    → byte_len (bounded_text value max_bytes) ≤ max_bytes
unfolding bounded_text
bounded_text-le value max_bytes h =
    let k = floor_boundary value (max_bytes - 3) in
    let e = len-append (slice value 0 k) "..." in
    let f = floor_boundary-len value (max_bytes - 3) in
    let g = floor_boundary-le value (max_bytes - 3) in
    elim (Bool-cases (leb (byte_len value) max_bytes)) [
      | inl c ↦ rw c (ground arith)
      | inr c ↦ rw c (rw e (rw f (ground arith)))
    ]

abbrev pub is_search_completed : {V : Type 0} → ModelEvent V → Bool
is_search_completed e = elim e [ web_search_completed count ↦ true | _ ↦ false ]

abbrev pub is_reasoning : {V : Type 0} → ModelEvent V → Bool
is_reasoning e = elim e [ reasoning_delta text ↦ true | _ ↦ false ]

pub any-append :
    {A : Type 0} (p : A → Bool) (xs ys : List A) → any p (xs ++ ys) ≡ (any p xs || any p ys)
any-append p [] ys = refl
any-append p (x ∷ xs) ys = ground (arith, any-append p xs ys)

any-concat_map :
    {A B : Type 0} (p : B → Bool) (f : A → List B) (xs : List A)
    → ((x : A) → any p (f x) ≡ false)
    → any p (concat_map f xs) ≡ false
any-concat_map p f [] h = refl
any-concat_map p f (x ∷ xs) h =
    ground (arith, any-append p (f x) (concat_map f xs), h x, any-concat_map p f xs h)

any-behind :
    {A : Type 0} (p : A → Bool) (xs ys : List A) → any p ys ≡ true → any p (xs ++ ys) ≡ true
any-behind p xs ys h = ground (arith, any-append p xs ys)

any-before :
    {A : Type 0} (p : A → Bool) (xs ys : List A) → any p xs ≡ true → any p (xs ++ ys) ≡ true
any-before p xs ys h = ground (arith, any-append p xs ys)

module _ {N : Type 0} ⦃n : Numbers N⦄ where
  search_started-no_reasoning :
      (kind : List ℕ) (value item : Value N)
      → any is_reasoning (search_started kind value item) ≡ false
  unfolding search_started
  search_started-no_reasoning kind value item = ground arith

  search_result-no_reasoning : (value : Value N) → any is_reasoning (search_result value) ≡ false
  unfolding search_result
  search_result-no_reasoning value = ground arith

  append_url_citations-no_reasoning :
      (item : Value N) → any is_reasoning (append_url_citations item) ≡ false
  unfolding append_url_citations
  append_url_citations-no_reasoning item =
      any-concat_map is_reasoning _ (get_list item "content") λ content.
        any-concat_map is_reasoning url_citation (take 10 (get_list content "annotations"))
          λ annotation. ground arith

  search_ended-no_reasoning :
      (kind : List ℕ) (value item : Value N)
      → any is_reasoning (search_ended kind value item) ≡ false
  unfolding search_ended
  search_ended-no_reasoning kind value item = ground arith

  pub no_reasoning-append :
      (xs ys : List (ModelEvent (Value N)))
      → any is_reasoning xs ≡ false
      → any is_reasoning ys ≡ false
      → any is_reasoning (xs ++ ys) ≡ false
  no_reasoning-append xs ys h k = ground (arith, any-append is_reasoning xs ys)

  pub append_native_search_events-no_reasoning :
      (value : Value N) → any is_reasoning (append_native_search_events value) ≡ false
  unfolding append_native_search_events
  append_native_search_events-no_reasoning value =
      let kind = lower_codes (text_or "" (get_str value "type")) in
      let item = or_null (get value "item") in
      no_reasoning-append (search_started kind value item) _
        (search_started-no_reasoning kind value item)
        (no_reasoning-append (search_result value) _ (search_result-no_reasoning value) (
          no_reasoning-append (append_url_citations item) (search_ended kind value item)
            (append_url_citations-no_reasoning item) (search_ended-no_reasoning kind value item)))

  search_ended-completed :
      (value item : Value N)
      → any is_search_completed (search_ended (lower_codes "response.completed") value item) ≡ true
  unfolding search_ended lower_code
  search_ended-completed value item = refl

  native-completed :
      (value : Value N)
      → get_str value "type" ≡ some "response.completed"
      → any is_search_completed (append_native_search_events value) ≡ true
  unfolding append_native_search_events
  native-completed value h =
      let kind = lower_codes (text_or "" (get_str value "type")) in
      let item = or_null (get value "item") in
      any-behind is_search_completed (search_started kind value item) _ (
        any-behind is_search_completed (search_result value) _ (
          any-behind is_search_completed (append_url_citations item) (search_ended kind value item)
            (rw h (search_ended-completed value item))))

  -- The end of every response is told as the end of a web search, whether there was one or not.
  pub parse_responses_event_completed :
      (parse : String → Result String (Value N)) (value : Value N) (mode : ThinkingMode)
      (seen : Bool)
      → get_str value "type" ≡ some "response.completed"
      → (events : List (ModelEvent (Value N))) × (parse_responses_event_for_mode parse value mode
            seen
          ≡ (ok events, seen))
        × (any is_search_completed events ≡ true)
  unfolding parse_responses_event_for_mode response_part
  parse_responses_event_completed parse value mode seen h =
      let events = append_native_search_events value in
      (
        events ++ response_completed value,
        rw h refl,
        any-before is_search_completed events (response_completed value) (native-completed value h),
      )
