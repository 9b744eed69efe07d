-- ===== src/OpenAi/Noted.antt =====
-- provider/openai.rs: that reading a part of a response which tells of reasoning notes it.
use h_agent_core.Base.{
  String, Bool, true, false, not, ◌||◌, List, [], ◌∷◌, none, Result, ok, err, if◌then◌else◌, any,
  ◌≡◌, refl, arith, str_eq, ◌>>=◌,
}
use h_agent_core.Provider.{ProviderError}
use h_agent_core.Collector.{ModelEvent, tool_call_delta, text_delta, response_id}
use h_agent_core.Value.{Value, Numbers, null, get_str, as_str}
use h_agent_core.OpenAi.Events.{filtered, not_empty, text_or, when_some, pointer}
use h_agent_core.OpenAi.Responses.{
  ThinkingMode, Read, response_slot, response_completed, response_part, behind, reasoning_part,
  call_added, takes_summary, takes_reasoning,
}
use h_agent_core.OpenAi.Reasoning.{is_reasoning, any-append}

if-both :
    {A : Type 0} (p : A → Bool) (c : Bool) (a b : A)
    → p a ≡ true
    → p b ≡ true
    → p (if c then a else b) ≡ true
if-both p c a b h k = ground arith

abbrev pub done_kind : String
done_kind = "response.output_item.done"

module _ {N : Type 0} ⦃n : Numbers N⦄ where
  -- A read that tells of reasoning has noted that it was seen.
  unfoldable pub notes : Read N → Bool
  notes (ok events, seen) = not (any is_reasoning events) || seen
  notes (err e, seen) = true

  unfoldable pub has_seen : Read N → Bool
  has_seen (r, seen) = seen

  reasoning_part-notes :
      (takes : Bool) (value : Value N) (seen : Bool)
      → notes (reasoning_part takes value seen) ≡ true
  unfolding notes
  reasoning_part-notes takes value seen = ground arith

  reasoning_part-has_seen :
      (takes : Bool) (value : Value N) → has_seen (reasoning_part takes value true) ≡ true
  unfolding has_seen
  reasoning_part-has_seen takes value = ground arith

  response_completed-no_reasoning :
      (value : Value N) → any is_reasoning (response_completed value) ≡ false
  unfolding response_completed
  response_completed-no_reasoning value = ground arith

  pub notes-behind :
      (events : List (ModelEvent (Value N))) (r : Read N)
      → any is_reasoning events ≡ false
      → notes r ≡ true
      → notes (behind events r) ≡ true
  unfolding notes
  notes-behind events (ok more, seen) h k = ground (arith, any-append is_reasoning events more)
  notes-behind events (err e, seen) h k = refl

  pub has_seen-behind :
      (events : List (ModelEvent (Value N))) (r : Read N) → has_seen (behind events r) ≡ has_seen r
  unfolding has_seen
  has_seen-behind events (ok more, seen) = refl
  has_seen-behind events (err e, seen) = refl

  call_added-no_reasoning :
      (value item : Value N) → any is_reasoning (call_added value item) ≡ false
  call_added-no_reasoning value item = ground arith

  notes-quiet :
      (events : List (ModelEvent (Value N))) (seen : Bool)
      → any is_reasoning events ≡ false
      → notes (ok events, seen) ≡ true
  unfolding notes
  notes-quiet events seen h = rw h refl

  created-notes :
      (value : Value N) (seen : Bool)
      → notes (
        ok (when_some (pointer value "response" "id" >>= as_str) (λ id. response_id id ∷ [])),
        seen,
      )
        ≡ true
  created-notes value seen = notes-quiet _ seen (ground arith)

  text-notes :
      (value : Value N) (seen : Bool)
      → notes (
        ok (when_some (filtered not_empty (get_str value "delta")) (λ text. text_delta text ∷ [])),
        seen,
      )
        ≡ true
  text-notes value seen = notes-quiet _ seen (ground arith)

  added-notes :
      (value item : Value N) (seen : Bool) → notes (ok (call_added value item), seen) ≡ true
  added-notes value item seen = notes-quiet _ seen (call_added-no_reasoning value item)

  completed-notes :
      (value : Value N) (seen : Bool) → notes (ok (response_completed value), seen) ≡ true
  completed-notes value seen = notes-quiet _ seen (response_completed-no_reasoning value)

  if-has_seen :
      (c : Bool) (a b : Read N)
      → has_seen a ≡ true
      → has_seen b ≡ true
      → has_seen (if c then a else b) ≡ true
  if-has_seen c a b h k = if-both has_seen c a b h k

  if-notes :
      (c : Bool) (a b : Read N)
      → notes a ≡ true
      → notes b ≡ true
      → notes (if c then a else b) ≡ true
  if-notes c a b h k = if-both notes c a b h k

  abbrev failed : Value N → ProviderError → Bool → Read N
  failed value e seen = (err e, seen)

  notes-err :
      (value : Value N) (e : ProviderError) (seen : Bool) → notes (failed value e seen) ≡ true
  unfolding notes
  notes-err value e seen = refl

  notes-call :
      (value : Value N) (seen : Bool)
      → notes (
        ok (
            tool_call_delta
              (response_slot value null)
              none
              none
              (text_or "" (get_str value "delta"))
            ∷ []),
        seen,
      )
        ≡ true
  notes-call value seen = notes-quiet _ seen refl

  seen_read : (r : Result ProviderError (List (ModelEvent (Value N)))) → has_seen (r, true) ≡ true
  unfolding has_seen
  seen_read r = refl

  if-not_done :
      (kind : String)
      → str_eq kind done_kind ≡ false
      → (a b : Read N) → notes b ≡ true
      → notes (if str_eq kind done_kind then a else b) ≡ true
  if-not_done kind h a b k = rw h k

  pub response_part-notes :
      (parse : String → Result String (Value N)) (kind : String) (value : Value N)
      (mode : ThinkingMode) (seen : Bool)
      → str_eq kind done_kind ≡ false
      → notes (response_part parse kind value mode seen) ≡ true
  unfolding response_part
  response_part-notes parse kind value mode seen h =
      search
        (
          if-not_done kind h,
          if-notes,
          notes-err value,
          notes-call value seen,
          notes-quiet [] seen refl,
          created-notes value seen,
          text-notes value seen,
          reasoning_part-notes (takes_summary mode) value seen,
          reasoning_part-notes (takes_reasoning mode) value seen,
          added-notes,
          completed-notes value seen,
        )
        depth 15

  pub response_part-has_seen :
      (parse : String → Result String (Value N)) (kind : String) (value : Value N)
      (mode : ThinkingMode)
      → has_seen (response_part parse kind value mode true) ≡ true
  unfolding response_part
  response_part-has_seen parse kind value mode =
      search
        (
          if-has_seen,
          seen_read,
          reasoning_part-has_seen (takes_summary mode) value,
          reasoning_part-has_seen (takes_reasoning mode) value,
        )
        depth 15
