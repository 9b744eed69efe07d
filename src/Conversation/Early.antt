-- ===== src/Conversation/Early.antt =====
-- `replay_safe_items` (agent.rs): what becomes of an output that stands before its call.
use h_agent_core.Base.{
  String, ◌≡◌, refl, sym, ap, ◌∙◌, inl, inr, Bool, true, false, List, [], ◌∷◌, ◌++◌, Bool-cases,
  str_eq,
}
use mathlib.Core.Bool.{true≢false}
use text.Mathlib.TextEquality.{eq_iff}
use h_agent_core.Protocol.{ToolCall}
use h_agent_core.Conversation.{
  ConversationItem, message, assistant_tool_calls, tool_output, contains, output_ids, call_ids,
  answered, push_calls, push_output, replay_from, replay_safe_items,
}
use h_agent_core.Conversation.Replay.{
  contains-append, first_of_no, second_of_no, second_of_or, true_of_or,
}

-- An id that is known is another than one that is not.
another :
    (known : List String) (i id : String)
    → contains known id ≡ false
    → contains known i ≡ true
    → str_eq i id ≡ false
another known i id k h = elim (Bool-cases (str_eq i id)) [
  | inl e ↦ absurd (true≢false (sym h ∙ ap (contains known) ((eq_iff i id).0 e) ∙ k))
  | inr e ↦ e
]

module _ {V : Type 0} where
  -- The ids of all calls of a history.
  abbrev pub all_calls : List (ConversationItem V) → List String
  all_calls [] = []
  all_calls (assistant_tool_calls calls ∷ is) = call_ids calls ++ all_calls is
  all_calls (_ ∷ is) = all_calls is

  -- Every output of the id stands before the first call of it.
  abbrev pub OutputsEarly : String → List (ConversationItem V) → Type 0
  OutputsEarly id [] = Unit
  OutputsEarly id (assistant_tool_calls calls ∷ is) = elim (contains (call_ids calls) id) [
    | true ↦ contains (output_ids is) id ≡ false
    | false ↦ OutputsEarly id is
  ]
  OutputsEarly id (_ ∷ is) = OutputsEarly id is

  no_output-push_calls :
      (calls : List (ToolCall V)) (rest : List (ConversationItem V)) (id : String)
      → contains (output_ids rest) id ≡ false
      → contains (output_ids (push_calls calls rest)) id ≡ false
  unfolding output_ids
  no_output-push_calls [] rest id h = h
  no_output-push_calls (c ∷ cs) rest id h = h

  no_output-push_output :
      (b : Bool) (i o : String) (rest : List (ConversationItem V)) (id : String)
      → (b ≡ true → str_eq i id ≡ false)
      → contains (output_ids rest) id ≡ false
      → contains (output_ids (push_output b (tool_output i o) rest)) id ≡ false
  unfolding output_ids
  no_output-push_output true i o rest id n h = rw (n refl) h
  no_output-push_output false i o rest id n h = h

  -- Where there is no output of the id, the replay has none.
  replay_from_none :
      (outputs known : List String) (items : List (ConversationItem V)) (id : String)
      → contains (output_ids items) id ≡ false
      → contains (output_ids (replay_from outputs known items)) id ≡ false
  unfolding output_ids replay_from
  replay_from_none outputs known [] id h = h
  replay_from_none outputs known (assistant_tool_calls calls ∷ is) id h =
      no_output-push_calls (answered outputs calls) _ id
        (replay_from_none outputs (known ++ call_ids (answered outputs calls)) is id h)
  replay_from_none outputs known (tool_output i o ∷ is) id h =
      no_output-push_output (contains known i) i o _ id (λ k. first_of_no (str_eq i id) _ h)
        (replay_from_none outputs known is id (second_of_no (str_eq i id) _ h))
  replay_from_none outputs known (message r c ∷ is) id h = replay_from_none outputs known is id h
  replay_from_none outputs known (i ∷ is) id h = replay_from_none outputs known is id h

  not_answered :
      (outputs : List String) (calls : List (ToolCall V)) (id : String)
      → contains (call_ids calls) id ≡ false
      → contains (call_ids (answered outputs calls)) id ≡ false
  not_answered outputs [] id h = h
  not_answered outputs (c ∷ cs) id h =
      let ih = not_answered outputs cs id (second_of_no (str_eq c.id id) _ h) in
      elim (Bool-cases (contains outputs c.id)) [
        | inl e ↦ rw (e, first_of_no (str_eq c.id id) _ h) ih
        | inr e ↦ rw e ih
      ]

  replay_from_early :
      (outputs known : List String) (items : List (ConversationItem V)) (id : String)
      → contains known id ≡ false
      → OutputsEarly id items
      → contains (output_ids (replay_from outputs known items)) id ≡ false
  unfolding output_ids replay_from
  replay_from_early outputs known [] id k h = refl
  replay_from_early outputs known (assistant_tool_calls calls ∷ is) id k h =
      elim (Bool-cases (contains (call_ids calls) id)) [
        | inl e ↦ no_output-push_calls (answered outputs calls) _ id (
            replay_from_none outputs (known ++ call_ids (answered outputs calls)) is id
              (rw (OutputsEarly, e) at h))
        | inr e ↦ no_output-push_calls (answered outputs calls) _ id (
            replay_from_early outputs (known ++ call_ids (answered outputs calls)) is id
              (contains-append known _ id ∙ rw (k, not_answered outputs calls id e) refl)
              (rw (OutputsEarly, e) at h))
      ]
  replay_from_early outputs known (tool_output i o ∷ is) id k h =
      no_output-push_output (contains known i) i o _ id (another known i id k)
        (replay_from_early outputs known is id k h)
  replay_from_early outputs known (message r c ∷ is) id k h =
      replay_from_early outputs known is id k h
  replay_from_early outputs known (i ∷ is) id k h = replay_from_early outputs known is id k h

  answered-keeps :
      (outputs : List String) (calls : List (ToolCall V)) (id : String)
      → contains outputs id ≡ true
      → contains (call_ids calls) id ≡ true
      → contains (call_ids (answered outputs calls)) id ≡ true
  answered-keeps outputs [] id out h = h
  answered-keeps outputs (c ∷ cs) id out h = elim (Bool-cases (str_eq c.id id)) [
    | inl e ↦
        (let here : contains outputs c.id ≡ true =
            ap (contains outputs) ((eq_iff c.id id).0 e) ∙ out in
          rw (here, e) refl)
    | inr e ↦
        (let ih = answered-keeps outputs cs id out (second_of_or (str_eq c.id id) _ e h) in
          elim (Bool-cases (contains outputs c.id)) [
            | inl k ↦ rw k (true_of_or (str_eq c.id id) _ ih)
            | inr k ↦ rw k ih
          ])
  ]

  all_calls-push_calls :
      (calls : List (ToolCall V)) (rest : List (ConversationItem V))
      → all_calls (push_calls calls rest) ≡ call_ids calls ++ all_calls rest
  all_calls-push_calls [] rest = refl
  all_calls-push_calls (c ∷ cs) rest = refl

  all_calls-push_output :
      (b : Bool) (i o : String) (rest : List (ConversationItem V))
      → all_calls (push_output b (tool_output i o) rest) ≡ all_calls rest
  all_calls-push_output true i o rest = refl
  all_calls-push_output false i o rest = refl

  -- A call that has an output anywhere is kept.
  call_kept :
      (outputs known : List String) (items : List (ConversationItem V)) (id : String)
      → contains outputs id ≡ true
      → contains (all_calls items) id ≡ true
      → contains (all_calls (replay_from outputs known items)) id ≡ true
  unfolding replay_from
  call_kept outputs known [] id out h = h
  call_kept outputs known (assistant_tool_calls calls ∷ is) id out h =
      let kept = answered outputs calls in
      let rest = replay_from outputs (known ++ call_ids kept) is in
      let split = sym (contains-append (call_ids calls) (all_calls is) id) ∙ h in
      ap (λ l. contains l id) (all_calls-push_calls kept rest)
      ∙ contains-append (call_ids kept) (all_calls rest) id
      ∙ elim (Bool-cases (contains (call_ids calls) id)) [
        | inl e ↦ rw (answered-keeps outputs calls id out e) refl
        | inr e ↦ true_of_or (contains (call_ids kept) id) _ (
            call_kept outputs (known ++ call_ids kept) is id out
              (second_of_or (contains (call_ids calls) id) _ e split))
      ]
  call_kept outputs known (tool_output i o ∷ is) id out h =
      ap (λ l. contains l id)
        (all_calls-push_output (contains known i) i o (replay_from outputs known is))
      ∙ call_kept outputs known is id out h
  call_kept outputs known (message r c ∷ is) id out h = call_kept outputs known is id out h
  call_kept outputs known (i ∷ is) id out h = call_kept outputs known is id out h

  -- In a history with a call and with outputs of its id, of which every one stands before the first call of this id, the replay keeps the call and has no output of its id.
  pub early_output_unanswered :
      (items : List (ConversationItem V)) (id : String)
      → contains (all_calls items) id ≡ true
      → contains (output_ids items) id ≡ true
      → OutputsEarly id items
      → (contains (all_calls (replay_safe_items items)) id ≡ true)
        × (contains (output_ids (replay_safe_items items)) id ≡ false)
  unfolding replay_safe_items
  early_output_unanswered items id called out early = (
    call_kept (output_ids items) [] items id out called,
    replay_from_early (output_ids items) [] items id refl early,
  )
