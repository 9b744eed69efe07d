-- ===== src/Conversation/Replay.antt =====
-- `replay_safe_items` (agent.rs): the calls and outputs of a history that is sent again are paired.
use h_agent_core.Base.{
  String, ◌≡◌, refl, inl, inr, Bool, true, false, ◌||◌, List, [], ◌∷◌, ◌++◌, arith, Bool-cases,
  append-nil, append_assoc, All, str_eq,
}
use text.Mathlib.TextEquality.{eq_iff}
use text.Mathlib.TextPositions.{eq_refl}
use h_agent_core.Protocol.{ToolCall}
use h_agent_core.Conversation.{
  ConversationItem, message, assistant_tool_calls, tool_output, contains, output_ids, call_ids,
  answered, push_calls, push_output, replay_from, replay_safe_items,
}

pub contains-append :
    (xs ys : List String) (id : String)
    → contains (xs ++ ys) id ≡ (contains xs id || contains ys id)
contains-append [] ys id = refl
contains-append (x ∷ xs) ys id = assoc (str_eq x id) (contains xs id) _ _ (contains-append xs ys id)
  where
    assoc : (a b c d : Bool) → d ≡ (b || c) → (a || d) ≡ ((a || b) || c)
    assoc a b c d h = ground arith

contains-known :
    (known more : List String) (id : String)
    → contains known id ≡ true
    → contains (known ++ more) id ≡ true
contains-known known more id h = rw (contains-append known more id, h)

-- Where one of two tests holds and the first does not, the second does.
pub second_of_or : (a b : Bool) → a ≡ false → (a || b) ≡ true → b ≡ true
second_of_or a b h k = ground arith

pub first_of_no : (a b : Bool) → (a || b) ≡ false → a ≡ false
first_of_no a b h = ground arith

pub second_of_no : (a b : Bool) → (a || b) ≡ false → b ≡ false
second_of_no a b h = ground arith

pub true_of_or : (a b : Bool) → b ≡ true → (a || b) ≡ true
true_of_or a b h = ground arith

module _ {V : Type 0} where
  -- Every output follows a call with its id, one of `known` or one in the list.
  abbrev pub OutputsKnown : List String → List (ConversationItem V) → Type 0
  OutputsKnown known [] = Unit
  OutputsKnown known (assistant_tool_calls calls ∷ is) = OutputsKnown (known ++ call_ids calls) is
  OutputsKnown known (tool_output id output ∷ is) =
      (contains known id ≡ true) × OutputsKnown known is
  OutputsKnown known (_ ∷ is) = OutputsKnown known is

  -- Every call is followed by an output with its id.
  abbrev pub CallsAnswered : List (ConversationItem V) → Type 0
  CallsAnswered [] = Unit
  CallsAnswered (assistant_tool_calls calls ∷ is) =
      All (λ c. contains (output_ids is) c.id ≡ true) calls × CallsAnswered is
  CallsAnswered (_ ∷ is) = CallsAnswered is

  -- No output comes before a call with its id; `seen` are the outputs so far.
  abbrev pub CallsFirst : List String → List (ConversationItem V) → Type 0
  CallsFirst seen [] = Unit
  CallsFirst seen (assistant_tool_calls calls ∷ is) =
      All (λ c. contains seen c.id ≡ false) calls × CallsFirst seen is
  CallsFirst seen (tool_output id output ∷ is) = CallsFirst (id ∷ seen) is
  CallsFirst seen (_ ∷ is) = CallsFirst seen is

  push_calls-known :
      (known : List String) (calls : List (ToolCall V)) (rest : List (ConversationItem V))
      → OutputsKnown (known ++ call_ids calls) rest
      → OutputsKnown known (push_calls calls rest)
  push_calls-known known [] rest h = rw (append-nil known) at h
  push_calls-known known (c ∷ cs) rest h = h

  replay_from-known :
      (outputs known : List String) (items : List (ConversationItem V))
      → OutputsKnown known (replay_from outputs known items)
  unfolding replay_from
  replay_from-known outputs known [] = tt
  replay_from-known outputs known (assistant_tool_calls calls ∷ is) =
      push_calls-known known (answered outputs calls) _
        (replay_from-known outputs (known ++ call_ids (answered outputs calls)) is)
  replay_from-known outputs known (tool_output id output ∷ is) =
      elim (Bool-cases (contains known id)) [
        | inl k ↦ rw k (k, replay_from-known outputs known is)
        | inr k ↦ rw k (replay_from-known outputs known is)
      ]
  replay_from-known outputs known (message r c ∷ is) = replay_from-known outputs known is
  replay_from-known outputs known (i ∷ is) = replay_from-known outputs known is

  -- Whatever the history, no output in the replay stands without a call before it.
  pub replay_safe_items-OutputsKnown :
      (items : List (ConversationItem V)) → OutputsKnown [] (replay_safe_items items)
  unfolding replay_safe_items
  replay_safe_items-OutputsKnown items = replay_from-known (output_ids items) [] items

  output_ids-push_calls :
      (calls : List (ToolCall V)) (rest : List (ConversationItem V))
      → output_ids (push_calls calls rest) ≡ output_ids rest
  unfolding output_ids
  output_ids-push_calls [] rest = refl
  output_ids-push_calls (c ∷ cs) rest = refl

  pushed :
      (b : Bool) (i o : String) (rest : List (ConversationItem V)) (id : String)
      → contains (output_ids rest) id ≡ true
      → contains (output_ids (push_output b (tool_output i o) rest)) id ≡ true
  unfolding output_ids
  pushed true i o rest id h = true_of_or _ _ h
  pushed false i o rest id h = h

  -- An output of a known call is kept.
  output_kept :
      (outputs known : List String) (items : List (ConversationItem V)) (id : String)
      → contains known id ≡ true
      → contains (output_ids items) id ≡ true
      → contains (output_ids (replay_from outputs known items)) id ≡ true
  unfolding output_ids replay_from
  output_kept outputs known [] id k h = h
  output_kept outputs known (assistant_tool_calls calls ∷ is) id k h =
      rw
        (output_ids-push_calls (answered outputs calls)
          (replay_from outputs (known ++ call_ids (answered outputs calls)) is))
        (output_kept outputs (known ++ call_ids (answered outputs calls)) is id
          (contains-known known _ id k) h)
  output_kept outputs known (tool_output i o ∷ is) id k h = elim (Bool-cases (str_eq i id)) [
    | inl same ↦ let e : contains known i ≡ true = rw ((eq_iff i id).0 same) k in rw (e, same)
    | inr other ↦
        pushed (contains known i) i o _ id
          (output_kept outputs known is id k (second_of_or _ _ other h))
  ]
  output_kept outputs known (message r c ∷ is) id k h = output_kept outputs known is id k h
  output_kept outputs known (i ∷ is) id k h = output_kept outputs known is id k h

  -- A call is among the known ones once it is pushed.
  known_self :
      (known : List String) (calls : List (ToolCall V))
      → All (λ c. contains (known ++ call_ids calls) c.id ≡ true) calls
  known_self known [] = tt
  known_self known (c ∷ cs) = (
    rw (contains-append known (c.id ∷ call_ids cs) c.id, eq_refl c.id) (ground arith),
    rw (append_assoc known (c.id ∷ []) (call_ids cs)) at (known_self (known ++ c.id ∷ []) cs),
  )

  push_calls-answered :
      (calls : List (ToolCall V)) (rest : List (ConversationItem V))
      → All (λ c. contains (output_ids rest) c.id ≡ true) calls
      → CallsAnswered rest
      → CallsAnswered (push_calls calls rest)
  push_calls-answered [] rest h k = k
  push_calls-answered (c ∷ cs) rest h k = (h, k)

  kept_answered :
      (outputs seen known : List String) (calls : List (ToolCall V))
      (items : List (ConversationItem V))
      → ((id : String)
          → contains outputs id ≡ true
          → contains seen id ≡ false
          → contains (output_ids items) id ≡ true)
      → All (λ c. contains seen c.id ≡ false) calls
      → All (λ c. contains known c.id ≡ true) (answered outputs calls)
      → All
          (λ c. contains (output_ids (replay_from outputs known items)) c.id ≡ true)
          (answered outputs calls)
  kept_answered outputs seen known [] items h first k = tt
  kept_answered outputs seen known (c ∷ cs) items h (new, first) k =
      elim (Bool-cases (contains outputs c.id)) [
        | inl out ↦
            let (here, later) =
              let both : All (λ c. contains known c.id ≡ true) (c ∷ answered outputs cs) =
                rw out at k in
              both in
            rw out (
              output_kept outputs known items c.id here (h c.id out new),
              kept_answered outputs seen known cs items h first later,
            )
        | inr gone ↦ rw gone (kept_answered outputs seen known cs items h first (rw gone at k))
      ]

  push_output-answered :
      (b : Bool) (i o : String) (rest : List (ConversationItem V))
      → CallsAnswered rest
      → CallsAnswered (push_output b (tool_output i o) rest)
  push_output-answered true i o rest h = h
  push_output-answered false i o rest h = h

  answered_later :
      (outputs seen known : List String) (items : List (ConversationItem V))
      → ((id : String)
          → contains outputs id ≡ true
          → contains seen id ≡ false
          → contains (output_ids items) id ≡ true)
      → CallsFirst seen items
      → CallsAnswered (replay_from outputs known items)
  unfolding output_ids replay_from
  answered_later outputs seen known [] h k = tt
  answered_later outputs seen known (assistant_tool_calls calls ∷ is) h (first, k) =
      let kept = answered outputs calls in
      push_calls-answered kept _
        (kept_answered outputs seen (known ++ call_ids kept) calls is h first
          (known_self known kept))
        (answered_later outputs seen (known ++ call_ids kept) is h k)
  answered_later outputs seen known (tool_output i o ∷ is) h k =
      let rest =
        answered_later outputs (i ∷ seen) known is
          (λ id out new.
            second_of_or (str_eq i id) _ (first_of_no _ _ new) (h id out (second_of_no _ _ new)))
          k in
      push_output-answered (contains known i) i o _ rest
  answered_later outputs seen known (message r c ∷ is) h k =
      answered_later outputs seen known is h k
  answered_later outputs seen known (i ∷ is) h k = answered_later outputs seen known is h k

  -- Where no output comes before a call with its id, every call in the replay is answered by an
  -- output behind it.
  pub replay_safe_items-CallsAnswered :
      (items : List (ConversationItem V))
      → CallsFirst [] items
      → CallsAnswered (replay_safe_items items)
  unfolding replay_safe_items
  replay_safe_items-CallsAnswered items h =
      answered_later (output_ids items) [] [] items (λ id out new. out) h
