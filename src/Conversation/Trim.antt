-- ===== src/Conversation/Trim.antt =====
-- What the trims of session.rs keep of a conversation.
use h_agent_core.Base.{
  ℕ, ◌+◌, ◌≤◌, ◌≡◌, sym, ap, ◌∙◌, ◌⊎◌, inl, inr, Bool, false, List, [], ◌∷◌, ◌++◌, arith, length,
  length-append, append_assoc, le→ltb,
}
use h_agent_core.Protocol.{Json}
use h_agent_core.Conversation.{
  ConversationItem, starts_with_output, drop_while_over, trim_with, insert_note, conversation_bytes,
  over_bounds, over_budget, bounded_note, budget_note, estimate_context_tokens,
  trim_conversation_bounded, trim_conversation_to_budget,
}
use h_agent_core.Conversation.Suffix.{
  suffix_of_suffix, drop_while_over_split, drop_while_over_ends, drop_while_over_longest,
  drop_outputs_split, drop_outputs_clean, drop_outputs_longest,
}

module _ {V : Type 0} (over : List (ConversationItem V) → Bool)
    (items : List (ConversationItem V)) where
  -- The first loop's end of the items, and then the second loop's.
  abbrev fitting : List (ConversationItem V) × ℕ
  fitting = drop_while_over over items 0

  trim_with_split :
      (gone : List (ConversationItem V)) × (items ≡ gone ++ (trim_with over items).0)
      × ((trim_with over items).1 ≡ length gone)
  trim_with_split =
      let (g, split, count) = drop_while_over_split over items 0 in
      let (h, split', count') = drop_outputs_split fitting.0 fitting.1 in
      (
        g ++ h,
        split ∙ ap (λ t. g ++ t) split' ∙ sym (append_assoc g h _),
        omega (arith, count, count', length-append g h),
      )

  trim_with_end : (h : List (ConversationItem V)) × (fitting.0 ≡ h ++ (trim_with over items).0)
  trim_with_end = let (h, split, _) = drop_outputs_split fitting.0 fitting.1 in (h, split)

  trim_with_longest :
      (pre suf : List (ConversationItem V))
      → items ≡ pre ++ suf
      → over suf ≡ false
      → starts_with_output suf ≡ false
      → length suf ≤ length (trim_with over items).0
  trim_with_longest pre suf e o c =
      let (g, split, _) = drop_while_over_split over items 0 in
      let fits : length suf ≤ length fitting.0 = rw e (drop_while_over_longest over pre suf 0 o) in
      let (r, inside) = suffix_of_suffix pre g suf fitting.0 (sym e ∙ split) fits in
      rw inside (drop_outputs_longest r suf fitting.1 c)

module _ {V : Type 0} ⦃j : Json V⦄ where
  conversation_bytes-append :
      (xs ys : List (ConversationItem V))
      → conversation_bytes (xs ++ ys) ≡ conversation_bytes xs + conversation_bytes ys
  unfolding conversation_bytes
  conversation_bytes-append [] ys = omega arith
  conversation_bytes-append (x ∷ xs) ys = omega (arith, conversation_bytes-append xs ys)

  -- What a trim to `max_items` items and `max_bytes` bytes has to give: an end of the conversation,
  -- behind a note of how many items are gone if any are. The end meets both limits, begins with no
  -- tool output (whose call would be gone), and is the longest one that does so.
  pub record IsBounded (max_items max_bytes : ℕ) (items result : List (ConversationItem V))
      : Type 0 where
    pub gone : List (ConversationItem V)
    pub kept : List (ConversationItem V)
    pub split : items ≡ gone ++ kept
    pub noted : result ≡ insert_note bounded_note (kept, length gone)
    pub clean : starts_with_output kept ≡ false
    pub few : length kept ≤ max_items
    pub small : conversation_bytes kept ≤ max_bytes
    pub longest :
        (pre suf : List (ConversationItem V))
        → items ≡ pre ++ suf
        → length suf ≤ max_items
        → conversation_bytes suf ≤ max_bytes
        → starts_with_output suf ≡ false
        → length suf ≤ length kept

  within_bounds :
      (max_items max_bytes : ℕ) (items : List (ConversationItem V))
      → (items ≡ []) ⊎ (over_bounds max_items max_bytes items ≡ false)
      → (length items ≤ max_items) × (conversation_bytes items ≤ max_bytes)
  unfolding conversation_bytes
  within_bounds max_items max_bytes [] h = omega arith
  within_bounds max_items max_bytes (i ∷ is) (inl h) = cc
  within_bounds max_items max_bytes (i ∷ is) (inr h) = (ground arith, ground arith)

  -- For every conversation and all limits, what `trim_conversation_bounded` keeps is the longest
  -- end of the items that is within both limits and does not begin with a tool's output; a note
  -- of how many items went before it is put in front if any did.
  pub trim_conversation_bounded-IsBounded :
      (items : List (ConversationItem V)) (max_items max_bytes : ℕ)
      → IsBounded max_items max_bytes items (trim_conversation_bounded items max_items max_bytes)
  unfolding trim_conversation_bounded
  trim_conversation_bounded-IsBounded items max_items max_bytes =
      let over = over_bounds max_items max_bytes in
      let (gone, split, count) = trim_with_split over items in
      let (h, inside) = trim_with_end over items in
      let (few, small) =
        within_bounds max_items max_bytes (drop_while_over over items 0).0
          (drop_while_over_ends over items 0) in
      record {
        gone = gone;
        kept = (trim_with over items).0;
        split = split;
        noted = ap (λ n. insert_note bounded_note ((trim_with over items).0, n)) count;
        clean =
            drop_outputs_clean (drop_while_over over items 0).0 (drop_while_over over items 0).1;
        few = omega (arith, ap length inside, length-append h (trim_with over items).0);
        small = omega (
          arith,
          ap conversation_bytes inside,
          conversation_bytes-append h (trim_with over items).0,
        );
        longest = λ pre suf e n b c.
            trim_with_longest over items pre suf e (rw (le→ltb _ _ n, le→ltb _ _ b)) c;
      }

  -- The same for a budget of tokens, by the program's own estimate. Nothing is kept if not even
  -- the last items fit.
  pub record IsInBudget (budget : ℕ) (items : List (ConversationItem V))
      (result : List (ConversationItem V) × ℕ) : Type 0 where
    pub gone : List (ConversationItem V)
    pub kept : List (ConversationItem V)
    pub split : items ≡ gone ++ kept
    pub noted : result.0 ≡ insert_note budget_note (kept, length gone)
    pub counted : result.1 ≡ length gone
    pub clean : starts_with_output kept ≡ false
    pub affordable : (kept ≡ []) ⊎ (estimate_context_tokens kept ≤ budget)
    pub longest :
        (pre suf : List (ConversationItem V))
        → items ≡ pre ++ suf
        → estimate_context_tokens suf ≤ budget
        → starts_with_output suf ≡ false
        → length suf ≤ length kept

  estimate_mono :
      (xs ys : List (ConversationItem V))
      → conversation_bytes ys ≤ conversation_bytes xs
      → estimate_context_tokens ys ≤ estimate_context_tokens xs
  unfolding estimate_context_tokens
  estimate_mono xs ys h = ground arith

  not_over :
      (budget : ℕ) (items : List (ConversationItem V))
      → estimate_context_tokens items ≤ budget
      → over_budget budget items ≡ false
  not_over budget items h = ground arith

  nil_of_append : (xs ys : List (ConversationItem V)) → xs ++ ys ≡ [] → ys ≡ []
  nil_of_append [] ys h = h
  nil_of_append (x ∷ xs) ys h = cc

  end_affordable :
      (budget : ℕ) (h kept fits : List (ConversationItem V))
      → fits ≡ h ++ kept
      → (fits ≡ []) ⊎ (over_budget budget fits ≡ false)
      → (kept ≡ []) ⊎ (estimate_context_tokens kept ≤ budget)
  end_affordable budget h kept fits e (inl empty) = inl (nil_of_append h kept (sym e ∙ empty))
  end_affordable budget h kept fits e (inr cheap) =
      let small =
        estimate_mono fits kept
          (omega (arith, ap conversation_bytes e, conversation_bytes-append h kept)) in
      inr (ground (arith, small))

  -- For every conversation and budget, what `trim_conversation_to_budget` keeps is nothing, or an
  -- end of the items that the program's own estimate puts within the budget; it does not begin
  -- with a tool's output and no such end within the budget is longer. The number of items that
  -- went is returned, and noted in front if it is not zero.
  pub trim_conversation_to_budget-IsInBudget :
      (items : List (ConversationItem V)) (budget : ℕ)
      → IsInBudget budget items (trim_conversation_to_budget items budget)
  unfolding trim_conversation_to_budget
  trim_conversation_to_budget-IsInBudget items budget =
      let over = over_budget budget in
      let (gone, split, count) = trim_with_split over items in
      let (h, inside) = trim_with_end over items in
      record {
        gone = gone;
        kept = (trim_with over items).0;
        split = split;
        noted = ap (λ n. insert_note budget_note ((trim_with over items).0, n)) count;
        counted = count;
        clean =
            drop_outputs_clean (drop_while_over over items 0).0 (drop_while_over over items 0).1;
        affordable =
            end_affordable budget h (trim_with over items).0 (drop_while_over over items 0).0 inside
              (drop_while_over_ends over items 0);
        longest = λ pre suf e b c. trim_with_longest over items pre suf e (not_over budget suf b) c;
      }
