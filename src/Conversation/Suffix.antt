-- ===== src/Conversation/Suffix.antt =====
-- The two loops that trim a conversation from its front (session.rs): what they keep is the
-- longest end of the list that they may stop at.
use h_agent_core.Base.{
  ℕ, suc, ◌+◌, ◌≤◌, ◌≡◌, refl, sym, ap, ◌⊎◌, inl, inr, Bool, false, List, [], ◌∷◌, ◌++◌, arith,
  length, length-append, Bool-cases,
}
use h_agent_core.Conversation.{
  ConversationItem, tool_output, starts_with_output, drop_while_over, drop_outputs,
}

-- Of two ends of one list the shorter is an end of the longer.
pub suffix_of_suffix {ℓ} :
    {A : Type ℓ} (p q xs ys : List A)
    → p ++ xs ≡ q ++ ys
    → length xs ≤ length ys
    → (r : List A) × (ys ≡ r ++ xs)
suffix_of_suffix [] [] xs ys e h = ([], sym e)
suffix_of_suffix (x ∷ p) [] xs ys e h = (x ∷ p, sym e)
suffix_of_suffix [] (y ∷ q) xs ys e h = absurd (omega (arith, ap length e, length-append q ys))
suffix_of_suffix (x ∷ p) (y ∷ q) xs ys e h = suffix_of_suffix p q xs ys (cc) h

module _ {V : Type 0} (over : List (ConversationItem V) → Bool) where
  pub drop_while_over_split :
      (items : List (ConversationItem V)) (removed : ℕ)
      → (gone : List (ConversationItem V)) × (items
          ≡ gone ++ (drop_while_over over items removed).0)
        × ((drop_while_over over items removed).1 ≡ removed + length gone)
  unfolding drop_while_over
  drop_while_over_split [] removed = ([], refl, omega arith)
  drop_while_over_split (i ∷ is) removed = elim (Bool-cases (over (i ∷ is))) [
    | inl o ↦
        let (gone, split, count) = drop_while_over_split is (suc removed) in
        rw o (i ∷ gone, ap (λ t. i ∷ t) split, omega (arith, count))
    | inr o ↦ rw o ([], refl, omega arith)
  ]

  pub drop_while_over_ends :
      (items : List (ConversationItem V)) (removed : ℕ)
      → ((drop_while_over over items removed).0 ≡ [])
        ⊎ (over (drop_while_over over items removed).0 ≡ false)
  unfolding drop_while_over
  drop_while_over_ends [] removed = inl refl
  drop_while_over_ends (i ∷ is) removed = elim (Bool-cases (over (i ∷ is))) [
    | inl o ↦ rw o (drop_while_over_ends is (suc removed))
    | inr o ↦ rw o (inr o)
  ]

  pub drop_while_over_longest :
      (pre suf : List (ConversationItem V)) (removed : ℕ)
      → over suf ≡ false
      → length suf ≤ length (drop_while_over over (pre ++ suf) removed).0
  unfolding drop_while_over
  drop_while_over_longest [] [] removed h = omega arith
  drop_while_over_longest [] (s ∷ suf) removed h = rw h (omega arith)
  drop_while_over_longest (p ∷ pre) suf removed h = elim (Bool-cases (over (p ∷ pre ++ suf))) [
    | inl o ↦ rw o (drop_while_over_longest pre suf (suc removed) h)
    | inr o ↦ rw o (omega (arith, length-append pre suf))
  ]

module _ {V : Type 0} where
  pub drop_outputs_split :
      (items : List (ConversationItem V)) (removed : ℕ)
      → (gone : List (ConversationItem V)) × (items ≡ gone ++ (drop_outputs items removed).0)
        × ((drop_outputs items removed).1 ≡ removed + length gone)
  unfolding drop_outputs
  drop_outputs_split [] removed = ([], refl, omega arith)
  drop_outputs_split (tool_output c o ∷ is) removed =
      let (gone, split, count) = drop_outputs_split is (suc removed) in
      (tool_output c o ∷ gone, ap (λ t. tool_output c o ∷ t) split, omega (arith, count))
  drop_outputs_split (i ∷ is) removed = ([], refl, omega arith)

  pub drop_outputs_clean :
      (items : List (ConversationItem V)) (removed : ℕ)
      → starts_with_output (drop_outputs items removed).0 ≡ false
  unfolding drop_outputs
  drop_outputs_clean [] removed = refl
  drop_outputs_clean (tool_output c o ∷ is) removed = drop_outputs_clean is (suc removed)
  drop_outputs_clean (i ∷ is) removed = refl

  pub drop_outputs_longest :
      (pre suf : List (ConversationItem V)) (removed : ℕ)
      → starts_with_output suf ≡ false
      → length suf ≤ length (drop_outputs (pre ++ suf) removed).0
  unfolding drop_outputs
  drop_outputs_longest [] [] removed h = omega arith
  drop_outputs_longest [] (tool_output c o ∷ suf) removed h = cc
  drop_outputs_longest [] (s ∷ suf) removed h = omega arith
  drop_outputs_longest (tool_output c o ∷ pre) suf removed h =
      drop_outputs_longest pre suf (suc removed) h
  drop_outputs_longest (p ∷ pre) suf removed h = omega (arith, length-append pre suf)
