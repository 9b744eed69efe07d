-- ===== src/Conversation/Meter.antt =====
-- The context meter: `estimate_used_tokens` (session.rs).
use h_agent_core.Base.{
  ℕ, ◌≤◌, ◌<◌, ◌≡◌, ap, true, List, [], ◌∷◌, none, some, arith, leb, length, drop, drop-all,
  saturating_add, u64_max,
}
use h_agent_core.Protocol.{Json}
use h_agent_core.Conversation.{ConversationItem, UsageAnchor, F64, estimate_used_tokens, anchored}

saturates : (a b : ℕ) → a ≤ u64_max → a ≤ saturating_add a b
saturates a b h = ground arith

module _ {V F : Type 0} ⦃j : Json V⦄ ⦃f : F64 F⦄ where
  anchored-le :
      (anchor : UsageAnchor) (rest : List (ConversationItem V)) (calibration : F)
      → anchor.real_input ≤ u64_max
      → anchor.real_input ≤ anchored anchor rest calibration
  anchored-le anchor [] calibration h = omega arith
  anchored-le anchor (i ∷ is) calibration h = saturates anchor.real_input _ h

  -- While an anchor still addresses a prefix of the conversation and its usage is a number of
  -- `u64`, the meter never falls below that usage, and it is that usage when nothing was appended
  -- behind the prefix.
  pub estimate_used_tokens_anchored :
      (anchor : UsageAnchor) (items : List (ConversationItem V)) (calibration : F)
      → anchor.at_len ≤ length items
      → anchor.real_input ≤ u64_max
      → (anchor.real_input ≤ estimate_used_tokens (some anchor) items calibration)
        × (length items ≡ anchor.at_len
            → estimate_used_tokens (some anchor) items calibration ≡ anchor.real_input)
  unfolding estimate_used_tokens
  estimate_used_tokens_anchored anchor items calibration e h =
      let fits : leb anchor.at_len (length items) ≡ true = ground arith in
      rw fits (
        anchored-le anchor (drop anchor.at_len items) calibration h,
        λ all.
            ap (λ rest. anchored anchor rest calibration)
              (drop-all anchor.at_len items (omega arith)),
      )

  -- An anchor that no longer fits the conversation counts for nothing.
  pub estimate_used_tokens_stale :
      (anchor : UsageAnchor) (items : List (ConversationItem V)) (calibration : F)
      → length items < anchor.at_len
      → estimate_used_tokens (some anchor) items calibration
        ≡ estimate_used_tokens none items calibration
  unfolding estimate_used_tokens
  estimate_used_tokens_stale anchor items calibration h = ground arith
