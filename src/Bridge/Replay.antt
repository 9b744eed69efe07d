-- ===== src/Bridge/Replay.antt =====
-- The readers of the ring in bridge.rs, against the history of all events.
use h_agent_core.Base.{
  ℕ, suc, ◌+◌, ◌-◌, ◌≤◌, ◌<◌, ◌≡◌, refl, sym, ap, ◌∙◌, inl, inr, true, ◌&&◌, List, [], ◌∷◌, ◌++◌,
  arith, ltb, length, length-append, Bool-cases, u64_add, u64_max, drop, drop-nil, take, take-nil,
  drop-append, filter, max, none, some, if◌then◌else◌, lt→ltb, ltb→lt, ltb→le,
}
use mathlib.Core.Path.{◌≡⟨◌⟩◌, ◌∎, ap₂}
use h_agent_core.Protocol.{Json, Envelope}
use h_agent_core.Bridge.{
  EventBridge, replay, resync, newer, replay_events, replay_after, boundary_events,
  boundary_snapshot, batch_events, events_after,
}
use h_agent_core.Bridge.History.{IsNumbered, Represents}

module _ {V : Type 0} where
  pub newer-eq-drop :
      (n after : ℕ) (es : List (Envelope V))
      → IsNumbered n es
      → newer after es ≡ drop (after - n) es
  newer-eq-drop n after [] h = sym (drop-nil (after - n))
  newer-eq-drop n after (e ∷ es) (c, h) = elim (Bool-cases (ltb after e.cursor)) [
    | inl new ↦
        let p : after - n ≡ 0 = omega (arith, ltb→lt after e.cursor new) in
        let q : after - suc n ≡ 0 = omega (arith, ltb→lt after e.cursor new) in
        rw (new, p) (ap (λ t. e ∷ t) (rw q at (newer-eq-drop (suc n) after es h)))
    | inr old ↦
        let p : after - n ≡ suc (after - suc n) = omega (arith, ltb→le after e.cursor old) in
        rw (old, p) (newer-eq-drop (suc n) after es h)
  ]

  pub newer-history :
      (after : ℕ) (es : List (Envelope V)) → IsNumbered 0 es → newer after es ≡ drop after es
  newer-history after es h =
      let e : after - 0 ≡ after = omega arith in rw e at (newer-eq-drop 0 after es h)

  pub IsNumbered-suffix :
      (n : ℕ) (xs ys : List (Envelope V)) → IsNumbered n (xs ++ ys) → IsNumbered (n + length xs) ys
  IsNumbered-suffix n [] ys h = let e : n + 0 ≡ n = omega arith in rw e h
  IsNumbered-suffix n (x ∷ xs) ys (_, h) =
      let e : n + length (x ∷ xs) ≡ suc n + length xs = omega arith in
      rw e (IsNumbered-suffix (suc n) xs ys h)

  -- The upper test of `subscribe_from` passes every event up to the last cursor.
  pub below_boundary :
      (n after last : ℕ) (es : List (Envelope V))
      → IsNumbered n es
      → n + length es ≤ last
      → last < u64_max
      → filter (λ e. ltb after e.cursor && ltb e.cursor (u64_add last 1)) es ≡ newer after es
  below_boundary n after last [] h k m = refl
  below_boundary n after last (e ∷ es) (c, h) k m =
      let p : ltb e.cursor (u64_add last 1) ≡ true = lt→ltb _ _ (omega arith) in
      ground (arith, below_boundary (suc n) after last es h, p)

  -- The three ways in which a reader decides on a resync, over `k` events gone.
  module _ (k last after : ℕ) where
    replay_events_lem :
        (es : List (Envelope V))
        → IsNumbered k es
        → last ≡ k + length es
        → last ≤ u64_max
        → replay_events last after es ≡ (if ltb after k then resync else replay (newer after es))
    unfolding replay_events
    replay_events_lem [] h p m = let e : last ≡ k = omega arith in rw e
    replay_events_lem (e ∷ es) (c, h) p m = rw c (ground arith)

    boundary_events_lem :
        (es : List (Envelope V))
        → IsNumbered k es
        → last ≡ k + length es
        → last < u64_max
        → boundary_events last after es ≡ (if ltb after k then none else some (newer after es))
    unfolding boundary_events
    boundary_events_lem [] h p m = let e : last ≡ k = omega arith in rw e
    boundary_events_lem (e ∷ es) (c, h) p m =
        rw (below_boundary k after last (e ∷ es) (c, h) (omega arith) m) (rw c (ground arith))

    batch_events_lem :
        (limit : ℕ) (es : List (Envelope V))
        → IsNumbered k es
        → last ≡ k + length es
        → last ≤ u64_max
        → batch_events last after limit es
          ≡ (if ltb after k then none else some (take (max limit 1) (newer after es)))
    unfolding batch_events
    batch_events_lem limit [] h p m =
        let t = take-nil {A = Envelope V} (max limit 1) in rw t (ground arith)
    batch_events_lem limit (e ∷ es) (c, h) p m = rw c (ground arith)

module _ {V : Type 0} ⦃j : Json V⦄ (b : EventBridge V) (history : List (Envelope V))
    (r : Represents b history) where
  -- How many events have left the ring. Cursors count from 1, so this is the last cursor gone.
  abbrev pub gone : ℕ
  gone = length r.evicted

  retained-IsNumbered : IsNumbered gone b.ring.events
  retained-IsNumbered =
      let e : 0 + gone ≡ gone = omega arith in
      rw e at (IsNumbered-suffix 0 r.evicted b.ring.events (rw r.split at r.numbered))

  -- From a cursor that is still covered, the ring has all that the history has.
  pub newer_retained : (after : ℕ) → gone ≤ after → newer after b.ring.events ≡ newer after history
  newer_retained after h =
      newer after b.ring.events
      ≡⟨ newer-eq-drop gone after b.ring.events retained-IsNumbered ⟩
        drop (after - gone) b.ring.events
      ≡⟨ sym (drop-append r.evicted b.ring.events (after - gone)) ⟩
        drop (gone + (after - gone)) (r.evicted ++ b.ring.events)
      ≡⟨ ap₂ drop (omega arith) (sym r.split) ⟩ drop after history
      ≡⟨ sym (newer-history after history r.numbered) ⟩ newer after history ∎

  counted_from_gone : b.ring.last_cursor ≡ gone + length b.ring.events
  counted_from_gone = r.counted ∙ ap length r.split ∙ length-append r.evicted b.ring.events

  -- A reader whose cursor is covered may as well read the history.
  covered {ℓ} :
      {R : Type ℓ} (stale : R) (read : List (Envelope V) → R) (after : ℕ)
      → (if ltb after gone then stale else read (newer after b.ring.events))
        ≡ (if ltb after gone then stale else read (newer after history))
  covered stale read after = elim (Bool-cases (ltb after gone)) [
    | inl late ↦ rw late
    | inr timely ↦ rw timely (ap read (newer_retained after (ltb→le after gone timely)))
  ]

  -- Of a bridge that represents a history of at most 2^64 - 1 events, `replay_after` asks for a
  -- resync exactly when an event past the cursor has left the ring, and otherwise gives every
  -- event of the history past the cursor, oldest first.
  pub replay_after_exact :
      (after : ℕ)
      → length history ≤ u64_max
      → replay_after b after ≡ (if ltb after gone then resync else replay (newer after history))
  unfolding replay_after
  replay_after_exact after h =
      replay_events_lem gone b.ring.last_cursor after b.ring.events retained-IsNumbered
        counted_from_gone (omega (arith, r.counted))
      ∙ covered resync replay after

  -- Of a bridge that represents a history of fewer than 2^64 - 1 events, the replay part of
  -- `subscribe_from` and of `subscribe_cursor_from` refuses exactly when an event past the cursor
  -- has left the ring, and otherwise is every event of the history past the cursor, oldest first.
  pub boundary_snapshot_exact :
      (after : ℕ)
      → length history < u64_max
      → boundary_snapshot b after ≡ (if ltb after gone then none else some (newer after history))
  unfolding boundary_snapshot
  boundary_snapshot_exact after h =
      boundary_events_lem gone b.ring.last_cursor after b.ring.events retained-IsNumbered
        counted_from_gone (omega (arith, r.counted))
      ∙ covered none some after

  -- Of a bridge that represents a history of at most 2^64 - 1 events, `events_after` refuses
  -- exactly when an event past the cursor has left the ring, and otherwise gives the first events
  -- of the history past the cursor, `limit` at most, or one at most for a limit of zero.
  pub events_after_exact :
      (after limit : ℕ)
      → length history ≤ u64_max
      → events_after b after limit
        ≡ (if ltb after gone then none else some (take (max limit 1) (newer after history)))
  unfolding events_after
  events_after_exact after limit h =
      batch_events_lem gone b.ring.last_cursor after limit b.ring.events retained-IsNumbered
        counted_from_gone (omega (arith, r.counted))
      ∙ covered none (λ es. some (take (max limit 1) es)) after
