-- ===== src/Bridge/History.antt =====
-- The ring of bridge.rs against the history of all events: what `push` keeps.
use h_agent_core.Base.{
  ℕ, suc, ◌+◌, ◌≤◌, ◌<◌, ◌≡◌, refl, sym, ap, ◌∙◌, List, [], ◌∷◌, ◌++◌, arith, length, length-append,
  clamp_bounds, append_assoc, String, u64_add, saturating_add, u64_max, ◌^◌,
}
use h_agent_core.Protocol.{Json, Event, Envelope}
use h_agent_core.Bridge.{
  EventBridge, envelope_bytes, evict, ring_new, new, register, publish, push, min_max_events,
  max_max_events, min_max_bytes, max_max_bytes,
}
use h_agent_core.Bridge.Eviction.{total, total-append, evict_split, evict_bounds, evict_longest}

-- The cursors count up by one from `suc n`.
abbrev pub IsNumbered : {V : Type 0} → ℕ → List (Envelope V) → Type 0
IsNumbered n [] = Unit
IsNumbered n (e ∷ es) = (e.cursor ≡ suc n) × IsNumbered (suc n) es

module _ {V : Type 0} ⦃j : Json V⦄ where
  -- `history` is every event that was pushed, oldest first, and the ring holds the last of them.
  pub record Represents (b : EventBridge V) (history : List (Envelope V)) : Type 0 where
    pub evicted : List (Envelope V)
    pub split : history ≡ evicted ++ b.ring.events
    pub numbered : IsNumbered 0 history
    pub counted : b.ring.last_cursor ≡ length history
    pub measured : b.ring.bytes ≡ total b.ring.events
    pub bytes_bounded : b.ring.bytes ≤ b.max_bytes
    pub events_bounded : length b.ring.events ≤ b.max_events
    pub max_events_clamped : b.max_events ≤ max_max_events
    pub max_bytes_clamped : b.max_bytes ≤ max_max_bytes

  pub IsNumbered-append :
      (n : ℕ) (es : List (Envelope V)) (e : Envelope V)
      → IsNumbered n es
      → e.cursor ≡ suc (n + length es)
      → IsNumbered n (es ++ e ∷ [])
  IsNumbered-append n [] e h k = (omega arith, tt)
  IsNumbered-append n (x ∷ es) e (p, h) k = (p, IsNumbered-append (suc n) es e h (omega arith))

  -- A bridge that was just made represents the empty history.
  pub new-Represents : (max_events max_bytes : ℕ) → Represents (new max_events max_bytes) []
  unfolding new ring_new
  new-Represents max_events max_bytes = record {
    evicted = [];
    split = refl;
    numbered = tt;
    counted = refl;
    measured = refl;
    bytes_bounded = omega arith;
    events_bounded = omega arith;
    max_events_clamped = (clamp_bounds max_events min_max_events max_max_events (omega arith)).1;
    max_bytes_clamped = (clamp_bounds max_bytes min_max_bytes max_max_bytes (omega arith)).1;
  }

  -- The envelope that `push` makes for an event, after a history.
  abbrev pub next_envelope : List (Envelope V) → String → Event V → Envelope V
  next_envelope history session_id event = record {
    cursor = suc (length history);
    session_id = session_id;
    event = event;
  }

  regroup :
      (ev es x g k : List (Envelope V)) {h : List (Envelope V)}
      → h ≡ ev ++ es
      → es ++ x ≡ g ++ k
      → h ++ x ≡ (ev ++ g) ++ k
  regroup ev es x g k p q =
      ap (λ t. t ++ x) p ∙ append_assoc ev es x ∙ ap (λ t. ev ++ t) q ∙ sym (append_assoc ev g k)

  pub publish-Represents :
      (b : EventBridge V) {h : List (Envelope V)} (e : Envelope V)
      → Represents b h
      → Represents (publish b e) h
  unfolding publish
  publish-Represents b e r = record {
    evicted = r.evicted;
    split = r.split;
    numbered = r.numbered;
    counted = r.counted;
    measured = r.measured;
    bytes_bounded = r.bytes_bounded;
    events_bounded = r.events_bounded;
    max_events_clamped = r.max_events_clamped;
    max_bytes_clamped = r.max_bytes_clamped;
  }

  module _ (b : EventBridge V) (history : List (Envelope V)) (session_id : String)
      (event : Event V) where
    abbrev fresh : Envelope V
    fresh = next_envelope history session_id event

    cursor_next :
        Represents b history
        → length history < u64_max
        → u64_add b.ring.last_cursor 1 ≡ suc (length history)
    cursor_next r h = rw r.counted (omega arith)

    -- The byte count of the ring does not saturate.
    bytes_next :
        Represents b history
        → envelope_bytes fresh < 2 ^ 63
        → saturating_add b.ring.bytes (envelope_bytes fresh) ≡ total (b.ring.events ++ fresh ∷ [])
    bytes_next r h = ground (
      arith,
      total-append b.ring.events (fresh ∷ []),
      r.measured,
      r.bytes_bounded,
      r.max_bytes_clamped,
    )

    abbrev kept : List (Envelope V) × ℕ
    kept =
        evict b.max_events b.max_bytes (b.ring.events ++ fresh ∷ [])
          (total (b.ring.events ++ fresh ∷ []))

    abbrev registered : EventBridge V
    registered = record b {
      ring = record { events = kept.0; bytes = kept.1; last_cursor = suc (length history) };
    }

    register-eq :
        Represents b history
        → length history < u64_max
        → envelope_bytes fresh < 2 ^ 63
        → register b session_id event ≡ (registered, fresh)
    unfolding register
    register-eq r h k = rw (cursor_next r h, bytes_next r k)

    registered-Represents : Represents b history → Represents registered (history ++ fresh ∷ [])
    registered-Represents r =
        let (gone, split, exact) =
          evict_split b.max_events b.max_bytes (b.ring.events ++ fresh ∷ [])
            (total (b.ring.events ++ fresh ∷ [])) refl in
        let (few, small) =
          evict_bounds b.max_events b.max_bytes (b.ring.events ++ fresh ∷ [])
            (total (b.ring.events ++ fresh ∷ [])) refl in
        record {
          evicted = r.evicted ++ gone;
          split = regroup r.evicted b.ring.events (fresh ∷ []) gone kept.0 r.split split;
          numbered = IsNumbered-append 0 history fresh r.numbered (omega arith);
          counted = omega (arith, length-append history (fresh ∷ []));
          measured = exact;
          bytes_bounded = small;
          events_bounded = few;
          max_events_clamped = r.max_events_clamped;
          max_bytes_clamped = r.max_bytes_clamped;
        }

  pub register-Represents :
      (b : EventBridge V) (history : List (Envelope V)) (session_id : String) (event : Event V)
      → Represents b history
      → length history < u64_max
      → envelope_bytes (next_envelope history session_id event) < 2 ^ 63
      → Represents
          (register b session_id event).0
          (history ++ next_envelope history session_id event ∷ [])
        × ((register b session_id event).1 ≡ next_envelope history session_id event)
  register-Represents b history session_id event r h k =
      rw (register-eq b history session_id event r h k)
        (registered-Represents b history session_id event r, refl)

  -- A push on a bridge that represents a history gives the event the next cursor, and the bridge
  -- then represents the history with the event behind it: the ring holds an end of it, with an
  -- exact byte count within its limits. The cursor does not wrap round and the event takes less
  -- than 2^63 bytes.
  pub push-Represents :
      (b : EventBridge V) (history : List (Envelope V)) (session_id : String) (event : Event V)
      → Represents b history
      → length history < u64_max
      → envelope_bytes (next_envelope history session_id event) < 2 ^ 63
      → Represents
          (push b session_id event).0
          (history ++ next_envelope history session_id event ∷ [])
        × ((push b session_id event).1 ≡ next_envelope history session_id event)
  unfolding push
  push-Represents b history session_id event r h k =
      rw (register-eq b history session_id event r h k)
        (publish-Represents _ _ (registered-Represents b history session_id event r), refl)

  -- A push keeps as much of what was in the ring as the limits allow: an end of the retained
  -- events with the new one behind them that meets both limits is no longer than what is kept. The
  -- cursor does not wrap round and the event takes less than 2^63 bytes.
  pub push_keeps_most :
      (b : EventBridge V) (history : List (Envelope V)) (session_id : String) (event : Event V)
      (old end : List (Envelope V))
      → Represents b history
      → length history < u64_max
      → envelope_bytes (next_envelope history session_id event) < 2 ^ 63
      → b.ring.events ++ next_envelope history session_id event ∷ [] ≡ old ++ end
      → length end ≤ b.max_events
      → total end ≤ b.max_bytes
      → length end ≤ length (push b session_id event).0.ring.events
  unfolding push publish
  push_keeps_most b history session_id event old end r h k e few small =
      rw (register-eq b history session_id event r h k, e)
        (evict_longest b.max_events b.max_bytes old end (total (old ++ end)) refl few small)
