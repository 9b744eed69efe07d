-- ===== src/Bridge/Delivery.antt =====
-- Delivery by `subscribe_from` (bridge.rs). One task pushes, in two steps: `register` under the
-- ring's lock and then `publish`. A consumer's own steps fall between them in any order.
use h_agent_core.Base.{
  ℕ, zero, suc, ◌+◌, ◌-◌, drop, drop-nil, length-drop, ◌≤◌, ◌<◌, ◌≡◌, refl, sym, ap, ◌∙◌, Bool,
  true, false, List, [], ◌∷◌, ◌++◌, arith, ltb, length, length-append, append-nil, append_assoc,
  u64_max, Option, none, some, if◌then◌else◌, ◌^◌, String,
}
use h_agent_core.Protocol.{Json, Event, Envelope}
use h_agent_core.Bridge.{
  EventBridge, newer, boundary_snapshot, subscribe, live, register, publish, envelope_bytes,
}
use h_agent_core.Bridge.History.{Represents, next_envelope, publish-Represents, register-Represents}
use h_agent_core.Bridge.Replay.{gone, boundary_snapshot_exact}
use h_agent_core.Bridge.Stream.{consume, consume_overlap, drop-append_le}

-- The bridge with the pusher: the event that is registered and not yet published.
pub record System (V : Type 0) : Type 0 where
  pub bridge : EventBridge V
  pub history : List (Envelope V)
  pub pending : Option (Envelope V)

abbrev pub waiting : {V : Type 0} → Option (Envelope V) → List (Envelope V)
waiting none = []
waiting (some e) = e ∷ []

some_of_if {ℓ} : {A : Type ℓ} (b : Bool) (x y : A) → (if b then none else some x) ≡ some y → x ≡ y
some_of_if true x y h = cc
some_of_if false x y h = cc

drop_all {ℓ} : {A : Type ℓ} (n : ℕ) (xs : List A) → length xs ≤ n → drop n xs ≡ []
drop_all n [] h = drop-nil n
drop_all zero (x ∷ xs) h = absurd (omega arith)
drop_all (suc n) (x ∷ xs) h = drop_all n xs (omega arith)

module _ {V : Type 0} ⦃j : Json V⦄ where
  -- A step of the pusher. Cursors stay below the end of `u64` and an event below 2^63 bytes.
  pub data Step : System V → System V → Type 0 where
    registering :
        (s : System V) (session_id : String) (event : Event V)
        → s.pending ≡ none
        → length s.history < u64_max
        → envelope_bytes (next_envelope s.history session_id event) < 2 ^ 63
        → Step s (record {
          bridge = (register s.bridge session_id event).0;
          history = s.history ++ (register s.bridge session_id event).1 ∷ [];
          pending = some (register s.bridge session_id event).1;
        })
    publishing :
        (s : System V) (e : Envelope V)
        → s.pending ≡ some e
        → Step s (record { bridge = publish s.bridge e; history = s.history; pending = none })

  pub data Reach (s : System V) : System V → Type 0 where
    here : Reach s s
    next : {t u : System V} → Reach s t → Step t u → Reach s u

  -- The ring represents the history, and all of it but a waiting event was sent, in order.
  pub record IsSound (s : System V) : Type 0 where
    pub represents : Represents s.bridge s.history
    pub sent_split : s.history ≡ s.bridge.sent ++ waiting s.pending

  publish-sent : (b : EventBridge V) (e : Envelope V) → (publish b e).sent ≡ b.sent ++ e ∷ []
  unfolding publish
  publish-sent b e = refl

  register-sent :
      (b : EventBridge V) (session_id : String) (event : Event V)
      → (register b session_id event).0.sent ≡ b.sent
  unfolding register
  register-sent b session_id event = refl

  Step-IsSound : {s t : System V} → Step s t → IsSound s → IsSound t
  Step-IsSound (registering s session_id event idle room small) h =
      let (r, e) =
        register-Represents s.bridge s.history session_id event h.represents room small in
      record {
        represents = rw e r;
        sent_split =
            rw (register-sent s.bridge session_id event)
              (ap (λ l. l ++ (register s.bridge session_id event).1 ∷ []) (drained s idle h));
      }
    where
      drained : (s : System V) → s.pending ≡ none → IsSound s → s.history ≡ s.bridge.sent
      drained s idle h = h.sent_split ∙ ap (λ p. s.bridge.sent ++ waiting p) idle ∙ append-nil _
  Step-IsSound (publishing s e ready) h = record {
    represents = publish-Represents s.bridge e h.represents;
    sent_split =
        rw (publish-sent s.bridge e, append-nil)
          (h.sent_split ∙ ap (λ p. s.bridge.sent ++ waiting p) ready);
  }

  -- However the steps of the pusher follow one another from a sound state, the ring represents the
  -- whole history, and what was sent to the subscribers is that history in order, but for an event
  -- that is registered and not yet published.
  pub Reach-IsSound : {s t : System V} → Reach s t → IsSound s → IsSound t
  Reach-IsSound here h = h
  Reach-IsSound (next r st) h = Step-IsSound st (Reach-IsSound r h)

  Step-history :
      {s t : System V} → Step s t → (more : List (Envelope V)) × (t.history ≡ s.history ++ more)
  Step-history (registering s session_id event idle room small) = (_, refl)
  Step-history (publishing s e ready) = ([], sym (append-nil s.history))

  Reach-history :
      {s t : System V} → Reach s t → (more : List (Envelope V)) × (t.history ≡ s.history ++ more)
  Reach-history {s} here = ([], sym (append-nil s.history))
  Reach-history {s} (next r st) =
      let (m, p) = Reach-history r in
      let (n, q) = Step-history st in (m ++ n, q ∙ ap (λ l. l ++ n) p ∙ append_assoc s.history m n)

  drained : {s : System V} → IsSound s → s.pending ≡ none → s.bridge.sent ≡ s.history
  drained {s} h idle = sym (h.sent_split ∙ ap (λ p. s.bridge.sent ++ waiting p) idle ∙ append-nil _)

  length-sent : {s : System V} → IsSound s → length s.bridge.sent ≤ length s.history
  length-sent {s} h =
      omega (arith, ap length h.sent_split, length-append s.bridge.sent (waiting s.pending))

  -- What a receiver that subscribed at a position has read by now, in as many reads as it liked.
  -- At none of them did more events wait for it than the channel holds.
  pub data Received (position : ℕ) (s : System V) : System V → List (Envelope V) → Type 0 where
    begun : Received position s s []
    waited :
        {t u : System V} {got : List (Envelope V)}
        → Received position s t got
        → Step t u
        → Received position s u got
    reading :
        {t : System V} {got : List (Envelope V)} (more : List (Envelope V))
        → Received position s t got
        → live t.bridge (position + length got) ≡ some more
        → Received position s t (got ++ more)

  Step-sent :
      {s t : System V}
      → Step s t
      → (more : List (Envelope V)) × (t.bridge.sent ≡ s.bridge.sent ++ more)
  Step-sent (registering s session_id event idle room small) =
      ([], register-sent s.bridge session_id event ∙ sym (append-nil s.bridge.sent))
  Step-sent (publishing s e ready) = (e ∷ [], publish-sent s.bridge e)

  live-drop :
      (b : EventBridge V) (position : ℕ) (more : List (Envelope V))
      → live b position ≡ some more
      → drop position b.sent ≡ more
  unfolding live
  live-drop b position more h =
      some_of_if (ltb b.capacity (length b.sent - position)) (drop position b.sent) more h

  -- What was read, and what is still to be read, is all that was sent since.
  Received-drop :
      {position : ℕ} {s t : System V} {got : List (Envelope V)}
      → Received position s t got
      → position ≤ length s.bridge.sent
      → (drop position t.bridge.sent ≡ got ++ drop (position + length got) t.bridge.sent)
        × (position + length got ≤ length t.bridge.sent)
  Received-drop {position} {s} begun le =
      let z : position + 0 ≡ position = omega arith in (rw z refl, rw z le)
  Received-drop {position} {s} (waited {t} {u} {got} r st) le =
      let (split, bound) = Received-drop r le in
      let (more, sent) = Step-sent st in
      let first : position ≤ length t.bridge.sent = omega (arith, bound) in
      rw sent (
        drop-append_le position t.bridge.sent more first
            ∙ ap (λ l. l ++ more) split
            ∙ append_assoc got _ more
            ∙ ap (λ l. got ++ l)
                (sym (drop-append_le (position + length got) t.bridge.sent more bound)),
        omega (arith, bound, length-append t.bridge.sent more),
      )
  Received-drop {position} {s} (reading {t} {got} more r found) le =
      let (split, bound) = Received-drop r le in
      let rest = live-drop t.bridge (position + length got) more found in
      let n : length t.bridge.sent ≡ position + length (got ++ more) = omega (
        arith,
        bound,
        length-append got more,
        ap length rest,
        length-drop (position + length got) t.bridge.sent,
      ) in
      (
        split
            ∙ ap (λ l. got ++ l) rest
            ∙ sym (append-nil (got ++ more))
            ∙ ap (λ l. (got ++ more) ++ l)
                (sym (drop_all (position + length (got ++ more)) t.bridge.sent (omega (arith, n)))),
        omega (arith, n),
      )

  -- A consumer subscribes in one state, reads the ring in a later one and is up to date in a third.
  -- Whatever was pushed in between, it processes every event past its cursor once, and in order,
  -- if it reads its channel often enough: no more events than the channel holds wait at any read.
  -- Its cursor is that of an event it has seen, and the bridge did not ask for a resync.
  pub consume_exactly_once :
      (after : ℕ) (replayed received : List (Envelope V)) {s t u : System V}
      → IsSound s
      → Reach s t
      → Reach t u
      → Received (subscribe s.bridge) s u received
      → live u.bridge (subscribe s.bridge + length received) ≡ some []
      → u.pending ≡ none
      → length u.history < u64_max
      → after ≤ length t.history
      → boundary_snapshot t.bridge after ≡ some replayed
      → consume after (replayed ++ received) ≡ newer after u.history
  unfolding subscribe
  consume_exactly_once after replayed received {s} {t} {u} sound early late reads all_read idle room
        seen got =
      let at_t = Reach-IsSound early sound in
      let at_u = Reach-IsSound late at_t in
      let (m, p) = Reach-history early in
      let (n, q) = Reach-history late in
      let read =
        some_of_if (ltb after (gone t.bridge t.history at_t.represents)) (newer after t.history)
          replayed
          (sym (
              boundary_snapshot_exact t.bridge t.history at_t.represents after
                (omega (arith, room, ap length q, length-append t.history n)))
            ∙ got) in
      let since : drop (length s.bridge.sent) u.bridge.sent ≡ received =
        (Received-drop reads (omega arith)).0
        ∙ ap (λ l. received ++ l) (live-drop u.bridge _ [] all_read)
        ∙ append-nil received in
      rw (← read, ← since, drained at_u idle, q)
        (consume_overlap after (length s.bridge.sent) t.history n (rw q at at_u.represents.numbered)
          seen (omega (arith, length-sent sound, ap length p, length-append s.history m)))
