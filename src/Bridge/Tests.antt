-- ===== src/Bridge/Tests.antt =====
-- Tests and examples for the ring of bridge.rs.
use h_agent_core.Base.{
  ◌+◌, ◌^◌, ◌≤◌, ◌<◌, [], ◌∷◌, ◌++◌, none, some, ◌≡◌, refl, arith, ltb, if◌then◌else◌, mib, clamp,
}
use h_agent_core.Protocol.{Event, Envelope, text_delta}
use h_agent_core.Samples.{Sample, sample_json}
use h_agent_core.Bridge.{
  EventBridge, replay, resync, new, push, newer, replay_after, boundary_snapshot, subscribe, live,
  register, publish, envelope_bytes, event_payload_bytes, evict, ring_new,
}
use h_agent_core.Bridge.Eviction.{total}
use h_agent_core.Bridge.History.{Represents, next_envelope, new-Represents, push-Represents}
use h_agent_core.Bridge.Replay.{gone, replay_after_exact}
use h_agent_core.Bridge.Stream.{consume}
use h_agent_core.Bridge.Delivery.{
  System, Reach, here, next, registering, publishing, IsSound, Received, begun, waited, reading,
  consume_exactly_once,
}

abbrev empty : EventBridge Sample
empty = new 16 mib

abbrev hello : Event Sample
hello = text_delta "hello"

abbrev first : Envelope Sample
first = next_envelope [] "s1" hello

small_first : envelope_bytes first < 2 ^ 63
unfolding envelope_bytes event_payload_bytes
small_first = omega arith

empty-Represents : Represents {V = Sample} empty []
empty-Represents = new-Represents 16 mib

-- The bridge after one push, and what it represents.
abbrev one : EventBridge Sample
one = (push empty "s1" hello).0

push-Represents_example :
    Represents (push empty "s1" hello).0 (first ∷ []) × ((push empty "s1" hello).1 ≡ first)
push-Represents_example =
    push-Represents empty [] "s1" hello empty-Represents (omega arith) small_first

one-Represents : Represents one (first ∷ [])
one-Represents = (push-Represents empty [] "s1" hello empty-Represents (omega arith) small_first).0

kept_event : one.ring.events ≡ first ∷ []
unfolding new ring_new push register publish evict envelope_bytes event_payload_bytes clamp
kept_event = refl

added : empty.ring.events ++ first ∷ [] ≡ first ∷ []
unfolding new ring_new
added = refl

few : 1 ≤ empty.max_events
unfolding new clamp
few = omega arith

light : total (first ∷ []) ≤ empty.max_bytes
unfolding new clamp envelope_bytes event_payload_bytes
light = omega arith

replay_after_exact_example : replay_after one 0 ≡ (
    if ltb 0 (gone one (first ∷ []) one-Represents) then resync else replay (newer 0 (first ∷ [])))
replay_after_exact_example = replay_after_exact one (first ∷ []) one-Represents 0 (omega arith)

-- A consumer subscribes before the push, reads the ring between its two steps, and sees it end.
abbrev started : System Sample
started = record { bridge = empty; history = []; pending = none }

abbrev registered : System Sample
registered = record {
  bridge = (register empty "s1" hello).0;
  history = (register empty "s1" hello).1 ∷ [];
  pending = some (register empty "s1" hello).1;
}

abbrev published : System Sample
published = record {
  bridge = publish registered.bridge (register empty "s1" hello).1;
  history = registered.history;
  pending = none;
}

started-IsSound : IsSound started
unfolding new
started-IsSound = record { represents = empty-Represents; sent_split = refl }

to_registered : Reach started registered
to_registered = next here (registering started "s1" hello refl (omega arith) small_first)

to_published : Reach registered published
to_published = next here (publishing registered (register empty "s1" hello).1 refl)

read_between : boundary_snapshot registered.bridge 0 ≡ some registered.history
unfolding boundary_snapshot new ring_new register evict envelope_bytes event_payload_bytes clamp
read_between = refl

read_later : live published.bridge (subscribe started.bridge) ≡ some registered.history
unfolding live subscribe new register publish
read_later = refl

nothing_left : live published.bridge (subscribe started.bridge + 1) ≡ some []
unfolding live subscribe new register publish
nothing_left = refl

has_read : Received (subscribe started.bridge) started published registered.history
unfolding subscribe new
has_read =
    reading registered.history
      (waited (waited begun (registering started "s1" hello refl (omega arith) small_first))
        (publishing registered (register empty "s1" hello).1 refl))
      read_later

consume_exactly_once_example :
    consume 0 (registered.history ++ registered.history) ≡ newer 0 published.history
consume_exactly_once_example =
    consume_exactly_once 0 registered.history registered.history started-IsSound to_registered
      to_published has_read nothing_left refl (omega arith) (omega arith) read_between
