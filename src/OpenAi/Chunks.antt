-- ===== src/OpenAi/Chunks.antt =====
-- provider/openai.rs: what the chunks of a stream have to do with each other. It does not matter
-- where the network cuts it.
use h_agent_core.Base.{
  ℕ, ◌+◌, ◌≤◌, ◌<◌, String, true, List, [], ◌∷◌, ◌++◌, append_assoc, ltb, length, ◌≡◌, refl, sym,
  ap, ◌∙◌, arith, Bool-cases, inl, inr, length-append, none,
}
use h_agent_core.OpenAi.Sse.{
  SseEvent, SseDecoder, SseResult, ok, err, SseDecodeError, frame_too_large, buffer_too_large,
  push_event, parse_sse_frame, try_push,
}
use h_agent_core.OpenAi.Frames.{
  Splits, fit, splits, Splits-append, rest-unfinished, Splits-le, fit-append,
}
use h_agent_core.OpenAi.Boundary.{next_frame}
use h_agent_core.OpenAi.Push.{try_push-frames, try_push-overflow, over_limit}
use h_agent_core.OpenAi.Decoder.{IsScanned, ready, frame_events}

pub ready-IsScanned : (rest : List ℕ) → next_frame rest ≡ none → IsScanned (ready rest)
ready-IsScanned rest e = (refl, e)

Splits-le-limit :
    (d : SseDecoder) (chunk : List ℕ) (limit : ℕ) {rest : List ℕ} {frames : List (List ℕ)}
    → Splits (d.buffer ++ chunk) frames rest
    → length d.buffer + length chunk ≤ limit
    → length rest ≤ limit
Splits-le-limit d chunk limit split h =
    let l = Splits-le split in let k = length-append d.buffer chunk in omega arith

same_result :
    {d d' : SseDecoder} {events events' : List SseEvent}
    → d ≡ d'
    → events ≡ events'
    → ◌≡◌ {A = SseDecoder × SseResult} (d, ok events) (d', ok events')
same_result h k = rw h (rw k refl)

same_append : {xs xs' ys ys' : List SseEvent} → xs ≡ xs' → ys ≡ ys' → xs ++ ys ≡ xs' ++ ys'
same_append h k = rw h (rw k refl)

frame_events-append :
    (lossy : List ℕ → String) (xs ys : List (List ℕ))
    → frame_events lossy (xs ++ ys) ≡ frame_events lossy xs ++ frame_events lossy ys
frame_events-append lossy [] ys = refl
frame_events-append lossy (x ∷ xs) ys =
    same_append {xs = push_event (parse_sse_frame lossy x) []} refl
      (frame_events-append lossy xs ys)
    ∙ sym (
        append_assoc (push_event (parse_sse_frame lossy x) []) (frame_events lossy xs)
          (frame_events lossy ys))

module _ (lossy : List ℕ → String) where
  -- What an accepted chunk says.
  record Accepted (d : SseDecoder) (chunk : List ℕ) (m limit : ℕ) (d' : SseDecoder)
      (events : List SseEvent) : Type 0 where
    frames : List (List ℕ)
    rest : List ℕ
    split : Splits (d.buffer ++ chunk) frames rest
    fits : fit m frames ≡ true
    left : d' ≡ ready rest
    events_told : events ≡ frame_events lossy frames
    small : length d.buffer + length chunk ≤ limit

  not_refused :
      (d d' : SseDecoder) (e : SseDecodeError) (events : List SseEvent) (r : SseDecoder × SseResult)
      → r.1 ≡ err e
      → r ≡ (d', ok events)
      → ⊥
  not_refused d d' e events r h k =
      let same : ok events ≡ err e = ap (λ p. p.1) (sym k) ∙ h in absurd (ground arith)

  ok-inj :
      (d d' : SseDecoder) (events events' : List SseEvent)
      → ◌≡◌ {A = SseDecoder × SseResult} (d, ok events) (d', ok events')
      → (d ≡ d') × (events ≡ events')
  ok-inj d d' events events' h = (ap (λ p. p.0) h, ground arith)

  accepted :
      (d : SseDecoder) (chunk : List ℕ) (m limit : ℕ) (d' : SseDecoder) (events : List SseEvent)
      → IsScanned d
      → limit < 18446744073709551615
      → try_push lossy d chunk m limit ≡ (d', ok events)
      → Accepted d chunk m limit d' events
  accepted d chunk m limit d' events w bound h =
      elim (Bool-cases (ltb limit (length d.buffer + length chunk))) [
        | inl l ↦ absurd (
            not_refused d d' buffer_too_large events _
              (ap (λ p. p.1) (over_limit lossy d chunk m limit (ground arith) bound)) h)
        | inr l ↦
            (let (frames, (rest, split)) = splits (d.buffer ++ chunk) in
              let small : length d.buffer + length chunk ≤ limit = ground arith in
              elim (Bool-cases (fit m frames)) [
                | inl f ↦
                    (let (left, same) = ok-inj d' (ready rest) events (frame_events lossy frames) (
                        sym h
                        ∙ try_push-frames lossy d chunk m limit frames rest w small split f) in
                      record {
                        frames = frames;
                        rest = rest;
                        split = split;
                        fits = f;
                        left = left;
                        events_told = same;
                        small = small;
                      })
                | inr f ↦ absurd (
                    not_refused d d' frame_too_large events _
                      (try_push-overflow lossy d chunk m limit frames rest w small split f) h)
              ])
      ]

  -- After a chunk that a decoder between two chunks accepts, under a limit below the largest `usize`, the decoder again holds no complete frame, its search starts at the last three bytes, and its buffer is within its limit.
  pub try_push-IsScanned :
      (d : SseDecoder) (chunk : List ℕ) (max_frame_bytes max_buffer_bytes : ℕ) (d' : SseDecoder)
      (events : List SseEvent)
      → IsScanned d
      → max_buffer_bytes < 18446744073709551615
      → try_push lossy d chunk max_frame_bytes max_buffer_bytes ≡ (d', ok events)
      → IsScanned d' × (length d'.buffer ≤ max_buffer_bytes)
  try_push-IsScanned d chunk m limit d' events w bound h =
      let a = accepted d chunk m limit d' events w bound h in
      rw a.left (
        ready-IsScanned a.rest (rest-unfinished a.split),
        Splits-le-limit d chunk limit a.split a.small,
      )

  -- Where a network read is cut does not matter: two chunks that a decoder between two chunks accepts one after the other, under a limit below the largest `usize`, deliver together what their bytes deliver as one chunk, and leave the same decoder, if the one chunk is within the limit of the buffer.
  pub try_push-append :
      (d : SseDecoder) (c1 c2 : List ℕ) (max_frame_bytes max_buffer_bytes : ℕ) (d1 d2 : SseDecoder)
      (e1 e2 : List SseEvent)
      → IsScanned d
      → max_buffer_bytes < 18446744073709551615
      → length d.buffer + length (c1 ++ c2) ≤ max_buffer_bytes
      → try_push lossy d c1 max_frame_bytes max_buffer_bytes ≡ (d1, ok e1)
      → try_push lossy d1 c2 max_frame_bytes max_buffer_bytes ≡ (d2, ok e2)
      → try_push lossy d (c1 ++ c2) max_frame_bytes max_buffer_bytes ≡ (d2, ok (e1 ++ e2))
  try_push-append d c1 c2 m limit d1 d2 e1 e2 w bound fits h k =
      let a = accepted d c1 m limit d1 e1 w bound h in
      let b =
        accepted d1 c2 m limit d2 e2 (try_push-IsScanned d c1 m limit d1 e1 w bound h).0 bound k in
      let again : Splits (a.rest ++ c2) b.frames b.rest =
        rw (← ap (λ x. x.buffer) a.left) b.split in
      let whole : Splits (d.buffer ++ (c1 ++ c2)) (a.frames ++ b.frames) b.rest =
        rw (← append_assoc d.buffer c1 c2) (Splits-append c2 a.split again) in
      try_push-frames lossy d (c1 ++ c2) m limit (a.frames ++ b.frames) b.rest w fits whole
        (fit-append m a.frames b.frames a.fits b.fits)
      ∙ same_result (sym b.left) (
          frame_events-append lossy a.frames b.frames
          ∙ same_append (sym a.events_told) (sym b.events_told))
