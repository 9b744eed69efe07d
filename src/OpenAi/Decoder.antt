-- ===== src/OpenAi/Decoder.antt =====
-- provider/openai.rs: what `SseDecoder::try_push` delivers, against the frames of Boundary. It does
-- not matter how the stream is cut into chunks, nor that a search starts at `scan_pos`.
use h_agent_core.Base.{
  ℕ, zero, suc, ◌+◌, ◌-◌, ◌≤◌, String, true, false, List, [], ◌∷◌, ◌++◌, append_assoc, append-nil,
  Option, none, some, ltb, length, take, drop, ◌≡◌, refl, sym, ap, ◌∙◌, arith, Bool-cases, ◌⊎◌, inl,
  inr, drop-drop,
}
use h_agent_core.OpenAi.Sse.{
  SseEvent, SseDecoder, ok, err, frame_too_large, Scan, find_event_boundary, find_from,
  parse_sse_frame, push_event, scan,
}
use h_agent_core.OpenAi.Frames.{Splits, unfinished, frame_then, fit, some-behind}
use h_agent_core.OpenAi.Boundary.{next_frame, find_from-none, find_from-some, FoundAt}

-- Between two chunks the decoder holds no complete frame, and its last three bytes are still to be
-- searched.
abbrev pub IsScanned : SseDecoder → Type 0
IsScanned d = (d.scan_pos ≡ length d.buffer - 3) × (next_frame d.buffer ≡ none)

-- The decoder with these bytes left.
abbrev pub ready : List ℕ → SseDecoder
ready rest = record { buffer = rest; scan_pos = length rest - 3 }

drop-behind :
    (c : ℕ) (buffer : List ℕ) {bs frame later : List ℕ}
    → drop c buffer ≡ bs
    → (w : FoundAt c bs frame later) → drop (c + length frame + w.delimiter) buffer ≡ later
drop-behind c buffer {frame = frame} here w =
    ap (λ k. drop k buffer) (omega arith)
    ∙ sym (drop-drop (length frame + w.delimiter) c buffer)
    ∙ ap (λ xs. drop (length frame + w.delimiter) xs) here
    ∙ w.behind

module _ (lossy : List ℕ → String) where
  -- The events of complete frames; a frame without data is none.
  abbrev pub frame_events : List (List ℕ) → List SseEvent
  frame_events [] = []
  frame_events (f ∷ fs) = push_event (parse_sse_frame lossy f) [] ++ frame_events fs

  pub record ScanEnd (buffer : List ℕ) (t : Scan) (events : List SseEvent) (frames : List (List ℕ))
      (rest : List ℕ) : Type 0 where
    pub result : t.result ≡ ok (events ++ frame_events frames)
    pub behind : drop t.consumed buffer ≡ rest
    pub order : (t.scan_pos ≤ t.consumed) ⊎ (t.consumed ≡ 0)

  scan-none :
      (rounds : ℕ) (buffer : List ℕ) (m s c : ℕ) (events : List SseEvent)
      → find_event_boundary buffer s ≡ none
      → scan lossy rounds buffer m s c events
        ≡ record { consumed = c; scan_pos = s; result = ok events }
  unfolding scan
  scan-none zero buffer m s c events e = refl
  scan-none (suc rounds) buffer m s c events e = rw (e, scan) refl

  scan-some :
      (rounds : ℕ) (buffer : List ℕ) (m s c p n : ℕ) (events : List SseEvent)
      → find_event_boundary buffer s ≡ some (p, n)
      → ltb m (p - c) ≡ false
      → scan lossy (suc rounds) buffer m s c events
        ≡ scan lossy rounds buffer m
            (p + n)
            (p + n)
            (push_event (parse_sse_frame lossy (take (p - c) (drop c buffer))) events)
  unfolding scan
  scan-some rounds buffer m s c p n events e l = rw (e, l, scan) refl

  scan-large :
      (rounds : ℕ) (buffer : List ℕ) (m s c p n : ℕ) (events : List SseEvent)
      → find_event_boundary buffer s ≡ some (p, n)
      → ltb m (p - c) ≡ true
      → (scan lossy (suc rounds) buffer m s c events).result ≡ err frame_too_large
  unfolding scan
  scan-large rounds buffer m s c p n events e l = rw (e, l, scan) refl

  push_event-append :
      (o : Option SseEvent) (events later : List SseEvent)
      → push_event o events ++ later ≡ events ++ (push_event o [] ++ later)
  push_event-append none events later = refl
  push_event-append (some e) events later = append_assoc events (e ∷ []) later

  pub scan-frames :
      (rounds : ℕ) (buffer : List ℕ) (m s c : ℕ) (events : List SseEvent) {bs rest : List ℕ}
      {frames : List (List ℕ)}
      → drop c buffer ≡ bs
      → Splits bs frames rest
      → find_event_boundary buffer s ≡ find_from c bs
      → length bs ≤ rounds
      → (s ≤ c) ⊎ (c ≡ 0)
      → fit m frames ≡ true
      → ScanEnd buffer (scan lossy rounds buffer m s c events) events frames rest
  scan-frames rounds buffer m s c events {bs = bs} here (unfinished e) at h order f =
      let stop = scan-none rounds buffer m s c events (at ∙ find_from-none c bs e) in
      rw stop (record { result = ap ok (sym (append-nil events)); behind = here; order = order })
  scan-frames zero buffer m s c events {bs = bs} here
        (frame_then {frame = frame} {later = later} e t) at h order f =
      let shorter = some-behind c bs frame later (find_from-some c bs frame later e) in
      absurd (omega arith)
  scan-frames (suc rounds) buffer m s c events {bs = bs} here
        (frame_then {frame = frame} {later = later} {rest = rest} {frames = frames} e t) at h order
        f =
      let w = find_from-some c bs frame later e in
      let n = w.delimiter in
      let shorter = some-behind c bs frame later w in
      let p = c + length frame in
      let next = scan-some rounds buffer m s c p n events (at ∙ w.found) (ground arith) in
      let cut : take (p - c) (drop c buffer) ≡ frame =
        rw here (ap (λ k. take k bs) (omega arith) ∙ w.before) in
      let new = drop-behind c buffer here w in
      let ih =
        scan-frames rounds buffer m (p + n) (p + n)
          (push_event (parse_sse_frame lossy frame) events) new t
          (ap (λ x. find_from (p + n) x) new) (omega arith) (inl (omega arith)) (ground arith) in
      rw next (
        rw cut (record {
          result =
              ih.result
              ∙ ap ok
                  (push_event-append (parse_sse_frame lossy frame) events (frame_events frames));
          behind = ih.behind;
          order = ih.order;
        }))

  -- With a frame above the limit the loop ends in the error, and not by another one.
  pub scan_overflow :
      (rounds : ℕ) (buffer : List ℕ) (m s c : ℕ) (events : List SseEvent) {bs rest : List ℕ}
      {frames : List (List ℕ)}
      → drop c buffer ≡ bs
      → Splits bs frames rest
      → find_event_boundary buffer s ≡ find_from c bs
      → length bs ≤ rounds
      → fit m frames ≡ false
      → (scan lossy rounds buffer m s c events).result ≡ err frame_too_large
  scan_overflow rounds buffer m s c events here (unfinished e) at h f = absurd (ground arith)
  scan_overflow zero buffer m s c events {bs = bs} here
        (frame_then {frame = frame} {later = later} e t) at h f =
      let shorter = some-behind c bs frame later (find_from-some c bs frame later e) in
      absurd (omega arith)
  scan_overflow (suc rounds) buffer m s c events {bs = bs} here
        (frame_then {frame = frame} {later = later} e t) at h f =
      let w = find_from-some c bs frame later e in
      let n = w.delimiter in
      let shorter = some-behind c bs frame later w in
      let p = c + length frame in
      elim (Bool-cases (ltb m (p - c))) [
        | inl l ↦ scan-large rounds buffer m s c p n events (at ∙ w.found) l
        | inr l ↦
            (let new = drop-behind c buffer here w in
              rw (scan-some rounds buffer m s c p n events (at ∙ w.found) l) (
                scan_overflow rounds buffer m (p + n) (p + n) _ new t
                  (ap (λ x. find_from (p + n) x) new) (omega arith) (ground arith)))
      ]
