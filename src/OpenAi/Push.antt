-- ===== src/OpenAi/Push.antt =====
-- provider/openai.rs: what `SseDecoder::try_push` makes of one chunk.
use h_agent_core.Base.{
  ℕ, ◌+◌, ◌-◌, ◌≤◌, ◌<◌, max, String, true, false, ◌||◌, List, [], ◌++◌, ltb, length, drop, ◌≡◌,
  refl, sym, ap, ◌∙◌, arith, Bool-cases, inl, inr, length-drop, length-append, saturating_add,
}
use h_agent_core.OpenAi.Sse.{
  SseEvent, SseDecoder, ok, err, frame_too_large, buffer_too_large, Scan, find_from, scan, try_push,
  drained, settle_scan,
}
use h_agent_core.OpenAi.Frames.{Splits, fit}
use h_agent_core.OpenAi.Boundary.{find_from-skip}
use h_agent_core.OpenAi.Decoder.{
  IsScanned, ready, frame_events, ScanEnd, scan-frames, scan_overflow,
}

module _ (lossy : List ℕ → String) where
  within_limit :
      (d : SseDecoder) (chunk : List ℕ) (m limit : ℕ)
      → length d.buffer + length chunk ≤ limit
      → try_push lossy d chunk m limit ≡ (
          let t = scan lossy (length (d.buffer ++ chunk)) (d.buffer ++ chunk) m d.scan_pos 0 [] in
          settle_scan lossy (d.buffer ++ chunk) limit t t.result)
  unfolding try_push
  within_limit d chunk m limit h =
      let e : (ltb limit (length chunk)
            || ltb limit (saturating_add (length d.buffer) (length chunk)))
          ≡ false =
        ground arith in
      rw e refl

  drained-ready :
      (buffer : List ℕ) (t : Scan) {events : List SseEvent} {frames : List (List ℕ)} {rest : List ℕ}
      → ScanEnd lossy buffer t events frames rest
      → drained lossy buffer t ≡ ready rest
  drained-ready buffer t {rest = rest} at = elim (Bool-cases (ltb 0 t.consumed)) [
    | inl l ↦
        (let e = length-drop t.consumed buffer in
          let p : max t.scan_pos (length buffer - 3) - t.consumed
              ≡ length (drop t.consumed buffer) - 3 =
            rw e (elim at.order [ inl le ↦ ground arith | inr z ↦ absurd (ground arith) ]) in
          rw l (
            rw (← at.behind)
              (ap (λ k. record { buffer = drop t.consumed buffer; scan_pos = k }) p)))
    | inr l ↦
        (let z : t.consumed ≡ 0 = ground arith in
          let same : buffer ≡ rest = ap (λ k. drop k buffer) (sym z) ∙ at.behind in
          rw l (ap ready same))
  ]

  start_here :
      (d : SseDecoder) (chunk : List ℕ)
      → IsScanned d
      → find_from d.scan_pos (drop d.scan_pos (d.buffer ++ chunk)) ≡ find_from 0 (d.buffer ++ chunk)
  start_here d chunk (pos, none_yet) =
      let e : 0 + (length d.buffer - 3) ≡ length d.buffer - 3 = omega arith in
      rw pos (
        ap (λ k. find_from k (drop (length d.buffer - 3) (d.buffer ++ chunk))) (sym e)
        ∙ find_from-skip 0 d.buffer chunk none_yet)

  settled :
      (buffer : List ℕ) (limit : ℕ) (t : Scan) (events : List SseEvent) (rest : List ℕ)
      → t.result ≡ ok events
      → drained lossy buffer t ≡ ready rest
      → length rest ≤ limit
      → settle_scan lossy buffer limit t t.result ≡ (ready rest, ok events)
  settled buffer limit t events rest r e h =
      let fits : ltb limit (length rest) ≡ false = ground arith in rw r (rw e (rw fits refl))

  rest-le :
      (buffer : List ℕ) (t : Scan) {events : List SseEvent} {frames : List (List ℕ)} {rest : List ℕ}
      → ScanEnd lossy buffer t events frames rest
      → length rest ≤ length buffer
  rest-le buffer t at = let e = length-drop t.consumed buffer in rw (← at.behind) (omega arith)

  -- To a decoder between two chunks, a chunk that keeps the buffer within its limit, where every frame that is complete is within its own, is decoded into the events of these frames, in order. The decoder is left with the bytes behind the last frame.
  pub try_push-frames :
      (d : SseDecoder) (chunk : List ℕ) (max_frame_bytes max_buffer_bytes : ℕ)
      (frames : List (List ℕ)) (rest : List ℕ)
      → IsScanned d
      → length d.buffer + length chunk ≤ max_buffer_bytes
      → Splits (d.buffer ++ chunk) frames rest
      → fit max_frame_bytes frames ≡ true
      → try_push lossy d chunk max_frame_bytes max_buffer_bytes
        ≡ (ready rest, ok (frame_events lossy frames))
  try_push-frames d chunk m limit frames rest w h split f =
      let b = d.buffer ++ chunk in
      let at =
        scan-frames lossy (length b) b m d.scan_pos 0 [] refl split (start_here d chunk w)
          (omega arith) (inr refl) f in
      let t = scan lossy (length b) b m d.scan_pos 0 [] in
      within_limit d chunk m limit h
      ∙ settled b limit t (frame_events lossy frames) rest at.result (drained-ready b t at)
          (let l = rest-le b t at in let k = length-append d.buffer chunk in omega arith)

  -- To a decoder between two chunks, a chunk that keeps the buffer within its limit is refused where a frame that is complete is above its own. No frame of it is delivered.
  pub try_push-overflow :
      (d : SseDecoder) (chunk : List ℕ) (max_frame_bytes max_buffer_bytes : ℕ)
      (frames : List (List ℕ)) (rest : List ℕ)
      → IsScanned d
      → length d.buffer + length chunk ≤ max_buffer_bytes
      → Splits (d.buffer ++ chunk) frames rest
      → fit max_frame_bytes frames ≡ false
      → (try_push lossy d chunk max_frame_bytes max_buffer_bytes).1 ≡ err frame_too_large
  try_push-overflow d chunk m limit frames rest w h split f =
      let b = d.buffer ++ chunk in
      let t = scan lossy (length b) b m d.scan_pos 0 [] in
      let r : t.result ≡ err frame_too_large =
        scan_overflow lossy (length b) b m d.scan_pos 0 [] refl split (start_here d chunk w)
          (omega arith) f in
      rw (within_limit d chunk m limit h) (rw r refl)

  pub over_limit :
      (d : SseDecoder) (chunk : List ℕ) (m limit : ℕ)
      → limit < length d.buffer + length chunk
      → limit < 18446744073709551615
      → try_push lossy d chunk m limit ≡ (d, err buffer_too_large)
  unfolding try_push
  over_limit d chunk m limit h fits =
      let e : (ltb limit (length chunk)
            || ltb limit (saturating_add (length d.buffer) (length chunk)))
          ≡ true =
        ground arith in
      rw e refl
