-- ===== src/OpenAi/RoundTrip.antt =====
-- provider/openai.rs: a sender that ends each frame by an empty line, and what `SseDecoder` makes
-- of it.
use h_agent_core.Base.{
  ℕ, ◌≤◌, String, Bool, true, not, ◌&&◌, List, [], ◌∷◌, ◌++◌, some, ◌==◌, length, ◌≡◌, refl, ◌∙◌,
  arith, all,
}
use h_agent_core.OpenAi.Sse.{ok, new_decoder, try_push, lf_lf, delimiter_len}
use h_agent_core.OpenAi.Boundary.{next_frame, next_frame-nil, next_frame-later}
use h_agent_core.OpenAi.Frames.{Splits, unfinished, frame_then, fit}
use h_agent_core.OpenAi.Decoder.{frame_events}
use h_agent_core.OpenAi.Push.{try_push-frames}

-- A frame that its sender may send: without a carriage return, without an empty line, and not
-- ended by a line feed.
abbrev plain : List ℕ → Bool
plain [] = true
plain (b ∷ []) = not (b == 10) && not (b == 13)
plain (b ∷ c ∷ bs) = not (b == 10 && c == 10) && (not (b == 13) && plain (c ∷ bs))

abbrev encode : List (List ℕ) → List ℕ
encode [] = []
encode (f ∷ fs) = f ++ (lf_lf ++ encode fs)

plain-undelimited_last :
    (b : ℕ) (later : List ℕ) → plain (b ∷ []) ≡ true → (delimiter_len (b ∷ later) == 0) ≡ true
unfolding delimiter_len
plain-undelimited_last b later h = ground arith

plain-undelimited :
    (b c : ℕ) (bs later : List ℕ)
    → plain (b ∷ c ∷ bs) ≡ true
    → (delimiter_len (b ∷ c ∷ later) == 0) ≡ true
unfolding delimiter_len
plain-undelimited b c bs later h = ground arith

plain-tail : (b c : ℕ) (bs : List ℕ) → plain (b ∷ c ∷ bs) ≡ true → plain (c ∷ bs) ≡ true
plain-tail b c bs h = ground arith

next_frame-blank : (later : List ℕ) → next_frame (10 ∷ 10 ∷ later) ≡ some ([], later)
unfolding next_frame delimiter_len
next_frame-blank later = refl

next_frame-plain :
    (f later : List ℕ) → plain f ≡ true → next_frame (f ++ (lf_lf ++ later)) ≡ some (f, later)
next_frame-plain [] later h = next_frame-blank later
next_frame-plain (b ∷ []) later h =
    next_frame-later b (lf_lf ++ later) (plain-undelimited_last b (lf_lf ++ later) h)
    ∙ rw (next_frame-plain [] later refl) refl
next_frame-plain (b ∷ c ∷ bs) later h =
    next_frame-later b ((c ∷ bs) ++ (lf_lf ++ later))
      (plain-undelimited b c bs (bs ++ (lf_lf ++ later)) h)
    ∙ rw (next_frame-plain (c ∷ bs) later (plain-tail b c bs h)) refl

encode-Splits :
    (frames : List (List ℕ)) → all plain frames ≡ true → Splits (encode frames) frames []
encode-Splits [] h = unfinished next_frame-nil
encode-Splits (f ∷ fs) h =
    frame_then (next_frame-plain f (encode fs) (ground arith)) (encode-Splits fs (ground arith))

-- Frames that hold no carriage return and no empty line and do not end with a line feed, each sent with an empty line behind it, are decoded into the events of the same frames, and nothing is left in the decoder, if every frame and the whole are within the limits.
pub try_push-encode :
    (lossy : List ℕ → String) (frames : List (List ℕ)) (max_frame_bytes max_buffer_bytes : ℕ)
    → all plain frames ≡ true
    → fit max_frame_bytes frames ≡ true
    → length (encode frames) ≤ max_buffer_bytes
    → try_push lossy new_decoder (encode frames) max_frame_bytes max_buffer_bytes
      ≡ (new_decoder, ok (frame_events lossy frames))
try_push-encode lossy frames m limit h f le =
    try_push-frames lossy new_decoder (encode frames) m limit frames [] (refl, next_frame-nil)
      (omega arith) (encode-Splits frames h) f
