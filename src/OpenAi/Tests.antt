-- ===== src/OpenAi/Tests.antt =====
-- Tests and examples for `SseDecoder` of provider/openai.rs, on ASCII text.
use Prim.Native.String.{slice}
use h_agent_core.Base.{
  trim_start, is_whitespace, ℕ, ◌-◌, String, List, [], ◌∷◌, ◌++◌, none, some, ◌==◌, if◌then◌else◌,
  codes, ◌+s◌, ◌≡◌, refl, arith,
}
use h_agent_core.OpenAi.Sse.{
  SseEvent, ok, new_decoder, strip_prefix, find_from, delimiter_len, read_lines, parse_sse_frame,
  scan, try_push,
}
use h_agent_core.Session.Thinking.{split_lines, strip_return}
use h_agent_core.OpenAi.Boundary.{next_frame}
use h_agent_core.OpenAi.Frames.{unfinished, frame_then}
use h_agent_core.OpenAi.Decoder.{IsScanned, ready, frame_events}
use h_agent_core.OpenAi.Push.{try_push-frames}
use h_agent_core.OpenAi.Chunks.{try_push-append}
use h_agent_core.OpenAi.RoundTrip.{try_push-encode}

abbrev printable : String
printable =
    " !\"#$%&'()*+,-./0123456789:;<=>?@ABCDEFGHIJKLMNOPQRSTUVWXYZ[\\]^_`abcdefghijklmnopqrstuvwxyz{|}~"

-- `String::from_utf8_lossy` on the bytes of ASCII text.
abbrev ascii : List ℕ → String
ascii [] = ""
ascii (b ∷ bs) = (if b == 10 then "\n" else slice printable (b - 32) (b - 31)) +s ascii bs

-- A return and a line feed end the first line.
abbrev event_lines : List ℕ
event_lines = codes "event: a\ndata: x\ndata: y"

abbrev an_event : SseEvent
an_event = record { event = some "a"; «data» = "x\ny" }

reads_frame : parse_sse_frame ascii event_lines ≡ some an_event
unfolding parse_sse_frame read_lines strip_prefix trim_start is_whitespace split_lines strip_return
reads_frame = refl

abbrev first_half : List ℕ
first_half = codes "data: x\n"

abbrev second_half : List ℕ
second_half = codes "\ndata"

-- The delimiter is split between the chunks.
first_chunk : try_push ascii new_decoder first_half 100 200 ≡ (ready first_half, ok [])
unfolding try_push scan find_from delimiter_len
first_chunk = refl

second_chunk :
    try_push ascii (ready first_half) second_half 100 200
    ≡ (ready (codes "data"), ok (record { event = none; «data» = "x" } ∷ []))
unfolding try_push scan find_from delimiter_len parse_sse_frame read_lines strip_prefix trim_start
    is_whitespace split_lines strip_return
second_chunk = refl

new-IsScanned : IsScanned new_decoder
unfolding next_frame
new-IsScanned = (refl, refl)

try_push-append_example :
    try_push ascii new_decoder (first_half ++ second_half) 100 200
    ≡ (ready (codes "data"), ok (record { event = none; «data» = "x" } ∷ []))
try_push-append_example =
    try_push-append ascii new_decoder first_half second_half 100 200 (ready first_half)
      (ready (codes "data")) [] (record { event = none; «data» = "x" } ∷ []) new-IsScanned
      (omega arith) (omega arith) first_chunk second_chunk

abbrev two_lines : List ℕ
two_lines = codes "data: x\n\nda"

splits_once : next_frame two_lines ≡ some (codes "data: x", codes "da")
unfolding next_frame delimiter_len
splits_once = refl

no_more : next_frame (codes "da") ≡ none
unfolding next_frame delimiter_len
no_more = refl

try_push-frames_example :
    try_push ascii new_decoder two_lines 7 100
    ≡ (ready (codes "da"), ok (frame_events ascii (codes "data: x" ∷ [])))
try_push-frames_example =
    try_push-frames ascii new_decoder two_lines 7 100 (codes "data: x" ∷ []) (codes "da")
      new-IsScanned (omega arith) (frame_then splits_once (unfinished no_more)) refl

try_push-encode_example :
    try_push ascii new_decoder (codes "data: x\n\ndata: y\n\n") 100 100
    ≡ (new_decoder, ok (frame_events ascii (codes "data: x" ∷ codes "data: y" ∷ [])))
try_push-encode_example =
    try_push-encode ascii (codes "data: x" ∷ codes "data: y" ∷ []) 100 100 refl refl (omega arith)
