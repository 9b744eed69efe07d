-- ===== src/OpenAi/Sse.antt =====
-- provider/openai.rs: `SseDecoder`, which cuts the bytes of a stream into frames and reads a frame.
-- A byte is a number, and the buffer a list with its front at the head. `String::from_utf8_lossy`
-- is the parameter `lossy`.
use Prim.Native.Char.{code}
use h_agent_core.Base.{
  trim_start, ℕ, zero, suc, ◌+◌, ◌-◌, ◌*◌, max, String, true, false, ◌||◌, List, [], ◌∷◌, ◌++◌,
  Option, none, some, ltb, ◌==◌, if◌then◌else◌, length, take, drop, codes_start_with,
  saturating_add, mib, ◌+s◌,
}
use h_agent_core.Session.Thinking.{split_lines, strip_return}

pub record SseEvent : Type 0 where
  pub event : Option String
  pub «data» : String

pub record SseDecoder : Type 0 where
  pub buffer : List ℕ
  pub scan_pos : ℕ

pub data SseDecodeError : Type 0 where
  frame_too_large buffer_too_large : SseDecodeError

pub data SseResult : Type 0 where
  ok : List SseEvent → SseResult
  err : SseDecodeError → SseResult

abbrev pub new_decoder : SseDecoder
new_decoder = record { buffer = []; scan_pos = 0 }

-- `b"\r\n\r\n"` and `b"\n\n"`.
abbrev pub crlf_crlf : List ℕ
crlf_crlf = 13 ∷ 10 ∷ 13 ∷ 10 ∷ []

abbrev pub lf_lf : List ℕ
lf_lf = 10 ∷ 10 ∷ []

-- The length of the delimiter that the bytes begin with, 0 where there is none.
unfoldable pub delimiter_len : List ℕ → ℕ
delimiter_len bytes =
    if codes_start_with bytes crlf_crlf then 4 else if codes_start_with bytes lf_lf then 2 else 0

-- The `while` of `find_event_boundary`, over the bytes from `position` on.
unfoldable pub find_from : ℕ → List ℕ → Option (ℕ × ℕ)
find_from position [] = none
find_from position (b ∷ bs) =
    let later = find_from (suc position) bs in
    if delimiter_len (b ∷ bs) == 0 then later else some (position, delimiter_len (b ∷ bs))

abbrev pub find_event_boundary : List ℕ → ℕ → Option (ℕ × ℕ)
find_event_boundary buffer start = find_from start (drop start buffer)

-- `line.strip_prefix(prefix)` for an ASCII prefix.
unfoldable pub strip_prefix : String → String → Option String
strip_prefix s String.[] = some s
strip_prefix String.[] (String.◌∷◌ p ps) = none
strip_prefix (String.◌∷◌ c s) (String.◌∷◌ p ps) =
    let rest = strip_prefix s ps in if code c == code p then rest else none

-- `str::lines`, but for an empty last line: a return is stripped where a line feed follows.
abbrev pub lines : List String → List String
lines [] = []
lines (l ∷ []) = l ∷ []
lines (l ∷ m ∷ ls) = strip_return l ∷ lines (m ∷ ls)

-- The loop over the lines, with the event's name and its data so far.
unfoldable pub read_lines : List String → Option String → List String → Option String × List String
read_lines [] event data_lines = (event, data_lines)
read_lines (l ∷ ls) event data_lines = elim (strip_prefix l "event:") [
  | some value ↦ read_lines ls (some (trim_start value)) data_lines
  | none ↦ elim (strip_prefix l "data:") [
    | some value ↦ read_lines ls event (data_lines ++ trim_start value ∷ [])
    | none ↦ read_lines ls event data_lines
  ]
]

-- `data.join("\n")`.
abbrev pub join_lines : List String → String
join_lines [] = ""
join_lines (l ∷ []) = l
join_lines (l ∷ m ∷ ls) = l +s "\n" +s join_lines (m ∷ ls)

-- The end of `parse_sse_frame`.
abbrev pub sse_event : Option String × List String → Option SseEvent
sse_event (event, []) = none
sse_event (event, l ∷ ls) = some (record { event = event; «data» = join_lines (l ∷ ls) })

abbrev pub push_event : Option SseEvent → List SseEvent → List SseEvent
push_event none events = events
push_event (some e) events = events ++ e ∷ []

-- Where the loop of `try_push` stops.
pub record Scan : Type 0 where
  pub consumed : ℕ
  pub scan_pos : ℕ
  pub result : SseResult

module _ (lossy : List ℕ → String) where
  unfoldable pub parse_sse_frame : List ℕ → Option SseEvent
  parse_sse_frame frame = sse_event (read_lines (lines (split_lines (lossy frame))) none [])

  -- The `while let` of `try_push`. Every round consumes a delimiter, so there are no more rounds
  -- than bytes.
  unfoldable pub scan : ℕ → List ℕ → (max_frame_bytes scan_pos consumed : ℕ) → List SseEvent → Scan
  scan zero buffer max_frame_bytes scan_pos consumed events = record {
    consumed = consumed;
    scan_pos = scan_pos;
    result = ok events;
  }
  scan (suc rounds) buffer max_frame_bytes scan_pos consumed events =
      elim (find_event_boundary buffer scan_pos) [
        | none ↦ record { consumed = consumed; scan_pos = scan_pos; result = ok events }
        | some (position, delimiter) ↦ elim (ltb max_frame_bytes (position - consumed)) [
          | true ↦ record { consumed = consumed; scan_pos = scan_pos; result = err frame_too_large }
          | false ↦
              scan rounds buffer max_frame_bytes (position + delimiter) (position + delimiter) (
                push_event (parse_sse_frame (take (position - consumed) (drop consumed buffer)))
                  events)
        ]
      ]

  -- The end of `try_push`, after the loop.
  abbrev pub drained : List ℕ → Scan → SseDecoder
  drained buffer s =
      if ltb 0 s.consumed
      then record {
        buffer = drop s.consumed buffer;
        scan_pos = max s.scan_pos (length buffer - 3) - s.consumed;
      }
      else record { buffer = buffer; scan_pos = length buffer - 3 }

  abbrev pub settle_scan : List ℕ → ℕ → Scan → SseResult → SseDecoder × SseResult
  settle_scan buffer max_buffer_bytes s (err e) =
      (record { buffer = buffer; scan_pos = s.scan_pos }, err e)
  settle_scan buffer max_buffer_bytes s (ok events) =
      let d = drained buffer s in
      (d, if ltb max_buffer_bytes (length d.buffer) then err buffer_too_large else ok events)

  unfoldable pub try_push : SseDecoder → List ℕ → ℕ → ℕ → SseDecoder × SseResult
  try_push d chunk max_frame_bytes max_buffer_bytes =
      let buffer = d.buffer ++ chunk in
      let s = scan (length buffer) buffer max_frame_bytes d.scan_pos 0 [] in
      if ltb max_buffer_bytes (length chunk)
        || ltb max_buffer_bytes (saturating_add (length d.buffer) (length chunk))
      then (d, err buffer_too_large)
      else settle_scan buffer max_buffer_bytes s s.result

  abbrev events_or_none : SseResult → List SseEvent
  events_or_none (ok events) = events
  events_or_none (err e) = []

  unfoldable pub push_chunk : SseDecoder → List ℕ → SseDecoder × List SseEvent
  push_chunk d chunk = let (d', r) = try_push d chunk (2 * mib) (4 * mib) in (d', events_or_none r)
