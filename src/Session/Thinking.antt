-- ===== src/Session/Thinking.antt =====
-- session.rs: the live reasoning of a session, `begin_thinking` to `reset_thinking_state`, and the
-- methods on its list of entries.
use Prim.Native.Char.{Char, code}
use h_agent_core.Base.{
  ℕ, ◌-◌, ◌*◌, String, Bool, true, false, ◌&&◌, ◌||◌, List, [], ◌∷◌, ◌++◌, Option, none, some, ltb,
  leb, ◌==◌, if◌then◌else◌, byte_len, str_eq, ◌+s◌, u64_add, kib, trim,
}
use h_agent_core.Protocol.{Json}
use h_agent_core.Collector.{drop_to}
use h_agent_core.Session.Model.{
  DisplayKind, ThinkingResult, DisplayContent, DisplayEntry, SessionRuntime, PendingApproval,
}
use h_agent_core.Session.Entries.{entry, trim_entries}

abbrev is_blank : String → Bool
is_blank s = str_eq (trim s) ""

-- `str::lines`, but for an empty last line, which is blank.
unfoldable pub strip_return : String → String
strip_return String.[] = ""
strip_return (String.◌∷◌ c s) =
    let rest = strip_return s in if code c == 13 && str_eq s "" then "" else String.◌∷◌ c rest

abbrev push_char : Char → List String → List String
push_char c [] = String.◌∷◌ c "" ∷ []
push_char c (l ∷ ls) = String.◌∷◌ c l ∷ ls

unfoldable pub split_lines : String → List String
split_lines String.[] = "" ∷ []
split_lines (String.◌∷◌ c s) =
    let rest = split_lines s in if code c == 10 then "" ∷ rest else push_char c rest

abbrev or_else : Option String → String → String
or_else none d = d
or_else (some s) d = s

-- A return is stripped where a line feed follows. `lines.rev().find(|line| !line.trim().is_empty())`.
unfoldable pub last_line : List String → Option String
last_line [] = none
last_line (l ∷ []) = if is_blank l then none else some l
last_line (l ∷ m ∷ ls) =
    let here : Option String = if is_blank (strip_return l) then none else some (strip_return l) in
    elim (last_line (m ∷ ls)) [ none ↦ here | some found ↦ some found ]

abbrev pub max_thinking_line_bytes : ℕ
max_thinking_line_bytes = 1024

abbrev pub max_thinking_buffer_bytes : ℕ
max_thinking_buffer_bytes = 64 * kib

-- `offsets.find(|offset| *offset >= minimum).unwrap_or(end)`.
unfoldable pub find_start : List ℕ → ℕ → ℕ → ℕ
find_start [] minimum end = end
find_start (offset ∷ offsets) minimum end =
    let later = find_start offsets minimum end in if leb minimum offset then offset else later

-- The text from a grapheme cluster on whose offset is `len - max` or more. The offset is one of a
-- character, so the text from there on is the rest after the characters before it.
unfoldable pub grapheme_tail : (String → List ℕ) → String → ℕ → String
grapheme_tail offsets value max_bytes =
    drop_to value (find_start (offsets value) (byte_len value - max_bytes) (byte_len value))

unfoldable pub utf8_tail : (String → List ℕ) → String → ℕ → String
utf8_tail offsets value max_bytes =
    if leb (byte_len value) max_bytes then value else grapheme_tail offsets value max_bytes

abbrev result_of : String → ThinkingResult
result_of line =
    if str_eq line "思考失败"
    then ThinkingResult.failed
    else if str_eq line "思考已取消"
    then ThinkingResult.cancelled
    else ThinkingResult.completed

abbrev partial_entry : {V : Type 0} → DisplayEntry V → DisplayEntry V
partial_entry e = elim e.kind [
  | DisplayKind.assistant ↦ elim e.content [
    | DisplayContent.markdown t ↦
        if is_blank t then e else entry DisplayKind.assistant_partial (DisplayContent.markdown t)
    | _ ↦ e
  ]
  | _ ↦ e
]

-- `entries.last_mut()` changed in place.
abbrev pub map_last :
    {V : Type 0} → (DisplayEntry V → DisplayEntry V) → List (DisplayEntry V) → List (DisplayEntry V)
map_last f [] = []
map_last f (e ∷ []) = f e ∷ []
map_last f (e ∷ d ∷ es) = e ∷ map_last f (d ∷ es)

module _ {V F : Type 0} where
  unfoldable pub push_entry : SessionRuntime V F → DisplayEntry V → SessionRuntime V F
  push_entry s e = record s { entries = s.entries ++ e ∷ [] }

  unfoldable pub begin_thinking : SessionRuntime V F → SessionRuntime V F
  begin_thinking s = record s {
    thinking_active = true;
    thinking_last_line = "模型正在思考";
    thinking_buffer = "";
    thinking_buffer_truncated = false;
    thinking_buffer_epoch = u64_add s.thinking_buffer_epoch 1;
  }

  abbrev cleared : SessionRuntime V F → SessionRuntime V F
  cleared s = record s {
    thinking_buffer = "";
    thinking_last_line = "";
    thinking_buffer_truncated = false;
    thinking_buffer_epoch = u64_add s.thinking_buffer_epoch 1;
  }

  unfoldable pub persist_thinking_summary : String → SessionRuntime V F → SessionRuntime V F
  persist_thinking_summary id s =
      let reasoning = trim s.thinking_buffer in
      let content =
        if s.thinking_buffer_truncated then "[较早思考内容已截断]\n\n" +s reasoning else reasoning in
      if str_eq reasoning ""
      then cleared s
      else push_entry (cleared s) (
          entry DisplayKind.thinking
            (DisplayContent.thinking (record { id = id; content = content })))

  -- `id` is what `Uuid::new_v4` gives for the summary.
  unfoldable pub finish_thinking : String → SessionRuntime V F → String → SessionRuntime V F
  finish_thinking id s line =
      record (persist_thinking_summary id (record s { thinking_active = false })) {
        thinking_result = result_of line;
      }

  unfoldable pub reset_thinking_state : SessionRuntime V F → SessionRuntime V F
  reset_thinking_state s = record s {
    thinking_active = false;
    thinking_last_line = "";
    thinking_buffer = "";
    thinking_buffer_truncated = false;
    thinking_buffer_epoch = u64_add s.thinking_buffer_epoch 1;
    thinking_result = ThinkingResult.completed;
  }

  unfoldable pub update_thinking_line :
      (String → List ℕ) → SessionRuntime V F → String → SessionRuntime V F
  update_thinking_line offsets s delta =
      let joined = s.thinking_buffer +s delta in
      let over = ltb max_thinking_buffer_bytes (byte_len joined) in
      let buffer =
        if over then grapheme_tail offsets joined max_thinking_buffer_bytes else joined in
      let latest = or_else (last_line (split_lines buffer)) "思考中" in
      record s {
        thinking_active = true;
        thinking_buffer = buffer;
        thinking_buffer_truncated = over || s.thinking_buffer_truncated;
        thinking_buffer_epoch =
            if over then u64_add s.thinking_buffer_epoch 1 else s.thinking_buffer_epoch;
        thinking_last_line = utf8_tail offsets latest max_thinking_line_bytes;
      }

  unfoldable pub take_pending_approval :
      SessionRuntime V F → SessionRuntime V F × Option (PendingApproval V)
  take_pending_approval s = (record s { pending_approval = none }, s.pending_approval)

  unfoldable pub mark_partial_if_streaming : SessionRuntime V F → SessionRuntime V F
  mark_partial_if_streaming s = record s { entries = map_last partial_entry s.entries }

-- The method returns early when neither limit is exceeded, and the function does nothing then.
unfoldable pub trim_session :
    {V F : Type 0} → ⦃j : Json V⦄ → SessionRuntime V F → SessionRuntime V F
trim_session s = record s { entries = (trim_entries s.entries).0 }
