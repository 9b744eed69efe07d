-- ===== src/Input/Moves.antt =====
-- input.rs: the moves between lines, the selection, the deletion of a word and the history.
use Prim.Native.Char.{code, len_utf8}
use h_agent_core.Base.{
  trim, is_whitespace, ◌>>=◌, ℕ, ◌+◌, ◌-◌, min, max, String, Bool, true, false, not, ◌&&◌, ◌||◌, [],
  ◌∷◌, ◌++◌, Option, none, some, leb, ◌==◌, if◌then◌else◌, length, get_elem?, last?, drop, str_eq,
  byte_len,
}
use h_agent_core.Input.{
  InputBuffer, split_at, drain, find_newline, rfind_newline, offset_or, move_to, move_left,
  move_right, clear, set, delete_selection,
}

-- The columns are counted in bytes.
unfoldable pub move_up : InputBuffer → Option InputBuffer
move_up b = do
  (x, y) ← split_at b.cursor b.text
  elim (rfind_newline x) [
    | none ↦ some (record b { selection = none })
    | some line_start ↦ do
      (before, rest) ← split_at line_start b.text
      some (
          move_to b
            (min (offset_or 1 (rfind_newline before) 0 + (b.cursor - (line_start + 1))) line_start))
  ]

unfoldable pub move_down : InputBuffer → Option InputBuffer
move_down b = do
  (x, y) ← split_at b.cursor b.text
  elim (find_newline y) [
    | none ↦ some (record b { selection = none })
    | some i ↦ do
      (before, rest) ← split_at (b.cursor + i + 1) b.text
      some (
          move_to b (
            min (b.cursor + i + 1 + (b.cursor - offset_or 1 (rfind_newline x) 0))
              (offset_or (b.cursor + i + 1) (find_newline rest) (byte_len b.text))))
  ]

-- The loop of `delete_word_left`, from the right: the start so far, whether a character that is
-- no space was seen, and whether the loop was left.
unfoldable pub word_start : ℕ → String → ℕ × Bool × Bool
word_start index String.[] = (index, false, false)
word_start index (String.◌∷◌ c s) =
    let (start, seen, stopped) = word_start (index + len_utf8 c) s in
    if stopped || (is_whitespace (code c) && seen)
    then (start, seen, true)
    else (index, seen || not (is_whitespace (code c)), false)

abbrev erase_word : InputBuffer → Option InputBuffer
erase_word b = do
  (before, y) ← split_at b.cursor b.text
  text ← drain ((word_start 0 before).0) b.cursor b.text
  some (record b { text = text; cursor = (word_start 0 before).0; history_cursor = none })

unfoldable pub delete_word_left : InputBuffer → Option InputBuffer
delete_word_left b = do
  (d, deleted) ← delete_selection b
  if deleted || (d.cursor == 0) then some d else erase_word d

abbrev anchor_left : InputBuffer → ℕ
anchor_left b = elim b.selection [
  | none ↦ b.cursor
  | some (start, stop) ↦ if b.cursor == stop then start else stop
]

abbrev anchor_right : InputBuffer → ℕ
anchor_right b = elim b.selection [
  | none ↦ b.cursor
  | some (start, stop) ↦ if b.cursor == start then stop else start
]

abbrev pub select_from : ℕ → InputBuffer → InputBuffer
select_from anchor b = record b { selection = some (min anchor b.cursor, max b.cursor anchor) }

unfoldable pub select_left : InputBuffer → Option InputBuffer
select_left b = do d ← move_left b; some (select_from (anchor_left b) d)

unfoldable pub select_right : InputBuffer → Option InputBuffer
select_right b = do d ← move_right b; some (select_from (anchor_right b) d)

unfoldable pub select_all : InputBuffer → InputBuffer
select_all b = record b { selection = some (0, byte_len b.text); cursor = byte_len b.text }

abbrev is_last : String → Option String → Bool
is_last value none = false
is_last value (some item) = str_eq item value

-- The `while` takes the oldest entries out until there are no more than `max_history`.
unfoldable pub push_history : InputBuffer → InputBuffer
push_history b =
    let value = trim b.text in
    let pushed = b.history ++ value ∷ [] in
    if str_eq value ""
    then b
    else if is_last value (last? b.history)
    then record b { history_cursor = none }
    else record b { history = drop (length pushed - b.max_history) pushed; history_cursor = none }

-- The entry at an index, where there is one.
abbrev recall : InputBuffer → ℕ → Option InputBuffer
recall b next = elim (get_elem? b.history next) [
  | none ↦ some (record b { history_cursor = some next })
  | some value ↦ do d ← set b value; some (record d { history_cursor = some next })
]

abbrev previous_index : Option ℕ → ℕ → ℕ
previous_index none count = count - 1
previous_index (some index) count = index - 1

unfoldable pub history_previous : InputBuffer → Option InputBuffer
history_previous b =
    let recalled = recall b (previous_index b.history_cursor (length b.history)) in
    if length b.history == 0 then some b else recalled

unfoldable pub history_next : InputBuffer → Option InputBuffer
history_next b = elim b.history_cursor [
  | none ↦ some b
  | some index ↦
      (let recalled = recall b (index + 1) in
        if leb (length b.history) (index + 1) then some (clear b) else recalled)
]
