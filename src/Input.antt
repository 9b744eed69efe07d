-- ===== src/Input.antt =====
-- input.rs: the buffer of the text that a user edits. The cursor and the ends of a selection are
-- byte positions. A slice of a text panics where a position is inside a character, and so does
-- `String::insert` and `drain`: `none` is a panic.
pub mod Moves
pub mod Cursor
pub mod Editing
pub mod Keys
pub mod Vertical
pub mod Overlong
mod Tests
use Prim.Native.Char.{Char, code, len_utf8}
use Prim.Native.String
use h_agent_core.Base.{
  trim, is_whitespace, ◌>>=◌, ℕ, ◌+◌, ◌-◌, ◌*◌, min, max, String, Bool, true, false, not, ◌&&◌,
  ◌||◌, List, [], ◌∷◌, ◌++◌, Option, none, some, ltb, leb, ◌==◌, if◌then◌else◌, length, get_elem?,
  last?, drop, str_eq, byte_len, ◌+s◌, saturating_add, kib,
}
use h_agent_core.Collector.{floor_boundary}
use Prim.Native.String.{slice}

pub record InputBuffer : Type 0 where
  pub text : String
  pub cursor : ℕ
  pub selection : Option (ℕ × ℕ)
  pub history : List String
  pub history_cursor : Option ℕ
  pub max_history : ℕ
  pub max_bytes : ℕ

unfoldable pub new_input : InputBuffer
new_input = record {
  text = "";
  cursor = 0;
  selection = none;
  history = [];
  history_cursor = none;
  max_history = 50;
  max_bytes = 512 * kib;
}

abbrev pub with_front : Char → Option (String × String) → Option (String × String)
with_front c none = none
with_front c (some (x, y)) = some (String.◌∷◌ c x, y)

-- `(&s[..n], &s[n..])`.
unfoldable pub split_at : ℕ → String → Option (String × String)
split_at n String.[] = if n == 0 then some ("", "") else none
split_at n (String.◌∷◌ c s) =
    let rest = with_front c (split_at (n - len_utf8 c) s) in
    if n == 0 then some ("", String.◌∷◌ c s) else if ltb n (len_utf8 c) then none else rest

-- `s.drain(start..end)`.
unfoldable pub drain : ℕ → ℕ → String → Option String
drain start stop s =
    if ltb stop start
    then none
    else do (x, rest) ← split_at start s; (removed, y) ← split_at (stop - start) rest; some (x +s y)

-- `char_indices().next_back()`, the place of the last character.
unfoldable pub last_index : String → Option ℕ
last_index String.[] = none
last_index (String.◌∷◌ c s) = elim (last_index s) [ none ↦ some 0 | some i ↦ some (len_utf8 c + i) ]

-- `char_indices().nth(1)`, the place of the second character.
abbrev pub second_index : String → Option ℕ
second_index String.[] = none
second_index (String.◌∷◌ c String.[]) = none
second_index (String.◌∷◌ c (String.◌∷◌ d s)) = some (len_utf8 c)

-- `find('\n')` and `rfind('\n')`.
unfoldable pub find_newline : String → Option ℕ
find_newline String.[] = none
find_newline (String.◌∷◌ c s) =
    let later : Option ℕ = elim (find_newline s) [ none ↦ none | some i ↦ some (len_utf8 c + i) ] in
    if code c == 10 then some 0 else later

unfoldable pub rfind_newline : String → Option ℕ
rfind_newline String.[] = none
rfind_newline (String.◌∷◌ c s) =
    let here : Option ℕ = if code c == 10 then some 0 else none in
    elim (rfind_newline s) [ none ↦ here | some i ↦ some (len_utf8 c + i) ]

abbrev pub unwrap_or : Option ℕ → ℕ → ℕ
unwrap_or none d = d
unwrap_or (some i) d = i

-- `map(|index| base + index).unwrap_or(default)`.
abbrev pub offset_or : ℕ → Option ℕ → ℕ → ℕ
offset_or base none default = default
offset_or base (some i) default = base + i

unfoldable pub clear : InputBuffer → InputBuffer
clear b = record b { text = ""; cursor = 0; selection = none; history_cursor = none }

-- `truncate` panics where the limit is inside a character. The loop behind it does nothing, since
-- the end of a text is a boundary.
unfoldable pub set : InputBuffer → String → Option InputBuffer
set b value =
    let placed : String → InputBuffer = λ text. record b {
      text = text;
      cursor = byte_len text;
      selection = none;
      history_cursor = none;
    } in
    let cut : Option InputBuffer = elim (split_at b.max_bytes value) [
      | none ↦ none
      | some (kept, rest) ↦ some (placed kept)
    ] in
    if ltb b.max_bytes (byte_len value) then cut else some (placed value)

-- `delete_selection`, with whether it deleted anything.
unfoldable pub delete_selection : InputBuffer → Option (InputBuffer × Bool)
delete_selection b = elim b.selection [
  | none ↦ some (b, false)
  | some (from, to) ↦
      (let start = min from to in
        let stop = max to start in
        let taken : InputBuffer = record b { selection = none } in
        if start == stop then some (taken, false) else do
          text ← drain start stop b.text
          some (record taken { text = text; cursor = start; history_cursor = none }, true))
]

-- `insert_str(cursor, value)` with the cursor behind it.
abbrev pub put : InputBuffer → String → Option InputBuffer
put b value = do
  (x, y) ← split_at b.cursor b.text
  some (record b {
    text = x +s (value +s y);
    cursor = b.cursor + byte_len value;
    history_cursor = none;
  })

unfoldable pub insert : InputBuffer → Char → Option InputBuffer
insert b c = do
  (d, deleted) ← delete_selection b
  if ltb d.max_bytes (saturating_add (byte_len d.text) (len_utf8 c))
      then some d
      else put d (String.◌∷◌ c "")

unfoldable pub insert_str : InputBuffer → String → Option InputBuffer
insert_str b value = do
  (d, deleted) ← delete_selection b
  if (d.max_bytes - byte_len d.text) == 0
      then some d
      else put d (
          slice value 0
            (floor_boundary value (min (byte_len value) (d.max_bytes - byte_len d.text))))

-- The part of `backspace` behind the selection.
abbrev pub erase_left : InputBuffer → Option InputBuffer
erase_left b = do
  (x, y) ← split_at b.cursor b.text
  text ← drain (unwrap_or (last_index x) 0) b.cursor b.text
  some (record b { text = text; cursor = unwrap_or (last_index x) 0; history_cursor = none })

unfoldable pub backspace : InputBuffer → Option InputBuffer
backspace b = do
  (d, deleted) ← delete_selection b
  if deleted || (d.cursor == 0) then some d else erase_left d

abbrev pub erase_right : InputBuffer → Option InputBuffer
erase_right b = do
  (x, y) ← split_at b.cursor b.text
  text ← drain b.cursor (offset_or b.cursor (second_index y) (byte_len b.text)) b.text
  some (record b { text = text; history_cursor = none })

unfoldable pub delete : InputBuffer → Option InputBuffer
delete b = do
  (d, deleted) ← delete_selection b
  if deleted || leb (byte_len d.text) d.cursor then some d else erase_right d

abbrev pub move_to : InputBuffer → ℕ → InputBuffer
move_to b cursor = record b { selection = none; cursor = cursor }

unfoldable pub move_left : InputBuffer → Option InputBuffer
move_left b = do (x, y) ← split_at b.cursor b.text; some (move_to b (unwrap_or (last_index x) 0))

unfoldable pub move_right : InputBuffer → Option InputBuffer
move_right b = do
  (x, y) ← split_at b.cursor b.text
  some (move_to b (offset_or b.cursor (second_index y) (byte_len b.text)))

unfoldable pub move_home : InputBuffer → Option InputBuffer
move_home b = do
  (x, y) ← split_at b.cursor b.text
  some (move_to b (offset_or 1 (rfind_newline x) 0))

unfoldable pub move_end : InputBuffer → Option InputBuffer
move_end b = do
  (x, y) ← split_at b.cursor b.text
  some (move_to b (offset_or b.cursor (find_newline y) (byte_len b.text)))
