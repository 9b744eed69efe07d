-- ===== src/Input/Editing.antt =====
-- input.rs: typing, erasing and moving by a character, on a buffer without a selection.
use Prim.Native.Char.{Char, len_utf8}
use Prim.Native.String
use text.Mathlib.TextPositions.{len-append, len_utf8-pos}
use text.Mathlib.TextLemmas.{append_assoc}
use h_agent_core.Base.{
  ◌+◌, ◌<◌, String, false, none, some, ltb, leb, ◌==◌, byte_len, ◌+s◌, saturating_add, ◌≡◌, refl,
  sym, ap, ◌∙◌, arith,
}
use h_agent_core.Input.{
  InputBuffer, split_at, drain, second_index, offset_or, delete_selection, insert, backspace,
  delete, move_left, move_right, move_to,
}
use h_agent_core.Input.Cursor.{split_at-append, drain-append, last_index-append, second_index-end}

-- The cursor is between two parts of the text, and nothing is selected.
pub record PlacedAt (b : InputBuffer) (x y : String) : Type 0 where
  pub parts : b.text ≡ x +s y
  pub place : b.cursor ≡ byte_len x
  pub unselected : b.selection ≡ none

pub split-PlacedAt :
    {b : InputBuffer} {x y : String} → PlacedAt b x y → split_at b.cursor b.text ≡ some (x, y)
split-PlacedAt {x = x} {y = y} at = rw at.parts (rw at.place (split_at-append x y))

pub nothing_selected : (b : InputBuffer) → b.selection ≡ none → delete_selection b ≡ some (b, false)
unfolding delete_selection
nothing_selected b h = rw h refl

pub insert-PlacedAt :
    (b : InputBuffer) (c : Char) (x y : String)
    → PlacedAt b x y
    → ltb b.max_bytes (saturating_add (byte_len b.text) (len_utf8 c)) ≡ false
    → insert b c
      ≡ some (record b {
        text = x +s (String.◌∷◌ c "" +s y);
        cursor = b.cursor + byte_len (String.◌∷◌ c "");
        history_cursor = none;
      })
unfolding insert
insert-PlacedAt b c x y at fits =
    rw (nothing_selected b at.unselected) (rw fits (rw (split-PlacedAt at) refl))

pub snoc-PlacedAt :
    (b : InputBuffer) (c : Char) (x y : String)
    → PlacedAt b x y
    → PlacedAt
        (record b {
          text = x +s (String.◌∷◌ c "" +s y);
          cursor = b.cursor + byte_len (String.◌∷◌ c "");
          history_cursor = none;
        })
        (x +s String.◌∷◌ c "")
        y
snoc-PlacedAt b c x y at = record {
  parts = sym (append_assoc x (String.◌∷◌ c "") y);
  place = ap (λ n. n + byte_len (String.◌∷◌ c "")) at.place ∙ sym (len-append x (String.◌∷◌ c ""));
  unselected = at.unselected;
}

pub len-char : (c : Char) → byte_len (String.◌∷◌ c "") ≡ len_utf8 c
len-char c =
    Prim.Native.String.len.cons c ""
    ∙ ap (λ n. len_utf8 c + n) Prim.Native.String.len.nil
    ∙ omega arith

char-pos : (c : Char) → 0 < byte_len (String.◌∷◌ c "")
char-pos c = let (k, e) = len_utf8-pos c in rw (len-char c) (omega (arith, e))

-- Erasing the character in front of the cursor.
pub backspace-PlacedAt :
    (b : InputBuffer) (c : Char) (x y : String)
    → PlacedAt b (x +s String.◌∷◌ c "") y
    → backspace b ≡ some (record b { text = x +s y; cursor = byte_len x; history_cursor = none })
unfolding backspace
backspace-PlacedAt b c x y at =
    let one = String.◌∷◌ c "" in
    let place : b.cursor ≡ byte_len x + byte_len one = at.place ∙ len-append x one in
    let pos : (b.cursor == 0) ≡ false = let k = char-pos c in ground arith in
    let drained : drain (byte_len x) b.cursor b.text ≡ some (x +s y) =
      rw place (rw at.parts (rw (append_assoc x one y) (drain-append x one y))) in
    rw (nothing_selected b at.unselected)
      (rw pos (rw (split-PlacedAt at) (rw (last_index-append x c) (rw drained refl))))

-- Erasing the character behind the cursor.
pub delete-PlacedAt :
    (b : InputBuffer) (c : Char) (x y : String)
    → PlacedAt b x (String.◌∷◌ c y)
    → delete b ≡ some (record b { text = x +s y; history_cursor = none })
unfolding delete
delete-PlacedAt b c x y at =
    let one = String.◌∷◌ c "" in
    let joined : one +s y ≡ String.◌∷◌ c y =
      Prim.Native.String.append.cons c "" y
      ∙ ap (λ t. String.◌∷◌ c t) (Prim.Native.String.append.nil y) in
    let total : byte_len b.text ≡ b.cursor + byte_len (String.◌∷◌ c y) =
      ap byte_len at.parts
      ∙ len-append x (String.◌∷◌ c y)
      ∙ ap (λ n. n + byte_len (String.◌∷◌ c y)) (sym at.place) in
    let longer : byte_len (String.◌∷◌ c y) ≡ len_utf8 c + byte_len y =
      Prim.Native.String.len.cons c y in
    let (k, pos) = len_utf8-pos c in
    let inside : leb (byte_len b.text) b.cursor ≡ false = ground arith in
    let stop : offset_or b.cursor (second_index (String.◌∷◌ c y)) (byte_len b.text)
        ≡ byte_len x + byte_len one =
      second_index-end c y b.cursor (byte_len b.text) total
      ∙ (let p = at.place in let q = len-char c in omega arith) in
    let drained : drain b.cursor (byte_len x + byte_len one) b.text ≡ some (x +s y) =
      rw at.place (rw at.parts (rw (← joined) (drain-append x one y))) in
    rw (nothing_selected b at.unselected)
      (rw inside (rw (split-PlacedAt at) (rw stop (rw drained refl))))

pub move_left-PlacedAt :
    (b : InputBuffer) (c : Char) (x y : String)
    → PlacedAt b (x +s String.◌∷◌ c "") y
    → move_left b ≡ some (move_to b (byte_len x))
unfolding move_left
move_left-PlacedAt b c x y at = rw (split-PlacedAt at) (rw (last_index-append x c) refl)

pub move_right-PlacedAt :
    (b : InputBuffer) (c : Char) (x y : String)
    → PlacedAt b x (String.◌∷◌ c y)
    → move_right b ≡ some (move_to b (b.cursor + len_utf8 c))
unfolding move_right
move_right-PlacedAt b c x y at =
    let total : byte_len b.text ≡ b.cursor + byte_len (String.◌∷◌ c y) =
      ap byte_len at.parts
      ∙ len-append x (String.◌∷◌ c y)
      ∙ ap (λ n. n + byte_len (String.◌∷◌ c y)) (sym at.place) in
    rw (split-PlacedAt at) (rw (second_index-end c y b.cursor (byte_len b.text) total) refl)

-- A character that is typed between two parts of the text, with nothing selected and with room for it, is put there, and the next backspace takes exactly it away: text and cursor are what they were. The buffer only forgets its place in the history.
pub insert-backspace :
    (b : InputBuffer) (c : Char) (x y : String)
    → b.text ≡ x +s y
    → b.cursor ≡ byte_len x
    → b.selection ≡ none
    → ltb b.max_bytes (saturating_add (byte_len b.text) (len_utf8 c)) ≡ false
    → (b' : InputBuffer) × ((insert b c ≡ some b')
        × ((b'.text ≡ x +s (String.◌∷◌ c "" +s y))
            × (backspace b' ≡ some (record b { history_cursor = none }))))
insert-backspace b c x y parts place free fits =
    let at : PlacedAt b x y = record { parts = parts; place = place; unselected = free } in
    (
      record b {
        text = x +s (String.◌∷◌ c "" +s y);
        cursor = b.cursor + byte_len (String.◌∷◌ c "");
        history_cursor = none;
      },
      (
        insert-PlacedAt b c x y at fits,
        (
          refl,
          backspace-PlacedAt _ c x y (snoc-PlacedAt b c x y at)
              ∙ ap (λ t. some (record b { text = t; cursor = byte_len x; history_cursor = none }))
                  (sym parts)
              ∙ ap (λ n. some (record b { cursor = n; history_cursor = none })) (sym place),
        ),
      ),
    )
