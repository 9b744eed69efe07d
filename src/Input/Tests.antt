-- ===== src/Input/Tests.antt =====
-- Tests and examples for the buffer of input.rs.
use h_agent_core.Base.{[], ◌∷◌, none, some, ◌+s◌, ◌≡◌, refl, arith}
use h_agent_core.Input.{
  InputBuffer, insert, backspace, split_at, drain, delete_selection, set, move_left, move_right,
  find_newline, rfind_newline,
}
use h_agent_core.Input.Moves.{move_down}
use h_agent_core.Input.Editing.{insert-backspace}
use h_agent_core.Input.Keys.{typed, erased_left, left, press_all, IsSound, press_all-IsSound}
use h_agent_core.Input.Vertical.{move_down_inside}
use h_agent_core.Input.Overlong.{set-inside}

-- The cursor is behind `a`.
abbrev between : InputBuffer
between = record {
  text = "aλ";
  cursor = 1;
  selection = none;
  history = [];
  history_cursor = none;
  max_history = 50;
  max_bytes = 100;
}

-- The last character, which has two bytes, is selected and then replaced.
replaces_selection :
    insert (record between { selection = some (1, 3); cursor = 3 }) "b"
    ≡ some (record between { text = "ab"; cursor = 2; history_cursor = none })
unfolding insert delete_selection drain split_at
replaces_selection = refl

insert-backspace_example :
    (b' : InputBuffer) × ((insert between "b" ≡ some b')
      × ((b'.text ≡ "a" +s ("b" +s "λ"))
          × (backspace b' ≡ some (record between { history_cursor = none }))))
insert-backspace_example = insert-backspace between "b" "a" "λ" refl refl refl refl

between-IsSound : IsSound between
between-IsSound = record {
  before = "a";
  behind = "λ";
  at = record { parts = refl; place = refl; unselected = refl };
  small = omega arith;
  bound = omega arith;
}

press_all-IsSound_example :
    (b' : InputBuffer) × ((press_all (left ∷ typed "μ" ∷ erased_left ∷ []) between ≡ some b')
      × (IsSound b' × (b'.max_bytes ≡ 100)))
press_all-IsSound_example =
    press_all-IsSound (left ∷ typed "μ" ∷ erased_left ∷ []) between between-IsSound

-- The second line is a character of two bytes and one of one byte.
one_line : rfind_newline "a" ≡ none
unfolding rfind_newline
one_line = refl

last_line : find_newline "λb" ≡ none
unfolding find_newline
last_line = refl

inside_lambda : split_at 1 "λb" ≡ none
unfolding split_at
inside_lambda = refl

move_down_inside_example :
    (b' : InputBuffer) × ((move_down (record between { text = "a\nλb" }) ≡ some b')
      × ((b'.cursor ≡ 3) × ((move_left b' ≡ none) × (move_right b' ≡ none))))
move_down_inside_example =
    move_down_inside (record between { text = "a\nλb" }) "a" "λb" refl refl one_line last_line
      (omega arith) inside_lambda

set-inside_example : set (record between { max_bytes = 2 }) ("a" +s "λ") ≡ none
set-inside_example =
    set-inside (record between { max_bytes = 2 }) "a" 1 "λ" "" refl (omega arith) (omega arith)
