-- ===== src/Input/Vertical.antt =====
-- input.rs: `move_down` counts columns in bytes.
use Prim.Native.Char.{len_utf8}
use Prim.Native.String
use Prim.Native.String.{len}
use text.Mathlib.TextPositions.{len-append}
use text.Mathlib.TextLemmas.{append_assoc}
use h_agent_core.Base.{
  ℕ, ◌+◌, ◌-◌, ◌<◌, min, String, none, some, byte_len, ◌≡◌, refl, sym, ap, ◌∙◌, arith, ◌+s◌,
}
use h_agent_core.Input.{
  InputBuffer, split_at, with_front, find_newline, rfind_newline, move_to, move_left, move_right,
}
use h_agent_core.Input.Moves.{move_down}
use h_agent_core.Input.Cursor.{split_at-append, split_at-cons}

-- The text of two lines.
abbrev pub two_lines : String → String → String
two_lines x y = x +s String.◌∷◌ "\n" y

-- A cut behind a first part cuts the second one.
split_at-behind :
    (x y : String) (n : ℕ) → split_at n y ≡ none → split_at (byte_len x + n) (x +s y) ≡ none
split_at-behind String.[] y n h =
    let z : 0 + n ≡ n = omega arith in
    rw (Prim.Native.String.len.nil, z) (rw (Prim.Native.String.append.nil y) h)
split_at-behind (String.◌∷◌ c x) y n h =
    let z : (len_utf8 c + len x) + n ≡ len_utf8 c + (len x + n) = omega arith in
    rw (Prim.Native.String.len.cons c x, z)
      (rw (Prim.Native.String.append.cons c x y)
        (split_at-cons (len x + n) c (x +s y) ∙ ap (with_front c) (split_at-behind x y n h)))

-- The first line with its line feed, and then the second.
two_parts : (x y : String) → two_lines x y ≡ (x +s "\n") +s y
two_parts x y =
    ap (λ t. x +s t)
      (sym (
        Prim.Native.String.append.cons "\n" "" y
        ∙ ap (λ t. String.◌∷◌ "\n" t) (Prim.Native.String.append.nil y)))
    ∙ sym (append_assoc x "\n" y)

first-len : (x : String) → byte_len (x +s "\n") ≡ byte_len x + 1
first-len x = len-append x "\n"

split_at-newline : (x y : String) → split_at (byte_len x + 1) (two_lines x y) ≡ some (x +s "\n", y)
split_at-newline x y = rw (two_parts x y, ← first-len x) (split_at-append (x +s "\n") y)

two_lines-inside :
    (x y : String)
    → split_at (byte_len x) y ≡ none
    → split_at (byte_len x + 1 + byte_len x) (two_lines x y) ≡ none
two_lines-inside x y h =
    rw (two_parts x y, ← first-len x) (split_at-behind (x +s "\n") y (byte_len x) h)

two_lines-len : (x y : String) → byte_len (two_lines x y) ≡ byte_len x + 1 + byte_len y
two_lines-len x y =
    ap byte_len (two_parts x y) ∙ len-append (x +s "\n") y ∙ ap (λ n. n + byte_len y) (first-len x)

find_newline-first : (y : String) → find_newline (String.◌∷◌ "\n" y) ≡ some 0
unfolding find_newline
find_newline-first y = refl

move_down-two_lines :
    (b : InputBuffer) (x y : String)
    → rfind_newline x ≡ none
    → find_newline y ≡ none
    → byte_len x < byte_len y
    → move_down (record b { text = two_lines x y; cursor = byte_len x })
      ≡ some (move_to (record b { text = two_lines x y }) (byte_len x + 1 + byte_len x))
unfolding move_down find_newline
move_down-two_lines b x y one last longer =
    let place : byte_len x + 0 + 1 ≡ byte_len x + 1 = omega arith in
    let column : min (byte_len x + 1 + (byte_len x - 0)) (byte_len (two_lines x y))
        ≡ byte_len x + 1 + byte_len x =
      omega (arith, two_lines-len x y) in
    rw (split_at-append x (String.◌∷◌ "\n" y)) (
      rw (place, split_at-newline x y)
        (rw (one, last) (ap (λ n. some (move_to (record b { text = two_lines x y }) n)) column)))

-- From the end of the first of two lines, where the second is longer and has the inside of a character at the byte length of the first, `move_down` puts the cursor inside this character. The next move to the left or to the right then panics.
pub move_down_inside :
    (b : InputBuffer) (x y : String)
    → b.text ≡ two_lines x y
    → b.cursor ≡ byte_len x
    → rfind_newline x ≡ none
    → find_newline y ≡ none
    → byte_len x < byte_len y
    → split_at (byte_len x) y ≡ none
    → (b' : InputBuffer) × ((move_down b ≡ some b')
        × ((b'.cursor ≡ byte_len x + 1 + byte_len x)
            × ((move_left b' ≡ none) × (move_right b' ≡ none))))
unfolding move_left move_right
move_down_inside b x y text cursor one last longer inside =
    let stuck = two_lines-inside x y inside in
    let same : b ≡ record b { text = two_lines x y; cursor = byte_len x } =
      ap (λ t. record b { text = t }) text
      ∙ ap (λ n. record b { text = two_lines x y; cursor = n }) cursor in
    (
      move_to (record b { text = two_lines x y }) (byte_len x + 1 + byte_len x),
      (
        ap move_down same ∙ move_down-two_lines b x y one last longer,
        (refl, (rw stuck refl, rw stuck refl)),
      ),
    )
