-- ===== src/Input/Cursor.antt =====
-- input.rs: positions between the characters of a text, and what a slice or a drain there gives.
use Prim.Native.Char.{Char, len_utf8}
use Prim.Native.String
use Prim.Native.String.{len}
use text.Mathlib.TextPositions.{len_utf8-pos}
use h_agent_core.Base.{
  ℕ, ◌+◌, ◌-◌, String, false, some, ltb, ◌==◌, byte_len, ◌+s◌, ◌≡◌, refl, sym, ap, ◌∙◌, arith, ◌⊎◌,
  inl, inr,
}
use h_agent_core.Input.{split_at, with_front, drain, last_index, second_index, offset_or}

Pair : Type 0
Pair = String × String

split_at-zero : (s : String) → split_at 0 s ≡ some ("", s)
unfolding split_at
split_at-zero String.[] = refl
split_at-zero (String.◌∷◌ c s) = refl

pub split_at-cons :
    (n : ℕ) (c : Char) (s : String)
    → split_at (len_utf8 c + n) (String.◌∷◌ c s) ≡ with_front c (split_at n s)
unfolding split_at
split_at-cons n c s =
    let (k, pos) = len_utf8-pos c in
    let z : (len_utf8 c + n == 0) ≡ false = ground arith in
    let l : ltb (len_utf8 c + n) (len_utf8 c) ≡ false = ground arith in
    let e : (len_utf8 c + n) - len_utf8 c ≡ n = omega arith in rw z (rw l (rw e refl))

-- The two sides of a text at the length of its first part.
pub split_at-append : (x y : String) → split_at (byte_len x) (x +s y) ≡ some (x, y)
split_at-append String.[] y =
    rw Prim.Native.String.len.nil (rw (Prim.Native.String.append.nil y) (split_at-zero y))
split_at-append (String.◌∷◌ c x) y = rw (Prim.Native.String.len.cons c x) (
    rw (Prim.Native.String.append.cons c x y)
      (split_at-cons (len x) c (x +s y) ∙ ap (λ o. with_front c o) (split_at-append x y)))

-- A drain takes the middle of three parts out.
pub drain-append :
    (x m y : String) → drain (byte_len x) (byte_len x + byte_len m) (x +s (m +s y)) ≡ some (x +s y)
unfolding drain
drain-append x m y =
    let l : ltb (byte_len x + byte_len m) (byte_len x) ≡ false = ground arith in
    let e : (byte_len x + byte_len m) - byte_len x ≡ byte_len m = omega arith in
    rw l (rw e (rw (split_at-append x (m +s y)) (rw (split_at-append m y) refl)))

pub last_index-append :
    (x : String) (c : Char) → last_index (x +s String.◌∷◌ c "") ≡ some (byte_len x)
unfolding last_index
last_index-append String.[] c =
    rw Prim.Native.String.len.nil (rw (Prim.Native.String.append.nil (String.◌∷◌ c "")) refl)
last_index-append (String.◌∷◌ d x) c = rw (Prim.Native.String.len.cons d x) (
    rw (Prim.Native.String.append.cons d x (String.◌∷◌ c ""))
      (rw (last_index-append x c, last_index) refl))

-- Where the character at the front of a text ends.
pub second_index-end :
    (c : Char) (y : String) (base total : ℕ)
    → total ≡ base + byte_len (String.◌∷◌ c y)
    → offset_or base (second_index (String.◌∷◌ c y)) total ≡ base + len_utf8 c
second_index-end c String.[] base total h =
    h
    ∙ ap (λ n. base + n)
        (Prim.Native.String.len.cons c "" ∙ ap (λ n. len_utf8 c + n) Prim.Native.String.len.nil)
    ∙ omega arith
second_index-end c (String.◌∷◌ d y) base total h = refl

-- A text is empty or ends with a character.
pub String-ends :
    (x : String) → (x ≡ "") ⊎ ((front : String) × ((c : Char) × (x ≡ front +s String.◌∷◌ c "")))
String-ends String.[] = inl refl
String-ends (String.◌∷◌ d x) = elim (String-ends x) [
  | inl e ↦
      inr (
        "",
        (d, ap (λ t. String.◌∷◌ d t) e ∙ sym (Prim.Native.String.append.nil (String.◌∷◌ d ""))),
      )
  | inr (front, (c, e)) ↦ inr (
    String.◌∷◌ d front,
    (
      c,
      ap (λ t. String.◌∷◌ d t) e ∙ sym (Prim.Native.String.append.cons d front (String.◌∷◌ c "")),
    ),
  )
]
