-- ===== src/Input/Keys.antt =====
-- input.rs: any sequence of characters typed, characters erased and moves by a character.
use Prim.Native.Char.{Char, len_utf8}
use Prim.Native.String
use text.Mathlib.TextPositions.{len-append}
use text.Mathlib.TextLemmas.{append-nil, append_assoc}
use h_agent_core.Base.{
  ◌>>=◌, ℕ, ◌+◌, ◌≤◌, ◌<◌, String, true, false, List, [], ◌∷◌, Option, none, some, ltb, leb, ◌==◌,
  byte_len, ◌+s◌, saturating_add, u64_max, ◌≡◌, refl, sym, ap, ◌∙◌, arith, Bool-cases, inl, inr,
}
use h_agent_core.Input.{
  InputBuffer, insert, backspace, delete, move_left, move_right, move_to, last_index,
}
use h_agent_core.Input.Cursor.{String-ends}
use h_agent_core.Input.Editing.{
  PlacedAt, split-PlacedAt, nothing_selected, insert-PlacedAt, snoc-PlacedAt, backspace-PlacedAt,
  delete-PlacedAt, len-char, move_left-PlacedAt, move_right-PlacedAt,
}

pub data Key : Type 0 where
  typed : Char → Key
  erased_left erased_right left right : Key

unfoldable pub press : Key → InputBuffer → Option InputBuffer
press (typed c) b = insert b c
press erased_left b = backspace b
press erased_right b = delete b
press left b = move_left b
press right b = move_right b

unfoldable pub press_all : List Key → InputBuffer → Option InputBuffer
press_all [] b = some b
press_all (k ∷ ks) b = do d ← press k b; press_all ks d

-- The cursor is between two characters, nothing is selected, and the text is within its limit.
pub record IsSound (b : InputBuffer) : Type 0 where
  pub before : String
  pub behind : String
  pub at : PlacedAt b before behind
  pub small : byte_len b.text ≤ b.max_bytes
  pub bound : b.max_bytes < u64_max

Kept : InputBuffer → Option InputBuffer → Type 0
Kept b o = (b' : InputBuffer) × ((o ≡ some b') × (IsSound b' × (b'.max_bytes ≡ b.max_bytes)))

room : (m n k : ℕ) → m < u64_max → ltb m (saturating_add n k) ≡ false → n + k ≤ m
room m n k h l = ground arith

full :
    (b : InputBuffer) (c : Char)
    → b.selection ≡ none
    → ltb b.max_bytes (saturating_add (byte_len b.text) (len_utf8 c)) ≡ true
    → insert b c ≡ some b
unfolding insert
full b c h l = rw (nothing_selected b h) (rw l refl)

grown :
    (b : InputBuffer) (c : Char) (x y : String)
    → b.text ≡ x +s y
    → byte_len (x +s (String.◌∷◌ c "" +s y)) ≡ byte_len b.text + len_utf8 c
grown b c x y h =
    len-append x (String.◌∷◌ c "" +s y)
    ∙ ap (λ n. byte_len x + n)
        (len-append (String.◌∷◌ c "") y ∙ ap (λ n. n + byte_len y) (len-char c))
    ∙ (let e = ap byte_len h ∙ len-append x y in omega arith)

-- A text that lost a character is no longer than before.
shrunk :
    (text : String) (c : Char) (x y : String) (limit : ℕ)
    → text ≡ x +s String.◌∷◌ c y
    → byte_len text ≤ limit
    → byte_len (x +s y) ≤ limit
shrunk text c x y limit h le =
    let e = ap byte_len h ∙ len-append x (String.◌∷◌ c y) in
    let k = Prim.Native.String.len.cons c y in let d = len-append x y in omega arith

typed-Kept : (b : InputBuffer) (c : Char) → IsSound b → Kept b (insert b c)
unfolding Kept
typed-Kept b c s =
    elim (Bool-cases (ltb b.max_bytes (saturating_add (byte_len b.text) (len_utf8 c)))) [
      | inl l ↦ (b, (full b c s.at.unselected l, (s, refl)))
      | inr l ↦ (
        _,
        (
          insert-PlacedAt b c s.before s.behind s.at l,
          (
            record {
              before = s.before +s String.◌∷◌ c "";
              behind = s.behind;
              at = snoc-PlacedAt b c s.before s.behind s.at;
              small =
                  rw (grown b c s.before s.behind s.at.parts)
                    (room b.max_bytes (byte_len b.text) (len_utf8 c) s.bound l);
              bound = s.bound;
            },
            refl,
          ),
        ),
      )
    ]

same-Kept : (b : InputBuffer) → IsSound b → Kept b (some b)
unfolding Kept
same-Kept b s = (b, (refl, (s, refl)))

at_start :
    (b : InputBuffer) (y : String)
    → PlacedAt b "" y
    → (backspace b ≡ some b) × (move_left b ≡ some (move_to b 0))
unfolding backspace move_left last_index
at_start b y at =
    let zero_cursor : (b.cursor == 0) ≡ true = rw (at.place ∙ Prim.Native.String.len.nil) refl in
    (rw (nothing_selected b at.unselected) (rw zero_cursor refl), rw (split-PlacedAt at) refl)

at_end :
    (b : InputBuffer) (x : String)
    → PlacedAt b x ""
    → (delete b ≡ some b) × (move_right b ≡ some (move_to b (byte_len b.text)))
unfolding delete move_right
at_end b x at =
    let whole : byte_len b.text ≡ b.cursor =
      ap byte_len at.parts ∙ ap byte_len (append-nil x) ∙ sym at.place in
    let over : leb (byte_len b.text) b.cursor ≡ true = ground arith in
    (rw (nothing_selected b at.unselected) (rw over refl), rw (split-PlacedAt at) refl)

-- A move keeps the text, so only the place is new.
moved-Kept :
    (b : InputBuffer) (n : ℕ) (x y : String)
    → IsSound b
    → b.text ≡ x +s y
    → n ≡ byte_len x
    → Kept b (some (move_to b n))
unfolding Kept
moved-Kept b n x y s h k = (
  move_to b n,
  (
    refl,
    (
      record {
        before = x;
        behind = y;
        at = record { parts = h; place = k; unselected = refl };
        small = s.small;
        bound = s.bound;
      },
      refl,
    ),
  ),
)

-- A character is lost in front of `y`, and the cursor is there.
lost-Kept :
    (b : InputBuffer) (n : ℕ) (c : Char) (x y : String)
    → IsSound b
    → b.text ≡ x +s String.◌∷◌ c y
    → n ≡ byte_len x
    → Kept b (some (record b { text = x +s y; cursor = n; history_cursor = none }))
unfolding Kept
lost-Kept b n c x y s h k = (
  record b { text = x +s y; cursor = n; history_cursor = none },
  (
    refl,
    (
      record {
        before = x;
        behind = y;
        at = record { parts = refl; place = k; unselected = s.at.unselected };
        small = shrunk b.text c x y b.max_bytes h s.small;
        bound = s.bound;
      },
      refl,
    ),
  ),
)

front : (x y : String) (c : Char) → (x +s String.◌∷◌ c "") +s y ≡ x +s String.◌∷◌ c y
front x y c =
    append_assoc x (String.◌∷◌ c "") y
    ∙ ap (λ t. x +s t)
        (Prim.Native.String.append.cons c "" y
          ∙ ap (λ t. String.◌∷◌ c t) (Prim.Native.String.append.nil y))

left-Kept : (b : InputBuffer) → IsSound b → Kept b (backspace b) × Kept b (move_left b)
left-Kept b s = elim (String-ends s.before) [
  | inl e ↦
      (let parts : b.text ≡ "" +s s.behind = s.at.parts ∙ ap (λ t. t +s s.behind) e in
        let at : PlacedAt b "" s.behind = record {
          parts = parts;
          place = s.at.place ∙ ap byte_len e;
          unselected = s.at.unselected;
        } in
        let (erases, moves) = at_start b s.behind at in
        (
          rw erases (same-Kept b s),
          rw moves (moved-Kept b 0 "" s.behind s parts (sym Prim.Native.String.len.nil)),
        ))
  | inr (x, (c, e)) ↦
      (let parts : b.text ≡ (x +s String.◌∷◌ c "") +s s.behind =
          s.at.parts ∙ ap (λ t. t +s s.behind) e in
        let at : PlacedAt b (x +s String.◌∷◌ c "") s.behind = record {
          parts = parts;
          place = s.at.place ∙ ap byte_len e;
          unselected = s.at.unselected;
        } in
        let shifted = parts ∙ front x s.behind c in
        (
          rw (backspace-PlacedAt b c x s.behind at)
              (lost-Kept b (byte_len x) c x s.behind s shifted refl),
          rw (move_left-PlacedAt b c x s.behind at)
              (moved-Kept b (byte_len x) x (String.◌∷◌ c s.behind) s shifted refl),
        ))
]

right-Kept :
    (b : InputBuffer) (x y : String)
    → IsSound b
    → PlacedAt b x y
    → Kept b (delete b) × Kept b (move_right b)
right-Kept b x String.[] s at =
    let (erases, moves) = at_end b x at in
    (
      rw erases (same-Kept b s),
      rw moves (
          moved-Kept b (byte_len b.text) x "" s at.parts
            (ap byte_len at.parts ∙ ap byte_len (append-nil x))),
    )
right-Kept b x (String.◌∷◌ c y) s at = (
  rw (delete-PlacedAt b c x y at) (lost-Kept b b.cursor c x y s at.parts at.place),
  rw (move_right-PlacedAt b c x y at) (
      moved-Kept b (b.cursor + len_utf8 c) (x +s String.◌∷◌ c "") y s (at.parts ∙ sym (front x y c))
        (ap (λ n. n + len_utf8 c) at.place
          ∙ ap (λ n. byte_len x + n) (sym (len-char c))
          ∙ sym (len-append x (String.◌∷◌ c "")))),
)

press-Kept : (k : Key) (b : InputBuffer) → IsSound b → Kept b (press k b)
unfolding press
press-Kept (typed c) b s = typed-Kept b c s
press-Kept erased_left b s = (left-Kept b s).0
press-Kept erased_right b s = (right-Kept b s.before s.behind s s.at).0
press-Kept left b s = (left-Kept b s).1
press-Kept right b s = (right-Kept b s.before s.behind s s.at).1

-- No sequence of characters typed, characters erased on either side and moves by a character makes a sound buffer panic: it returns a buffer whose cursor is again between two characters and whose text is again within the limit.
pub press_all-IsSound :
    (ks : List Key) (b : InputBuffer)
    → IsSound b
    → (b' : InputBuffer) × ((press_all ks b ≡ some b')
        × (IsSound b' × (b'.max_bytes ≡ b.max_bytes)))
unfolding press_all Kept
press_all-IsSound [] b s = (b, (refl, (s, refl)))
press_all-IsSound (k ∷ ks) b s =
    let (d, (pressed, (sound, same))) = press-Kept k b s in
    let (b', (rest, (sound', same'))) = press_all-IsSound ks d sound in
    (b', (rw pressed rest, (sound', same' ∙ same)))
