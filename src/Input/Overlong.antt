-- ===== src/Input/Overlong.antt =====
-- input.rs: `set` on a text that is longer than the limit.
use Prim.Native.Char.{Char, len_utf8}
use Prim.Native.String
use text.Mathlib.TextPositions.{len-append}
use h_agent_core.Base.{
  ℕ, ◌+◌, ◌<◌, String, true, false, none, ltb, lt→ltb, ◌==◌, byte_len, ◌+s◌, ◌≡◌, refl, ap, ◌∙◌,
  arith,
}
use h_agent_core.Input.{InputBuffer, split_at, with_front, set}
use h_agent_core.Input.Cursor.{split_at-cons}

inside_first :
    (k : ℕ) (c : Char) (z : String) → 0 < k → k < len_utf8 c → split_at k (String.◌∷◌ c z) ≡ none
unfolding split_at
inside_first k c z pos h =
    let a : (k == 0) ≡ false = ground arith in rw a (rw (lt→ltb k (len_utf8 c) h) refl)

split_at-inside :
    (x : String) (k : ℕ) (c : Char) (z : String)
    → 0 < k
    → k < len_utf8 c
    → split_at (byte_len x + k) (x +s String.◌∷◌ c z) ≡ none
split_at-inside String.[] k c z pos h =
    let e : 0 + k ≡ k = omega arith in
    rw Prim.Native.String.len.nil
      (rw (Prim.Native.String.append.nil (String.◌∷◌ c z)) (rw e (inside_first k c z pos h)))
split_at-inside (String.◌∷◌ d x) k c z pos h =
    let e : byte_len (String.◌∷◌ d x) + k ≡ len_utf8 d + (byte_len x + k) =
      (let f = Prim.Native.String.len.cons d x in omega arith) in
    rw e (
      rw (Prim.Native.String.append.cons d x (String.◌∷◌ c z)) (
        split_at-cons (byte_len x + k) d (x +s String.◌∷◌ c z)
        ∙ ap (λ o. with_front d o) (split_at-inside x k c z pos h)))

-- Setting a text whose byte limit falls inside a character panics, though the loop behind the cut is there to move back to a boundary.
pub set-inside :
    (b : InputBuffer) (x : String) (k : ℕ) (c : Char) (z : String)
    → b.max_bytes ≡ byte_len x + k
    → 0 < k
    → k < len_utf8 c
    → set b (x +s String.◌∷◌ c z) ≡ none
unfolding set
set-inside b x k c z limit pos h =
    let long : ltb b.max_bytes (byte_len (x +s String.◌∷◌ c z)) ≡ true =
      (let f = len-append x (String.◌∷◌ c z) in
        let g = Prim.Native.String.len.cons c z in
        lt→ltb b.max_bytes (byte_len (x +s String.◌∷◌ c z)) (omega arith)) in
    let cut : split_at b.max_bytes (x +s String.◌∷◌ c z) ≡ none =
      rw limit (split_at-inside x k c z pos h) in
    rw long (rw cut refl)
