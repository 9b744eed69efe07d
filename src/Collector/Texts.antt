-- ===== src/Collector/Texts.antt =====
-- agent.rs: what `append_text_bounded` and `append_reasoning_bounded` keep of a streamed text.
use Prim.Native.Char.{len_utf8}
use Prim.Native.String
use Prim.Native.String.{slice, len}
use text.Mathlib.TextPositions.{len-append, slice-zero-zero, slice_all}
use text.Mathlib.Text.{is_char_boundary}
use h_agent_core.Base.{
  ℕ, zero, suc, ◌+◌, ◌-◌, ◌*◌, ◌≤◌, ◌<◌, min, max, String, true, false, leb, ◌==◌, byte_len, ◌+s◌,
  ◌≡◌, refl, ap, sym, ◌∙◌, arith, kib, Bool-cases, inl, inr,
}
use h_agent_core.Collector.{append_text_bounded, floor_boundary, drop_to, append_reasoning_bounded}

pub floor_boundary-le : (s : String) (n : ℕ) → floor_boundary s n ≤ n
unfolding floor_boundary
floor_boundary-le s zero = omega arith
floor_boundary-le s (suc n) = let ih = floor_boundary-le s n in ground arith

is_char_boundary-len : (s : String) (n : ℕ) → is_char_boundary s n ≡ true → len (slice s 0 n) ≡ n
is_char_boundary-len s n h = ground arith

pub floor_boundary-len :
    (s : String) (n : ℕ) → len (slice s 0 (floor_boundary s n)) ≡ floor_boundary s n
unfolding floor_boundary
floor_boundary-len s zero = ap len (slice-zero-zero s) ∙ Prim.Native.String.len.nil
floor_boundary-len s (suc n) =
    let ih = floor_boundary-len s n in
    elim (Bool-cases (is_char_boundary s (suc n))) [
      | inl e ↦ rw e (is_char_boundary-len s (suc n) e)
      | inr e ↦ rw e ih
    ]

full_boundary : (s : String) (n : ℕ) → len s ≡ n → is_char_boundary s n ≡ true
full_boundary s n h =
    let e : len (slice s 0 n) ≡ n = rw (sym h) (ap len (slice_all s)) in ground arith

floor_boundary_all : (s : String) (n : ℕ) → len s ≡ n → floor_boundary s n ≡ n
unfolding floor_boundary
floor_boundary_all s zero h = refl
floor_boundary_all s (suc n) h =
    let e : is_char_boundary s (suc n) ≡ true = full_boundary s (suc n) h in rw e

-- After `append_text_bounded` the buffer is at most as long as the limit, or as it was if it was
-- longer already.
pub append_text_bounded-le :
    (buffer delta : String) (m : ℕ)
    → byte_len (append_text_bounded buffer delta m) ≤ max m (byte_len buffer)
unfolding append_text_bounded
append_text_bounded-le buffer delta m =
    let n = min (byte_len delta) (m - byte_len buffer) in
    let k = floor_boundary delta n in
    let e = len-append buffer (slice delta 0 k) in
    let f = floor_boundary-len delta n in
    let g = floor_boundary-le delta n in
    elim (Bool-cases ((m - byte_len buffer) == 0)) [
      | inl h ↦ rw h (omega arith)
      | inr h ↦ rw h (rw e (rw f (ground arith)))
    ]

pub drop_to-le : (s : String) (m : ℕ) → len (drop_to s m) ≤ len s - m
unfolding drop_to
drop_to-le String.[] m = omega arith
drop_to-le (String.◌∷◌ c s) m =
    let ih = drop_to-le s (m - len_utf8 c) in
    let e = Prim.Native.String.len.cons c s in
    elim (Bool-cases (m == 0)) [
      | inl h ↦ rw h (ground arith)
      | inr h ↦ rw h (rw e (omega (arith, ih)))
    ]

-- A text within the limit is kept whole.
pub append_text_bounded_fits :
    (buffer delta : String) (m : ℕ)
    → byte_len buffer + byte_len delta ≤ m
    → 0 < byte_len delta
    → append_text_bounded buffer delta m ≡ buffer +s delta
unfolding append_text_bounded
append_text_bounded_fits buffer delta m h pos =
    let z : ((m - byte_len buffer) == 0) ≡ false = ground arith in
    let k : min (byte_len delta) (m - byte_len buffer) ≡ byte_len delta = ground arith in
    rw z (rw k (rw (floor_boundary_all delta (len delta) refl) (rw (slice_all delta) refl)))

pub append_reasoning_bounded-le :
    (buffer delta : String) → byte_len (append_reasoning_bounded buffer delta) ≤ 64 * kib
unfolding append_reasoning_bounded
append_reasoning_bounded-le buffer delta =
    let joined = buffer +s delta in
    elim (Bool-cases (leb (byte_len joined) (64 * kib))) [
      | inl h ↦ rw h (ground arith)
      | inr h ↦ rw h (let d = drop_to-le joined (byte_len joined - 64 * kib) in ground arith)
    ]
