-- ===== src/Base/Trim.antt =====
-- `str::trim` and its relatives. White space is the 25 code points of Unicode's `White_Space`.
use Prim.Native.Char.{code}
use Prim.Native.Nat.{ℕ}
use Prim.Native.String.{String}
use mathlib.Core.Path.{◌≡◌, refl, ap, ◌∙◌}
use mathlib.Core.Logic.{inl, inr}
use mathlib.Core.Bool.{Bool, true, false, not, ◌&&◌, ◌||◌}
use h_agent_core.Base.Tests.{leb, ◌==◌, if◌then◌else◌, Bool-cases}

unfoldable pub is_whitespace : ℕ → Bool
is_whitespace c =
    (leb 9 c && leb c 13)
    || (c == 32)
    || (c == 133)
    || (c == 160)
    || (c == 5760)
    || (leb 8192 c && leb c 8202)
    || (c == 8232)
    || (c == 8233)
    || (c == 8239)
    || (c == 8287)
    || (c == 12288)

abbrev pub is_empty : String → Bool
is_empty String.[] = true
is_empty (String.◌∷◌ c s) = false

unfoldable pub trim_start : String → String
trim_start String.[] = String.[]
trim_start (String.◌∷◌ c s) =
    let rest = trim_start s in if is_whitespace (code c) then rest else String.◌∷◌ c s

-- `trim_end_matches` with a test on characters.
unfoldable pub trim_end_by : (ℕ → Bool) → String → String
trim_end_by p String.[] = String.[]
trim_end_by p (String.◌∷◌ c s) =
    let rest = trim_end_by p s in
    if p (code c) && is_empty rest then String.[] else String.◌∷◌ c rest

unfoldable pub trim : String → String
trim s = trim_end_by is_whitespace (trim_start s)

trim_end_by_idem : (p : ℕ → Bool) (s : String) → trim_end_by p (trim_end_by p s) ≡ trim_end_by p s
unfolding trim_end_by
trim_end_by_idem p String.[] = refl
trim_end_by_idem p (String.◌∷◌ c s) = elim (Bool-cases (p (code c) && is_empty (trim_end_by p s))) [
  | inl e ↦ rw e
  | inr e ↦ rw (e, trim_end_by_idem p s, e)
]

-- No white space stands first.
abbrev starts_clean : String → Bool
starts_clean String.[] = true
starts_clean (String.◌∷◌ c s) = not (is_whitespace (code c))

trim_start-clean : (s : String) → starts_clean (trim_start s) ≡ true
unfolding trim_start
trim_start-clean String.[] = refl
trim_start-clean (String.◌∷◌ c s) = elim (Bool-cases (is_whitespace (code c))) [
  | inl e ↦ rw e (trim_start-clean s)
  | inr e ↦ rw (e, e)
]

trim_end_by-clean :
    (p : ℕ → Bool) (s : String) → starts_clean s ≡ true → starts_clean (trim_end_by p s) ≡ true
unfolding trim_end_by
trim_end_by-clean p String.[] h = refl
trim_end_by-clean p (String.◌∷◌ c s) h =
    elim (Bool-cases (p (code c) && is_empty (trim_end_by p s))) [ inl e ↦ rw e | inr e ↦ rw e h ]

trim_start_fixed : (s : String) → starts_clean s ≡ true → trim_start s ≡ s
unfolding trim_start
trim_start_fixed String.[] h = refl
trim_start_fixed (String.◌∷◌ c s) h = elim (Bool-cases (is_whitespace (code c))) [
  | inl e ↦ cc
  | inr e ↦ rw e
]

pub trim-trim : (s : String) → trim (trim s) ≡ trim s
unfolding trim
trim-trim s =
    ap (trim_end_by is_whitespace)
      (trim_start_fixed _ (trim_end_by-clean is_whitespace _ (trim_start-clean s)))
    ∙ trim_end_by_idem is_whitespace _
