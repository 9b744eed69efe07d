-- ===== src/Base/Text.antt =====
-- Texts: the native `String` with the byte length and the tests that the program uses.
use Prim.Native.Char.{code}
use Prim.Native.Nat.{ℕ, zero, suc, ◌+◌, ◌/◌, ◌%◌}
use Prim.Native.String
use Prim.Native.String.{String, len}
use mathlib.Core.Bool.{Bool, true, false, ◌&&◌, ◌||◌}
use mathlib.Core.List.{List, [], ◌∷◌, map}
use mathlib.Core.Option.{Option, none, some}
use h_agent_core.Base.Tests.{ltb, leb, ◌==◌, if◌then◌else◌}
use text.Mathlib.Text.{◌==◌ as text_eq, starts_with}

-- `str == str`.
abbrev pub str_eq : String → String → Bool
str_eq a b = text_eq a b

-- `str::len`, in bytes of UTF-8.
abbrev pub byte_len : String → ℕ
byte_len s = len s

-- `value.as_ref().map_or(0, String::len)`.
abbrev pub opt_byte_len : Option String → ℕ
opt_byte_len none = 0
opt_byte_len (some s) = byte_len s

-- `matches!(name, "a" | "b" | …)`.
abbrev pub one_of : List String → String → Bool
one_of [] s = false
one_of (x ∷ xs) s = str_eq s x || one_of xs s

-- `str::starts_with`, the text first.
abbrev pub str_starts_with : String → String → Bool
str_starts_with s prefix = starts_with s prefix

infixr 65 ◌+s◌
abbrev pub ◌+s◌ : String → String → String
s +s t = String.◌++◌ s t

-- A map as an association list; the first entry of a key counts.
abbrev pub lookup {ℓ} : {A : Type ℓ} → String → List (String × A) → Option A
lookup key [] = none
lookup key ((k, v) ∷ rest) = if str_eq k key then some v else lookup key rest

-- The code points of a text.
abbrev pub codes : String → List ℕ
codes String.[] = []
codes (String.◌∷◌ c s) = code c ∷ codes s

-- `to_ascii_lowercase`, on one code point and on a text.
unfoldable pub lower_code : ℕ → ℕ
lower_code c = if leb b'A' c && leb c b'Z' then c + 32 else c

abbrev pub lower_codes : String → List ℕ
lower_codes s = map lower_code (codes s)

abbrev pub codes_start_with : List ℕ → List ℕ → Bool
codes_start_with s [] = true
codes_start_with [] (p ∷ ps) = false
codes_start_with (c ∷ s) (p ∷ ps) = c == p && codes_start_with s ps

abbrev pub codes_contain : List ℕ → List ℕ → Bool
codes_contain [] p = codes_start_with [] p
codes_contain (c ∷ s) p = codes_start_with (c ∷ s) p || codes_contain s p

abbrev digit : ℕ → String
digit d =
    if d == 0
    then "0"
    else if d == 1
    then "1"
    else if d == 2
    then "2"
    else if d == 3
    then "3"
    else if d == 4
    then "4"
    else if d == 5
    then "5"
    else if d == 6
    then "6"
    else if d == 7
    then "7"
    else if d == 8
    then "8"
    else "9"

-- The decimal digits of a number. A number has fewer digits than its value plus one.
unfoldable pub decimal : ℕ → ℕ → String
decimal zero n = ""
decimal (suc fuel) n = elim (ltb n 10) [
  | true ↦ digit n
  | false ↦ decimal fuel (n / 10) +s digit (n % 10)
]

abbrev pub print_ℕ : ℕ → String
print_ℕ n = decimal (suc n) n
