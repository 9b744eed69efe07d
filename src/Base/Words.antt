-- ===== src/Base/Words.antt =====
-- Machine words: the 64-bit types `u64` and `usize`, their saturating operations, and `clamp`.
use Prim.Native.Nat.{ℕ, ◌+◌, ◌*◌, ◌^◌, ◌%◌, ◌≤◌}
use mathlib.Core.Path.{◌≡◌}
use mathlib.Core.Option.{Option, none, some}
use native.Mathlib.Omega.{arith}
use h_agent_core.Base.Tests.{ltb, if◌then◌else◌}

abbrev pub u64_mod : ℕ
u64_mod = 2 ^ 64

abbrev pub u64_max : ℕ
u64_max = 18446744073709551615

-- `usize` on the 64-bit targets.
abbrev pub usize_max : ℕ
usize_max = 18446744073709551615

-- Plain `+` on `u64` in a release build.
abbrev pub u64_add : ℕ → ℕ → ℕ
u64_add a b = (a + b) % u64_mod

-- `u64::saturating_add` and `usize::saturating_add`; `saturating_sub` is `◌-◌`.
abbrev pub saturating_add : ℕ → ℕ → ℕ
saturating_add a b = if ltb u64_max (a + b) then u64_max else a + b

-- `u64::saturating_mul`.
abbrev pub saturating_mul : ℕ → ℕ → ℕ
saturating_mul a b = if ltb u64_max (a * b) then u64_max else a * b

-- `Ord::clamp` with bounds that are in order.
unfoldable pub clamp : ℕ → ℕ → ℕ → ℕ
clamp x lo hi = if ltb x lo then lo else if ltb hi x then hi else x

-- `Ord::clamp`, which panics (`none`) when its bounds are out of order.
unfoldable pub clamp? : ℕ → ℕ → ℕ → Option ℕ
clamp? x lo hi = if ltb hi lo then none else some (clamp x lo hi)

pub clamp?-clamp : (x lo hi : ℕ) → lo ≤ hi → clamp? x lo hi ≡ some (clamp x lo hi)
unfolding clamp?
clamp?-clamp x lo hi h = ground arith

pub clamp_bounds : (x lo hi : ℕ) → lo ≤ hi → (lo ≤ clamp x lo hi) × (clamp x lo hi ≤ hi)
unfolding clamp
clamp_bounds x lo hi h = ground arith

pub clamp_fixed : (x lo hi : ℕ) → lo ≤ x → x ≤ hi → clamp x lo hi ≡ x
unfolding clamp
clamp_fixed x lo hi h k = ground arith

abbrev pub kib : ℕ
kib = 1024

abbrev pub mib : ℕ
mib = 1048576
