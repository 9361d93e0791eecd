-- ===== src/Prelude/Words.antt =====
-- Machine words: 64-bit unsigned arithmetic that wraps, and residues inside a window.
use Prim.Native.Nat.{ℕ, ◌+◌, ◌-◌, ◌%◌, ◌^◌, ◌≤◌, ◌<◌}
use mathlib.Core.Path.{◌≡◌}
use native.Mathlib.Omega.{arith}
use native.Mathlib.Nat.{mod-add-div}

abbrev pub word64 : ℕ
word64 = 2 ^ 64

-- `a + b` and `a - b` of `uint64_t` and `size_t`.
abbrev pub add64 : ℕ → ℕ → ℕ
add64 a b = (a + b) % word64

abbrev pub sub64 : ℕ → ℕ → ℕ
sub64 a b = (a + word64 - b) % word64

-- Two numbers less than `cap` apart have the same residue only if they are equal.
pub mod-inj_of_near : (cap a b : ℕ) → a ≤ b → b < a + cap → a % cap ≡ b % cap → a ≡ b
mod-inj_of_near cap a b h k e = grind (arith, mod-add-div a cap, mod-add-div b cap)
