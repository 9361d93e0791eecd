-- ===== src/Prelude/Masks.antt =====
-- A mask of `k` ones keeps the residue: `x & (2 ^ k - 1)` is `x % 2 ^ k`.
use Prim.Native.Nat.{
  ℕ, zero, suc, ◌+◌, ◌-◌, ◌*◌, ◌/◌, ◌%◌, ◌^◌, ◌≤◌, ◌<◌, min, bit_and, digits, bit_and-bitwise,
}
use mathlib.Core.Path.{◌≡◌, refl, sym, ap, ◌∙◌}
use native.Mathlib.Omega.{arith}
use c_low_latency_trading_sy.Prelude.Powers.{pow_pos}
use native.Mathlib.Nat.{pow-suc, mod-add-div', mod-lt, mod-eq_of_lt, add-mul-mod_self_right}

-- The digit recursion that the native operation stands for, and its independence of spare digits.
abbrev meet : ℕ → ℕ → ℕ → ℕ
meet f a b = digits (λ _. zero) min f a b

meet_spare : (f g a b : ℕ) → a ≤ f → a ≤ g → meet f a b ≡ meet g a b
meet_spare zero zero a b p q = refl
meet_spare zero (suc g) zero b p q = refl
meet_spare zero (suc g) (suc a) b p q = absurd (omega arith)
meet_spare (suc f) zero zero b p q = refl
meet_spare (suc f) zero (suc a) b p q = absurd (omega arith)
meet_spare (suc f) (suc g) zero b p q = refl
meet_spare (suc f) (suc g) (suc a) b p q =
    omega (arith, meet_spare f g (suc a / 2) (b / 2) (omega arith) (omega arith))

bit_and-zero_left : (b : ℕ) → bit_and 0 b ≡ 0
bit_and-zero_left b = bit_and-bitwise 0 b

bit_and-halve : (a b : ℕ) → bit_and a b ≡ bit_and (a / 2) (b / 2) * 2 + min (a % 2) (b % 2)
bit_and-halve zero b = omega (arith, bit_and-zero_left b, bit_and-zero_left (b / 2))
bit_and-halve (suc a) b = omega (
  arith,
  bit_and-bitwise (suc a) b,
  bit_and-bitwise (suc a / 2) (b / 2),
  meet_spare a (suc a / 2) (suc a / 2) (b / 2) (omega arith) (omega arith),
)

bit_and-zero_bounded : (n a : ℕ) → a ≤ n → bit_and a 0 ≡ 0
bit_and-zero_bounded n zero h = refl
bit_and-zero_bounded zero (suc a) h = absurd (omega arith)
bit_and-zero_bounded (suc n) (suc a) h =
    omega (arith, bit_and-halve (suc a) 0, bit_and-zero_bounded n (suc a / 2) (omega arith))

halve-mod : (a p : ℕ) → 0 < p → (a / 2) % p * 2 + a % 2 ≡ a % (p * 2)
halve-mod a p h = sym (
    ap (λ t. t % (p * 2)) split
    ∙ add-mul-mod_self_right rest (a / 2 / p) (p * 2)
    ∙ mod-eq_of_lt small)
  where
    rest : ℕ
    rest = (a / 2) % p * 2 + a % 2

    small : rest < p * 2
    small = omega (arith, mod-lt (a / 2) h)

    split : a ≡ rest + a / 2 / p * (p * 2)
    split = omega (arith, ap (λ (t : ℕ). t * 2) (mod-add-div' (a / 2) p))

pub bit_and-mask : (k a : ℕ) → bit_and a (2 ^ k - 1) ≡ a % 2 ^ k
bit_and-mask zero a = omega (arith, bit_and-zero_bounded a a (omega arith))
bit_and-mask (suc k) a = omega (
  arith,
  pow-suc 2 k,
  pow_pos k,
  bit_and-halve a (2 ^ suc k - 1),
  ap (bit_and (a / 2)) half_mask,
  bit_and-mask k (a / 2),
  halve-mod a (2 ^ k) (pow_pos k),
  ap (λ t. a % t) (pow-suc 2 k),
)
  where
    half_mask : (2 ^ suc k - 1) / 2 ≡ 2 ^ k - 1
    half_mask = omega (arith, pow-suc 2 k, pow_pos k)
