-- ===== src/Prelude/Powers.antt =====
-- Powers of two that divide the modulus of a machine word.
use Prim.Native.Nat.{ℕ, zero, suc, ◌+◌, ◌-◌, ◌%◌, ◌^◌, ◌≤◌, ◌<◌, ◌∣◌}
use mathlib.Core.Path.{◌≡◌}
use native.Mathlib.Omega.{arith}
use native.Mathlib.Nat.{pow-suc, dvd_refl, dvd_trans, dvd-mul_right, mod-mod_of_dvd, le_of_dvd}
use c_low_latency_trading_sy.Prelude.Words.{word64}

pub pow_pos : (k : ℕ) → 0 < 2 ^ k
pow_pos zero = omega arith
pow_pos (suc k) = omega (arith, pow-suc 2 k, pow_pos k)

pow-dvd-pow_add : (k j n : ℕ) → k + j ≡ n → 2 ^ k ∣ 2 ^ n
pow-dvd-pow_add k zero n e = let e' : k ≡ n = omega arith in rw e' (dvd_refl (2 ^ n))
pow-dvd-pow_add k (suc j) zero e = absurd (omega arith)
pow-dvd-pow_add k (suc j) (suc n) e =
    rw (pow-suc 2 n)
      (dvd_trans (2 ^ k) (pow-dvd-pow_add k j n (omega arith)) (dvd-mul_right (2 ^ n) 2))

-- The residue modulo a capacity of at most 2 ^ 64 slots survives the wrap of the word.
pub mod-word64 : (k a : ℕ) → k ≤ 64 → a % word64 % 2 ^ k ≡ a % 2 ^ k
mod-word64 k a h = mod-mod_of_dvd (2 ^ k) a (pow-dvd-pow_add k (64 - k) 64 (omega arith))

pub pow-le-pow : (k n : ℕ) → k ≤ n → 2 ^ k ≤ 2 ^ n
pow-le-pow k n h = le_of_dvd (pow_pos n) (pow-dvd-pow_add k (n - k) n (omega arith))
