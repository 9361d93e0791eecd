-- ===== src/Spsc/Window.antt =====
-- The slots from one index up to another, oldest first, across the wrap of the index and of the
-- ring.
use c_low_latency_trading_sy.Prelude.{
  ℕ, zero, suc, ◌+◌, ◌-◌, ◌%◌, ◌^◌, ◌≤◌, ◌<◌, ◌≡◌, ◌≢◌, refl, ap, ap₂, List, [], ◌∷◌, ◌++◌, bit_and,
  arith, add64, word64, length, get_or-set_self, get_or-set_ne, bit_and-mask, mod-word64, pow_pos,
  mod-inj_of_near,
}
use c_low_latency_trading_sy.Spsc.{read_slot, write_slot}
use native.Mathlib.Nat.{mod-lt}

pub slot-lt : (k i : ℕ) → bit_and i (2 ^ k - 1) < 2 ^ k
slot-lt k i = rw (bit_and-mask k i) (mod-lt i (pow_pos k))

-- Indices that are apart by less than a capacity lie in different slots.
pub slot-ne :
    (k i n : ℕ)
    → k ≤ 64
    → suc n < 2 ^ k
    → bit_and ((i + suc n) % word64) (2 ^ k - 1) ≢ bit_and i (2 ^ k - 1)
slot-ne k i n hk small e =
    absurd (omega (arith, mod-inj_of_near (2 ^ k) i (i + suc n) (omega arith) (omega arith) same))
  where
    same : i % 2 ^ k ≡ (i + suc n) % 2 ^ k
    same = omega (
      arith,
      e,
      bit_and-mask k i,
      bit_and-mask k ((i + suc n) % word64),
      mod-word64 k (i + suc n) hk,
    )

module _ {ℓ} {A : Type ℓ} (k : ℕ) (zeroed : A) where
  abbrev pub window : List A → ℕ → ℕ → List A
  window buf i zero = []
  window buf i (suc n) = read_slot k zeroed buf i ∷ window buf (add64 i 1) n

  pub length-window : (buf : List A) (i n : ℕ) → length (window buf i n) ≡ n
  length-window buf i zero = refl
  length-window buf i (suc n) = ap suc (length-window buf (add64 i 1) n)

  -- A window grows by the slot just past it.
  pub window-suc :
      (buf : List A) (i n : ℕ)
      → i < word64
      → window buf i (suc n) ≡ window buf i n ++ read_slot k zeroed buf ((i + n) % word64) ∷ []
  window-suc buf i zero hi = let e : (i + 0) % word64 ≡ i = omega arith in rw e
  window-suc buf i (suc n) hi =
      let e : (add64 i 1 + n) % word64 ≡ (i + suc n) % word64 = omega arith in
      rw (← e) (ap (◌∷◌ (read_slot k zeroed buf i)) (window-suc buf (add64 i 1) n (omega arith)))

  -- A write just past a window that leaves room in the ring does not touch it.
  pub window-write_slot :
      (buf : List A) (i n j : ℕ) (x : A)
      → k ≤ 64
      → i < word64
      → n < 2 ^ k
      → j ≡ (i + n) % word64
      → window (write_slot k buf j x) i n ≡ window buf i n
  window-write_slot buf i zero j x hk hi hn e = refl
  window-write_slot buf i (suc n) j x hk hi hn e =
      ap₂ ◌∷◌ (get_or-set_ne buf _ _ x zeroed (rw e (slot-ne k i n hk hn)))
        (window-write_slot buf (add64 i 1) n j x hk (omega arith) (omega arith) (omega arith))

  -- What a write leaves in its own slot.
  pub read_slot-write_slot :
      (buf : List A) (j : ℕ) (x : A)
      → length buf ≡ 2 ^ k
      → read_slot k zeroed (write_slot k buf j x) j ≡ x
  read_slot-write_slot buf j x len =
      get_or-set_self buf (bit_and j (2 ^ k - 1)) x zeroed (omega (arith, slot-lt k j))

  pub read_slot-write_slot_ne :
      (buf : List A) (i j : ℕ) (x : A)
      → bit_and i (2 ^ k - 1) ≢ bit_and j (2 ^ k - 1)
      → read_slot k zeroed (write_slot k buf i x) j ≡ read_slot k zeroed buf j
  read_slot-write_slot_ne buf i j x ne = get_or-set_ne buf _ _ x zeroed ne
