-- ===== src/Sequencer/Slots.antt =====
-- The reorder buffer as a window of sequence numbers: `Placed base buf` says that a filled slot holds
-- the message that the window assigns to it.
use native.Mathlib.Nat.{mod-lt, add-mod_right}
use c_low_latency_trading_sy.Prelude.{
  ℕ, zero, suc, ◌+◌, ◌%◌, ◌≤◌, ◌<◌, ◌≡◌, ◌≢◌, refl, ap, sym, subst, ◌∙◌, List, [], ◌∷◌, arith,
  length, get_or, length-set, get_or-set_self, get_or-set_ne, mod-inj_of_near, ℕ_discrete, dec_lt,
}
use c_low_latency_trading_sy.Sequencer.{Slot, SlotState, blank, slot_of, put, vacated}

pub length-put : (buf : List Slot) (s : ℕ) (x : Slot) → length (put buf s x) ≡ length buf
length-put buf s x = length-set buf _ x

pub slot_of-put_self :
    (buf : List Slot) (s : ℕ) (x : Slot) → 0 < length buf → slot_of (put buf s x) s ≡ x
slot_of-put_self buf s x pos =
    rw (length-put buf s x) (get_or-set_self buf (s % length buf) x blank (mod-lt s pos))

-- Numbers less than a window apart have slots of their own.
pub slot_of-put_ne :
    (buf : List Slot) (s t : ℕ) (x : Slot)
    → s ≢ t
    → t < s + length buf
    → s < t + length buf
    → slot_of (put buf s x) t ≡ slot_of buf t
slot_of-put_ne buf s t x ne near near' =
    rw (length-put buf s x) (get_or-set_ne buf (s % length buf) (t % length buf) x blank apart)
  where
    apart : s % length buf ≢ t % length buf
    apart e = elim (dec_lt s t) [
      | yes lt ↦ ne (mod-inj_of_near (length buf) s t (omega arith) near e)
      | no ge ↦ ne (sym (mod-inj_of_near (length buf) t s (omega arith) near' (sym e)))
    ]

-- A predicate of the state of each number's slot, over the window from `base` on.
abbrev pub Placed : ℕ → List Slot → Type 0
Placed base buf =
    (s : ℕ)
    → base ≤ s
    → s < base + length buf
    → (slot_of buf s).state ≡ SlotState.filled
    → (slot_of buf s).payload.message.sequence_number ≡ s

pub put-Placed :
    (base : ℕ) (buf : List Slot) (t : ℕ) (x : Slot)
    → Placed base buf
    → base ≤ t
    → t < base + length buf
    → (x.state ≡ SlotState.filled → x.payload.message.sequence_number ≡ t)
    → Placed base (put buf t x)
put-Placed base buf t x placed lo hi own s lo' hi' full =
    let len : length (put buf t x) ≡ length buf = length-put buf t x in
    elim (ℕ_discrete t s) [
      | yes e ↦
          let same : slot_of (put buf t x) s ≡ x =
            subst (λ u. slot_of (put buf t x) u ≡ x) e (slot_of-put_self buf t x (omega arith)) in
          ap (λ y. y.payload.message.sequence_number) same
          ∙ own (ap (λ y. y.state) (sym same) ∙ full)
          ∙ e
      | no ne ↦
          let same : slot_of (put buf t x) s ≡ slot_of buf s =
            slot_of-put_ne buf t s x ne (omega (arith, len)) (omega (arith, len)) in
          ap (λ y. y.payload.message.sequence_number) same
          ∙ placed s lo' (omega (arith, len)) (ap (λ y. y.state) (sym same) ∙ full)
    ]

-- The window moves on past a slot that is not filled: that slot then belongs to its last number.
pub advance-Placed :
    (base : ℕ) (buf : List Slot)
    → Placed base buf
    → (slot_of buf base).state ≢ SlotState.filled
    → Placed (suc base) buf
advance-Placed base buf placed vacant s lo hi full = elim (dec_lt s (base + length buf)) [
  | yes inside ↦ placed s (omega arith) inside full
  | no last ↦
      let e : s ≡ base + length buf = omega arith in
      absurd (
        vacant (
          ap (λ i. (get_or buf i blank).state)
            (sym (add-mod_right base (length buf)) ∙ ap (λ u. u % length buf) (sym e))
          ∙ full))
]

-- A buffer with no filled slot fits every window.
pub vacant-Placed :
    (base : ℕ) (buf : List Slot)
    → ((i : ℕ) → (get_or buf i blank).state ≡ SlotState.empty)
    → Placed base buf
vacant-Placed base buf vacant s lo hi full = cc (vacant (s % length buf))

pub get_or-emptied :
    (buf : List Slot) (i : ℕ) → (get_or (vacated buf) i blank).state ≡ SlotState.empty
get_or-emptied [] i = refl
get_or-emptied (x ∷ buf) zero = refl
get_or-emptied (x ∷ buf) (suc i) = get_or-emptied buf i
