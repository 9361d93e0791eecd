-- ===== src/Sequencer/Deliver.antt =====
-- `next_deliverable` of market_data/sequence_manager.cpp.
use native.Mathlib.Nat.{add-mod_right, mod-lt}
use c_low_latency_trading_sy.Prelude.{
  ℕ, zero, suc, ◌+◌, ◌*◌, ◌%◌, ◌≤◌, ◌<◌, ◌≡◌, ◌≢◌, refl, ap, sym, subst, ◌∙◌, true, false, List, [],
  ◌∷◌, arith, length, set, get_or, ℕ_discrete, dec_lt, inl, inr, ◌⊎◌, Option, none, some, word64,
  add64,
}
use c_low_latency_trading_sy.Message.{FeedMessage}
use c_low_latency_trading_sy.Sequencer.{
  SequenceManager, Slot, SlotState, blank, slot_of, passed, deliver_from, next_deliverable,
}
use c_low_latency_trading_sy.Sequencer.Slots.{
  length-put, slot_of-put_self, slot_of-put_ne, put-Placed, advance-Placed,
}
use c_low_latency_trading_sy.Sequencer.Grow.{IsSound}

-- The slots that a drain would pass over: the measure of the loop.
abbrev weight : SlotState → ℕ
weight SlotState.skipped = 1
weight _ = 0

skips : List Slot → ℕ
skips [] = 0
skips (x ∷ buf) = weight x.state + skips buf

skips-le-length : (buf : List Slot) → skips buf ≤ length buf
unfolding skips
skips-le-length [] = omega arith
skips-le-length (x ∷ buf) = ground (arith, skips-le-length buf)

skips-set :
    (buf : List Slot) (i : ℕ) (x : Slot)
    → i < length buf
    → (get_or buf i blank).state ≡ SlotState.skipped
    → x.state ≡ SlotState.empty
    → suc (skips (set buf i x)) ≡ skips buf
unfolding skips
skips-set [] i x h old new = absurd (omega arith)
skips-set (y ∷ buf) zero x h old new = ground arith
skips-set (y ∷ buf) (suc i) x h old new = omega (arith, skips-set buf i x (omega arith) old new)

-- The numbers from the expected one up to `hi` were given up.
pub record Passes (m : SequenceManager) (hi : ℕ) : Type 0 where
  pub from_expected : m.expected ≤ hi
  pub in_window : hi ≤ m.expected + length m.buffer
  pub given_up : (s : ℕ) → m.expected ≤ s → s < hi → (slot_of m.buffer s).state ≡ SlotState.skipped

module _ (m : SequenceManager) (v : IsSound m) where
  passed_next : (passed m).expected ≡ suc m.expected
  passed_next = omega (arith, v.word, v.room)

  passed_size : length (passed m).buffer ≡ length m.buffer
  passed_size = length-put m.buffer m.expected _

  -- The emptied slot is the one of the number that enters the window.
  passed_last : (slot_of (passed m).buffer (m.expected + length m.buffer)).state ≡ SlotState.empty
  passed_last =
      ap (λ i. (get_or (passed m).buffer i blank).state) wraps
      ∙ ap (λ y. y.state) (slot_of-put_self m.buffer m.expected _ v.room)
    where
      wraps :
          (m.expected + length m.buffer) % length (passed m).buffer
          ≡ m.expected % length (passed m).buffer
      wraps = rw passed_size (add-mod_right m.expected (length m.buffer))

  passed_slot :
      (s : ℕ)
      → m.expected < s
      → s < m.expected + length m.buffer
      → slot_of (passed m).buffer s ≡ slot_of m.buffer s
  passed_slot s lo hi = slot_of-put_ne m.buffer m.expected s _ (omega arith) hi (omega arith)

  passed-IsSound : m.expected + length m.buffer + 1 < word64 → IsSound (passed m)
  passed-IsSound word = record {
    room = omega (arith, passed_size, v.room);
    word = omega (arith, passed_size, passed_next);
    placed =
        subst
          (λ e.
            (s : ℕ)
            → e ≤ s
            → s < e + length (passed m).buffer
            → (slot_of (passed m).buffer s).state ≡ SlotState.filled
            → (slot_of (passed m).buffer s).payload.message.sequence_number ≡ s)
          (sym passed_next)
          (advance-Placed m.expected (passed m).buffer
            (put-Placed m.expected m.buffer m.expected _ v.placed (omega arith)
              (omega (arith, v.room)) (λ e. cc))
            (λ e. cc (
              ap (λ y. y.state)
                (slot_of-put_self m.buffer m.expected
                  (record (slot_of m.buffer m.expected) { state = SlotState.empty }) v.room))));
  }

  passed-Passes :
      (hi : ℕ)
      → (slot_of m.buffer m.expected).state ≡ SlotState.skipped
      → Passes (passed m) hi
      → Passes m hi
  passed-Passes hi here p = record {
    from_expected = omega (arith, passed_next, p.from_expected);
    in_window = bound;
    given_up = λ s lo up. elim (ℕ_discrete m.expected s) [
      | yes e ↦ subst (λ u. (slot_of m.buffer u).state ≡ SlotState.skipped) e here
      | no ne ↦
          ap (λ y. y.state) (sym (passed_slot s (omega arith) (omega (arith, bound))))
          ∙ p.given_up s (omega (arith, passed_next)) up
    ];
  }
    where
      bound : hi ≤ m.expected + length m.buffer
      bound = elim (dec_lt (m.expected + length m.buffer) hi) [
        | yes over ↦ absurd (
            cc (
              passed_last,
              p.given_up (m.expected + length m.buffer) (omega (arith, passed_next, v.room)) over,
            ))
        | no within ↦ omega arith
      ]

state_cases :
    (x : SlotState) → (x ≡ SlotState.empty) ⊎ (x ≡ SlotState.filled) ⊎ (x ≡ SlotState.skipped)
state_cases SlotState.empty = inl refl
state_cases SlotState.filled = inr (inl refl)
state_cases SlotState.skipped = inr (inr refl)

-- What a call has done: nothing is left to deliver and the stream waits at an empty slot, or the
-- message of some number has been handed out, and every number from the expected one up to there was
-- given up.
abbrev pub Delivers : SequenceManager → Option (Option FeedMessage × SequenceManager) → Type 0
Delivers m none = ⊥
Delivers m (some (none, n)) =
    IsSound n
    × Passes m n.expected
    × ((slot_of n.buffer n.expected).state ≡ SlotState.empty)
    × (n.started ≡ m.started)
Delivers m (some (some p, n)) =
    IsSound n
    × Passes m p.message.sequence_number
    × ((slot_of m.buffer p.message.sequence_number).state ≡ SlotState.filled)
    × ((slot_of m.buffer p.message.sequence_number).payload ≡ p)
    × (n.expected ≡ suc p.message.sequence_number)
    × (n.started ≡ m.started)

passed-Delivers :
    (m : SequenceManager) (r : Option (Option FeedMessage × SequenceManager))
    → IsSound m
    → (slot_of m.buffer m.expected).state ≡ SlotState.skipped
    → Delivers (passed m) r
    → Delivers m r
passed-Delivers m none v here d = d
passed-Delivers m (some (none, n)) v here d = (d.0, passed-Passes m v n.expected here d.1, d.2, d.3)
passed-Delivers m (some (some p, n)) v here d =
    let q : Passes m p.message.sequence_number =
      passed-Passes m v p.message.sequence_number here d.1 in
    let lo : m.expected < p.message.sequence_number =
      omega (arith, d.1.from_expected, passed_next m v) in
    let inside : p.message.sequence_number ≢ m.expected + length m.buffer = λ e. cc (
      passed_last m v,
      subst (λ s. (slot_of (passed m).buffer s).state ≡ SlotState.filled) e d.2,
    ) in
    let same : slot_of (passed m).buffer p.message.sequence_number
        ≡ slot_of m.buffer p.message.sequence_number =
      passed_slot m v p.message.sequence_number lo (omega (arith, q.in_window)) in
    (d.0, q, ap (λ y. y.state) (sym same) ∙ d.2, ap (λ y. y.payload) (sym same) ∙ d.3, d.4, d.5)

-- One round of the loop.
module _ (fuel : ℕ) (m : SequenceManager) where
  deliver_from-empty :
      (slot_of m.buffer m.expected).state ≡ SlotState.empty
      → deliver_from (suc fuel) m ≡ some (none, m)
  unfolding deliver_from
  deliver_from-empty e = rw (e, deliver_from)

  deliver_from-skipped :
      (slot_of m.buffer m.expected).state ≡ SlotState.skipped
      → deliver_from (suc fuel) m ≡ deliver_from fuel (passed m)
  unfolding deliver_from
  deliver_from-skipped e = rw (e, deliver_from)

  deliver_from-filled :
      (slot_of m.buffer m.expected).state ≡ SlotState.filled
      → deliver_from (suc fuel) m
        ≡ some (
          some (slot_of m.buffer m.expected).payload,
          record (passed m) { stats = record m.stats { delivered = add64 m.stats.delivered 1 } },
        )
  unfolding deliver_from
  deliver_from-filled e = rw (e, deliver_from)

deliver_from-Delivers :
    (fuel : ℕ) (m : SequenceManager)
    → IsSound m
    → skips m.buffer < fuel
    → m.expected + length m.buffer + fuel < word64
    → Delivers m (deliver_from fuel m)
deliver_from-Delivers zero m v h word = absurd (omega arith)
deliver_from-Delivers (suc fuel) m v h word =
    let here : Passes m m.expected = record {
      from_expected = omega arith;
      in_window = omega arith;
      given_up = λ s lo up. absurd (omega arith);
    } in
    elim (state_cases (slot_of m.buffer m.expected).state) [
      | inl e ↦ subst (Delivers m) (sym (deliver_from-empty fuel m e)) (v, here, e, refl)
      | inr (inl f) ↦
          let own : (slot_of m.buffer m.expected).payload.message.sequence_number ≡ m.expected =
            v.placed m.expected (omega arith) (omega (arith, v.room)) f in
          let w : IsSound (passed m) = passed-IsSound m v (omega arith) in
          subst (Delivers m) (sym (deliver_from-filled fuel m f)) (
            record { room = w.room; word = w.word; placed = w.placed },
            subst (Passes m) (sym own) here,
            subst (λ s. (slot_of m.buffer s).state ≡ SlotState.filled) (sym own) f,
            ap (λ s. (slot_of m.buffer s).payload) own,
            passed_next m v ∙ ap suc (sym own),
            refl,
          )
      | inr (inr s) ↦
          let fewer : suc (skips (passed m).buffer) ≡ skips m.buffer =
            skips-set m.buffer (m.expected % length m.buffer) _ (mod-lt m.expected v.room) s refl in
          subst (Delivers m) (sym (deliver_from-skipped fuel m s)) (
            passed-Delivers m (deliver_from fuel (passed m)) v s (
              deliver_from-Delivers fuel (passed m) (passed-IsSound m v (omega arith))
                (omega (arith, fewer)) (omega (arith, passed_next m v, passed_size m v))))
    ]

-- On a sound manager that has started, `next_deliverable` returns, and delivers as it should: the
-- message handed out is the buffered one of its own number, which is not below the expected one, and
-- the numbers passed over were all given up; `false` means that the stream waits at an empty slot.
pub next_deliverable-Delivers :
    (m : SequenceManager)
    → IsSound m
    → m.started ≡ true
    → m.expected + 2 * length m.buffer + 1 < word64
    → Delivers m (next_deliverable m)
unfolding next_deliverable
next_deliverable-Delivers m v on word = subst (Delivers m) (sym (ground arith)) (
    deliver_from-Delivers (suc (length m.buffer)) m v (omega (arith, skips-le-length m.buffer))
      (omega arith))

-- A manager that has not started delivers nothing.
pub next_deliverable_unstarted :
    (m : SequenceManager) → m.started ≡ false → next_deliverable m ≡ some (none, m)
unfolding next_deliverable
next_deliverable_unstarted m off = ground arith
