-- ===== src/Sequencer/Flow.antt =====
-- `store`, `resync` and `recover_range` as `accept` of market_data/sequence_manager.cpp calls them for a
-- message that is not late.
use c_low_latency_trading_sy.Prelude.{
  ℕ, suc, ◌+◌, ◌≤◌, ◌<◌, ◌≡◌, ◌≢◌, sym, subst, ◌∙◌, Bool, true, ◌&&◌, arith, length, length-map,
  ℕ_discrete, inl, inr, ◌⊎◌, Bool-cases, word64, sub64, ltb, leb, leb→gt,
}
use c_low_latency_trading_sy.Message.{FeedMessage}
use c_low_latency_trading_sy.Sequencer.{
  SequenceManager, SlotState, slot_of, is_empty, store, vacated, emptied, resync, World,
  recover_range, accept_ahead,
}
use c_low_latency_trading_sy.Sequencer.Slots.{vacant-Placed, get_or-emptied}
use c_low_latency_trading_sy.Sequencer.Grow.{IsSound, Grows, Grows-trans, store-Grows, store_takes}
use c_low_latency_trading_sy.Sequencer.Recover.{IsTyped, recover_range-Grows}

-- The stream has started, at `base` or further, and neither the slot of the next number nor that of
-- `sequence` is empty.
pub record IsFlowing (base sequence : ℕ) (n : SequenceManager) : Type 0 where
  pub sound : IsSound n
  pub started : n.started ≡ true
  pub forward : base ≤ n.expected
  pub flows : (slot_of n.buffer n.expected).state ≢ SlotState.empty
  pub kept : (slot_of n.buffer sequence).state ≢ SlotState.empty

Grows-IsFlowing :
    {m n : SequenceManager} {sequence : ℕ}
    → Grows m n
    → m.started ≡ true
    → (slot_of n.buffer m.expected).state ≢ SlotState.empty
    → (slot_of n.buffer sequence).state ≢ SlotState.empty
    → IsFlowing m.expected sequence n
Grows-IsFlowing {n} g on flows kept = record {
  sound = g.sound;
  started = g.started ∙ on;
  forward = omega (arith, g.expected);
  flows = subst (λ e. (slot_of n.buffer e).state ≢ SlotState.empty) (sym g.expected) flows;
  kept = kept;
}

module _ (m : SequenceManager) (incoming : FeedMessage) (v : IsSound m) (on : m.started ≡ true)
    (lo : m.expected ≤ incoming.message.sequence_number)
    (word : incoming.message.sequence_number + length m.buffer < word64) where
  resync-IsFlowing : IsFlowing m.expected incoming.message.sequence_number (resync m incoming)
  unfolding resync
  resync-IsFlowing =
      let g : Grows (emptied m sequence) (store (emptied m sequence) incoming) =
        store-Grows (emptied m sequence) incoming clear (omega arith)
          (omega (arith, size, v.room)) in
      record {
        sound = g.sound;
        started = g.started ∙ on;
        forward = omega (arith, g.expected, lo);
        flows =
            subst
              (λ e.
                (slot_of (store (emptied m sequence) incoming).buffer e).state ≢ SlotState.empty)
              (sym g.expected)
              (λ gone.
                cc (store_takes (emptied m sequence) incoming (omega (arith, size, v.room)), gone));
        kept = λ gone.
            cc (store_takes (emptied m sequence) incoming (omega (arith, size, v.room)), gone);
      }
    where
      sequence : ℕ
      sequence = incoming.message.sequence_number

      size : length (vacated m.buffer) ≡ length m.buffer
      size = length-map m.buffer _

      clear : IsSound (emptied m sequence)
      clear = record {
        room = omega (arith, size, v.room);
        word = omega (arith, size, word);
        placed = vacant-Placed sequence (vacated m.buffer) (get_or-emptied m.buffer);
      }

  store-IsFlowing :
      incoming.message.sequence_number < m.expected + length m.buffer
      → (m.expected ≡ incoming.message.sequence_number)
        ⊎ ((slot_of m.buffer m.expected).state ≢ SlotState.empty)
      → IsFlowing m.expected incoming.message.sequence_number (store m incoming)
  store-IsFlowing hi (inl e) =
      Grows-IsFlowing (store-Grows m incoming v lo hi) on
        (subst (λ s. (slot_of (store m incoming).buffer s).state ≢ SlotState.empty) (sym e)
          (λ gone. cc (store_takes m incoming v.room, gone)))
        (λ gone. cc (store_takes m incoming v.room, gone))
  store-IsFlowing hi (inr full) =
      let g : Grows m (store m incoming) = store-Grows m incoming v lo hi in
      Grows-IsFlowing g on (g.held m.expected (omega arith) (omega (arith, v.room)) full)
        (λ gone. cc (store_takes m incoming v.room, gone))

  module _ {W : Type 0} (world : World W) (typed : IsTyped world) where
    recover-IsFlowing :
        (client : Bool) (w : W)
        → m.expected < incoming.message.sequence_number
        → incoming.message.sequence_number < m.expected + length m.buffer
        → IsFlowing m.expected incoming.message.sequence_number
            (recover_range world client m.expected
              (sub64 incoming.message.sequence_number 1)
              (store m incoming, w)).0
    recover-IsFlowing client w lt hi =
        let g : Grows m (store m incoming) = store-Grows m incoming v lo hi in
        let last : suc (sub64 incoming.message.sequence_number 1)
            ≡ incoming.message.sequence_number =
          omega arith in
        let (h, covered) =
          recover_range-Grows world typed client m.expected
            (sub64 incoming.message.sequence_number 1) (store m incoming) w g.sound
            (omega (arith, g.expected)) (omega arith) (omega (arith, g.expected, g.size)) in
        Grows-IsFlowing (Grows-trans g h) on (covered m.expected (omega arith) (omega arith)) (
          h.held incoming.message.sequence_number (omega (arith, g.expected))
            (omega (arith, g.expected, g.size)) (λ gone. cc (store_takes m incoming v.room, gone)))

    pub accept_ahead-IsFlowing :
        (client : Bool) (w : W)
        → IsFlowing m.expected incoming.message.sequence_number
            (accept_ahead world client incoming (m, w)).0
    accept_ahead-IsFlowing client w =
        elim (Bool-cases
          (leb (length m.buffer) (sub64 incoming.message.sequence_number m.expected))) [
            | inl far ↦ rw far resync-IsFlowing
            | inr near ↦
                let hi : incoming.message.sequence_number < m.expected + length m.buffer =
                  omega (arith, leb→gt _ _ near) in
                rw near
                  (elim (Bool-cases (
                    ltb m.expected incoming.message.sequence_number
                    && is_empty (slot_of m.buffer m.expected).state)) [
                      | inl gap ↦ rw gap (recover-IsFlowing client w (ground arith) hi)
                      | inr calm ↦ rw calm (
                          store-IsFlowing hi
                            (elim (ℕ_discrete m.expected incoming.message.sequence_number) [
                              | yes e ↦ inl e
                              | no ne ↦ inr (λ gone. ground arith)
                            ]))
                    ])
          ]
