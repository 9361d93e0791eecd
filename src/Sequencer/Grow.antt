-- ===== src/Sequencer/Grow.antt =====
-- `store` and `skip_range` of market_data/sequence_manager.cpp, on the window of the manager.
use c_low_latency_trading_sy.Prelude.{
  ℕ, zero, suc, ◌+◌, ◌≤◌, ◌<◌, ◌≡◌, ◌≢◌, refl, ap, sym, subst, ◌∙◌, ◌||◌, arith, length, ℕ_discrete,
  inl, inr, Bool-cases, word64, add64, if◌then◌else◌,
}
use c_low_latency_trading_sy.Message.{MarketMessage, FeedMessage}
use c_low_latency_trading_sy.Sequencer.{
  SequenceManager, Stats, Slot, SlotState, slot_of, put, set_state, is_filled, is_empty, store,
  skip_range, World, out_of_window, take_recovered,
}
use c_low_latency_trading_sy.Sequencer.Slots.{
  length-put, slot_of-put_self, slot_of-put_ne, Placed, put-Placed,
}

pub record IsSound (m : SequenceManager) : Type 0 where
  pub room : 0 < length m.buffer
  pub word : m.expected + length m.buffer < word64
  pub placed : Placed m.expected m.buffer

pub record Grows (m n : SequenceManager) : Type 0 where
  pub expected : n.expected ≡ m.expected
  pub started : n.started ≡ m.started
  pub size : length n.buffer ≡ length m.buffer
  pub sound : IsSound n
  pub held :
      (s : ℕ)
      → m.expected ≤ s
      → s < m.expected + length m.buffer
      → (slot_of m.buffer s).state ≢ SlotState.empty
      → (slot_of n.buffer s).state ≢ SlotState.empty

pub Grows-trans : {l m n : SequenceManager} → Grows l m → Grows m n → Grows l n
Grows-trans g h = record {
  expected = h.expected ∙ g.expected;
  started = h.started ∙ g.started;
  size = h.size ∙ g.size;
  sound = h.sound;
  held = λ s lo hi full.
      h.held s (omega (arith, g.expected)) (omega (arith, g.expected, g.size))
        (g.held s lo hi full);
}

-- A change of the counters alone.
pub Grows-stats : (m : SequenceManager) (st : Stats) → IsSound m → Grows m (record m { stats = st })
Grows-stats m st v = record {
  expected = refl;
  started = refl;
  size = refl;
  sound = record { room = v.room; word = v.word; placed = v.placed };
  held = λ s lo hi full. full;
}

pub Grows-put :
    (m : SequenceManager) (t : ℕ) (x : Slot) (st : Stats)
    → IsSound m
    → m.expected ≤ t
    → t < m.expected + length m.buffer
    → x.state ≢ SlotState.empty
    → (x.state ≡ SlotState.filled → x.payload.message.sequence_number ≡ t)
    → Grows m (record m { buffer = put m.buffer t x; stats = st })
Grows-put m t x st v lo hi full own = record {
  expected = refl;
  started = refl;
  size = len;
  sound = record {
    room = omega (arith, len, v.room);
    word = omega (arith, len, v.word);
    placed = put-Placed m.expected m.buffer t x v.placed lo hi own;
  };
  held = λ s lo' hi' old. elim (ℕ_discrete t s) [
    | yes e ↦
        subst (λ u. (slot_of (put m.buffer t x) u).state ≢ SlotState.empty) e
          (λ gone. full (sym (ap (λ y. y.state) (slot_of-put_self m.buffer t x v.room)) ∙ gone))
    | no ne ↦ λ gone. old (
        sym (ap (λ y. y.state) (slot_of-put_ne m.buffer t s x ne (omega arith) (omega arith)))
        ∙ gone)
  ];
}
  where
    len : length (put m.buffer t x) ≡ length m.buffer
    len = length-put m.buffer t x

pub store-Grows :
    (m : SequenceManager) (incoming : FeedMessage)
    → IsSound m
    → m.expected ≤ incoming.message.sequence_number
    → incoming.message.sequence_number < m.expected + length m.buffer
    → Grows m (store m incoming)
unfolding store
store-Grows m incoming v lo hi =
    elim (Bool-cases (is_filled (slot_of m.buffer incoming.message.sequence_number).state)) [
      | inl full ↦ rw full (Grows-stats m _ v)
      | inr free ↦
          rw free
            (Grows-put m incoming.message.sequence_number _ m.stats v lo hi (λ e. cc) (λ _. refl))
    ]

-- After a store the message's slot is taken, by it or by an earlier copy.
pub store_takes :
    (m : SequenceManager) (incoming : FeedMessage)
    → 0 < length m.buffer
    → (slot_of (store m incoming).buffer incoming.message.sequence_number).state ≡ SlotState.filled
unfolding store
store_takes m incoming pos =
    elim (Bool-cases (is_filled (slot_of m.buffer incoming.message.sequence_number).state)) [
      | inl full ↦ rw full (ground (arith))
      | inr free ↦ rw free (ap (λ y. y.state) (slot_of-put_self m.buffer _ _ pos))
    ]

skip_one : SequenceManager → ℕ → SequenceManager
skip_one m sequence =
    if is_empty (slot_of m.buffer sequence).state
    then record m {
      buffer = set_state m.buffer sequence SlotState.skipped;
      stats = record m.stats { unrecoverable = add64 m.stats.unrecoverable 1 };
    }
    else m

skip_one-Grows :
    (m : SequenceManager) (sequence : ℕ)
    → IsSound m
    → m.expected ≤ sequence
    → sequence < m.expected + length m.buffer
    → Grows m (skip_one m sequence)
      × ((slot_of (skip_one m sequence).buffer sequence).state ≢ SlotState.empty)
unfolding skip_one
skip_one-Grows m sequence v lo hi = elim (Bool-cases (is_empty (slot_of m.buffer sequence).state)) [
  | inl free ↦ rw free (
    Grows-put m sequence _ _ v lo hi (λ e. cc) (λ e. cc),
    λ e. cc (
        ap (λ y. y.state)
          (slot_of-put_self m.buffer sequence
            (record (slot_of m.buffer sequence) { state = SlotState.skipped }) v.room)),
  )
  | inr full ↦ rw full (Grows-stats m m.stats v, λ e. ground arith)
]

-- No number of a range has an empty slot.
abbrev pub Covered : ℕ → ℕ → SequenceManager → Type 0
Covered sequence count m =
    (s : ℕ) → sequence ≤ s → s < sequence + count → (slot_of m.buffer s).state ≢ SlotState.empty

skip_range-suc :
    (count sequence : ℕ) (m : SequenceManager)
    → sequence + 1 < word64
    → skip_range (suc count) sequence m ≡ skip_range count (suc sequence) (skip_one m sequence)
unfolding skip_range skip_one
skip_range-suc count sequence m word =
    let next : add64 sequence 1 ≡ suc sequence = omega arith in
    ap (λ t. skip_range count t (skip_one m sequence)) next

-- Giving up a range leaves no slot of it empty.
pub skip_range-Grows :
    (count sequence : ℕ) (m : SequenceManager)
    → IsSound m
    → m.expected ≤ sequence
    → sequence + count ≤ m.expected + length m.buffer
    → Grows m (skip_range count sequence m) × Covered sequence count (skip_range count sequence m)
skip_range-Grows zero sequence m v lo hi =
    unfold skip_range in (Grows-stats m m.stats v, λ s lo' hi'. absurd (omega arith))
skip_range-Grows (suc count) sequence m v lo hi =
    let (g, taken) = skip_one-Grows m sequence v lo (omega arith) in
    let (g', rest) =
      skip_range-Grows count (suc sequence) (skip_one m sequence) g.sound
        (omega (arith, g.expected)) (omega (arith, g.expected, g.size)) in
    let n : SequenceManager = skip_range count (suc sequence) (skip_one m sequence) in
    let first : (slot_of n.buffer sequence).state ≢ SlotState.empty =
      g'.held sequence (omega (arith, g.expected)) (omega (arith, g.expected, g.size)) taken in
    subst (λ n. Grows m n × Covered sequence (suc count) n)
      (sym (skip_range-suc count sequence m (omega (arith, v.word))))
      (
        Grows-trans g g',
        λ s lo' hi'. elim (ℕ_discrete sequence s) [
          | yes e ↦ subst (λ u. (slot_of n.buffer u).state ≢ SlotState.empty) e first
          | no ne ↦ rest s (omega arith) (omega arith)
        ],
      )

module _ {W : Type 0} (world : World W) where
  pub take_recovered-Grows :
      (arrived : ℕ) (message : MarketMessage) (m : SequenceManager) (w : W)
      → IsSound m
      → message.sequence_number < word64
      → Grows m (take_recovered world arrived message (m, w)).0
  unfolding take_recovered
  take_recovered-Grows arrived message m w v word =
      elim (Bool-cases (
        out_of_window m message.sequence_number
        || is_filled (slot_of m.buffer message.sequence_number).state)) [
          | inl passed ↦ rw passed (Grows-stats m m.stats v)
          | inr taken ↦ rw taken (
              Grows-put m message.sequence_number _ _ v (ground arith) (ground arith) (λ e. cc)
                (λ _. refl))
        ]
