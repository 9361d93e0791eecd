-- ===== src/Sequencer/Accept.antt =====
-- `SequenceManager::accept` of market_data/sequence_manager.cpp, branch by branch.
use c_low_latency_trading_sy.Prelude.{
  ℕ, zero, suc, ◌+◌, ◌≤◌, ◌<◌, ◌≡◌, refl, ap, subst, Bool, true, false, replicate, arith, length,
  get_or, length-replicate, dec_lt, inl, inr, Bool-cases, word64, add64, ltb, if◌then◌else◌, le→ltb,
}
use c_low_latency_trading_sy.Message.{FeedMessage}
use c_low_latency_trading_sy.Sequencer.{
  SequenceManager, Stats, SlotState, blank, init, World, begin_at, begin, accept_ahead, accept,
}
use c_low_latency_trading_sy.Sequencer.Slots.{vacant-Placed}
use c_low_latency_trading_sy.Sequencer.Grow.{IsSound}
use c_low_latency_trading_sy.Sequencer.Recover.{IsTyped}
use c_low_latency_trading_sy.Sequencer.Flow.{IsFlowing, accept_ahead-IsFlowing}

-- Before the first message every slot is empty, so the first sequence number may be any.
pub record IsReady (m : SequenceManager) : Type 0 where
  pub sound : IsSound m
  pub vacant : m.started ≡ false → (i : ℕ) → (get_or m.buffer i blank).state ≡ SlotState.empty
  pub fresh : m.started ≡ false → m.expected ≡ 0

pub IsFlowing-IsReady : {b s : ℕ} {n : SequenceManager} → IsFlowing b s n → IsReady n
IsFlowing-IsReady f = record {
  sound = f.sound;
  vacant = λ off. cc (f.started, off);
  fresh = λ off. cc (f.started, off);
}

pub blank_everywhere : (n i : ℕ) → (get_or (replicate n blank) i blank).state ≡ SlotState.empty
blank_everywhere zero i = refl
blank_everywhere (suc n) zero = refl
blank_everywhere (suc n) (suc i) = blank_everywhere n i

-- The manager as the constructor leaves it.
pub init-IsReady : (capacity : ℕ) → 0 < capacity → capacity < word64 → IsReady (init capacity)
unfolding init
init-IsReady capacity pos few = record {
  sound = record {
    room = rw (length-replicate capacity blank) pos;
    word = omega (arith, length-replicate capacity blank);
    placed = vacant-Placed 0 (replicate capacity blank) (blank_everywhere capacity);
  };
  vacant = λ e. blank_everywhere capacity;
  fresh = λ e. refl;
}

-- Where the stream stands once a message with this number is taken in.
abbrev pub base : SequenceManager → ℕ → ℕ
base m sequence = if m.started then m.expected else sequence

begin_at_lem :
    (m : SequenceManager) (sequence : ℕ) (flag : Bool)
    → m.started ≡ flag
    → IsReady m
    → sequence + length m.buffer < word64
    → IsSound (begin_at flag m sequence)
      × ((begin_at flag m sequence).started ≡ true)
      × ((begin_at flag m sequence).expected ≡ (if flag then m.expected else sequence))
begin_at_lem m sequence true e r word = (r.sound, e, refl)
begin_at_lem m sequence false e r word = (
  record {
    room = r.sound.room;
    word = word;
    placed = vacant-Placed sequence m.buffer (r.vacant e);
  },
  refl,
  refl,
)

counted-IsReady : (m : SequenceManager) (st : Stats) → IsReady m → IsReady (record m { stats = st })
counted-IsReady m st r = record {
  sound = record { room = r.sound.room; word = r.sound.word; placed = r.sound.placed };
  vacant = r.vacant;
  fresh = r.fresh;
}

buffer-begin_at :
    (flag : Bool) (m : SequenceManager) (sequence : ℕ)
    → (begin_at flag m sequence).buffer ≡ m.buffer
buffer-begin_at true m sequence = refl
buffer-begin_at false m sequence = refl

module _ {W : Type 0} (world : World W) (typed : IsTyped world) where
  -- Of a manager that is ready, a message that is not late, below 2 ^ 64 by the buffer, leaves the
  -- manager sound and started, no further back, and with neither the slot of the number expected next
  -- nor that of the message empty. So it is if the message is in order, ahead of a gap, whether or not
  -- the typed client can recover that, behind one that is open, or beyond the reorder window.
  pub accept-IsFlowing :
      (client : Bool) (incoming : FeedMessage) (m : SequenceManager) (w : W)
      → IsReady m
      → incoming.message.sequence_number + length m.buffer < word64
      → base m incoming.message.sequence_number ≤ incoming.message.sequence_number
      → IsFlowing
          (base m incoming.message.sequence_number)
          incoming.message.sequence_number
          (accept world client incoming (m, w)).0
  unfolding accept
  accept-IsFlowing client incoming m w r word lo =
      let sequence : ℕ = incoming.message.sequence_number in
      let b : SequenceManager = begin m sequence in
      let (v, on, e) = begin_at_lem _ sequence m.started refl (counted-IsReady m _ r) word in
      let same : b.buffer ≡ m.buffer = buffer-begin_at m.started _ sequence in
      let lo' : b.expected ≤ sequence = omega (arith, e, lo) in
      let timely : ltb sequence b.expected ≡ false = le→ltb sequence b.expected lo' in
      rw timely (
        subst (λ t. IsFlowing t sequence (accept_ahead world client incoming (b, w)).0) e
          (accept_ahead-IsFlowing b incoming v on lo' (rw same word) world typed client w))

  -- A late message changes nothing but two counters.
  pub accept_late :
      (client : Bool) (incoming : FeedMessage) (m : SequenceManager) (w : W)
      → m.started ≡ true
      → incoming.message.sequence_number < m.expected
      → accept world client incoming (m, w) ≡ (
        record m {
          stats = record m.stats {
            accepted = add64 m.stats.accepted 1;
            duplicates = add64 m.stats.duplicates 1;
          };
        },
        w,
      )
  unfolding accept
  accept_late client incoming m w on late = ground arith

  pub accept-IsReady :
      (client : Bool) (incoming : FeedMessage) (m : SequenceManager) (w : W)
      → IsReady m
      → incoming.message.sequence_number + length m.buffer < word64
      → let n = (accept world client incoming (m, w)).0 in
        IsReady n × (m.expected ≤ n.expected) × (n.started ≡ true)
  accept-IsReady client incoming m w r word = elim (Bool-cases m.started) [
    | inr off ↦
        let start : base m incoming.message.sequence_number ≡ incoming.message.sequence_number =
          ap (λ b. if b then m.expected else incoming.message.sequence_number) off in
        let f : IsFlowing _ _ _ =
          accept-IsFlowing client incoming m w r word (omega (arith, start)) in
        (IsFlowing-IsReady f, omega (arith, r.fresh off), f.started)
    | inl on ↦
        let start : base m incoming.message.sequence_number ≡ m.expected =
          ap (λ b. if b then m.expected else incoming.message.sequence_number) on in
        elim (dec_lt incoming.message.sequence_number m.expected) [
          | yes late ↦
              rw (accept_late client incoming m w on late) (counted-IsReady m _ r, omega arith, on)
          | no timely ↦
              let f : IsFlowing _ _ _ =
                accept-IsFlowing client incoming m w r word (omega (arith, start)) in
              (IsFlowing-IsReady f, omega (arith, f.forward, start), f.started)
        ]
  ]
