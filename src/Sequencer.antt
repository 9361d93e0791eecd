-- ===== src/Sequencer.antt =====
-- `SequenceManager` of include/llte/sequence_manager.hpp and market_data/sequence_manager.cpp,
-- which stands between the multicast feed with its retransmissions and the ring of the handler.
-- The recovery client and the clock act on a world of their own, a parameter: `request` is
-- `recovery_->request(from, to, ...)`, `none` where it returns false, and `now_ns` reads the clock.
pub mod Slots
pub mod Grow
pub mod Recover
pub mod Deliver
pub mod Flow
pub mod Accept
pub mod Stream
mod Tests
use c_low_latency_trading_sy.Prelude.{
  ℕ, zero, suc, ◌+◌, ◌-◌, ◌%◌, ◌<◌, ◌≡◌, Bool, true, false, ◌&&◌, ◌||◌, List, [], ◌∷◌, map, Option,
  none, some, add64, sub64, ltb, leb, if◌then◌else◌, length, get_or, set, replicate, min,
}
use c_low_latency_trading_sy.Message.{MarketMessage, FeedMessage, max_recovery_batch}
use c_low_latency_trading_sy.History.{zeroed}

pub record Stats : Type 0 where
  pub accepted : ℕ
  pub delivered : ℕ
  pub duplicates : ℕ
  pub gaps_detected : ℕ
  pub missing_messages : ℕ
  pub recovery_requests : ℕ
  pub messages_recovered : ℕ
  pub unrecoverable : ℕ
  pub reorder_overflows : ℕ

pub data SlotState : Type 0 where
  empty filled skipped : SlotState

pub record Slot : Type 0 where
  pub payload : FeedMessage
  pub state : SlotState

pub record SequenceManager : Type 0 where
  pub buffer : List Slot
  pub expected : ℕ
  pub started : Bool
  pub stats : Stats

abbrev pub is_filled : SlotState → Bool
is_filled SlotState.filled = true
is_filled _ = false

abbrev pub is_empty : SlotState → Bool
is_empty SlotState.empty = true
is_empty _ = false

-- A fresh `Slot`.
abbrev pub blank : Slot
blank = record {
  payload = record { message = zeroed; t0_recv = 0; t1_parsed = 0; recovered = false };
  state = SlotState.empty;
}

abbrev pub no_stats : Stats
no_stats = record {
  accepted = 0;
  delivered = 0;
  duplicates = 0;
  gaps_detected = 0;
  missing_messages = 0;
  recovery_requests = 0;
  messages_recovered = 0;
  unrecoverable = 0;
  reorder_overflows = 0;
}

unfoldable pub init : ℕ → SequenceManager
init reorder_capacity = record {
  buffer = replicate reorder_capacity blank;
  expected = 0;
  started = false;
  stats = no_stats;
}

-- `buffer_[sequence % buffer_.size()]`, read and written.
abbrev pub slot_of : List Slot → ℕ → Slot
slot_of buf s = get_or buf (s % length buf) blank

abbrev pub put : List Slot → ℕ → Slot → List Slot
put buf s slot = set buf (s % length buf) slot

abbrev pub fill : List Slot → ℕ → FeedMessage → List Slot
fill buf s incoming = put buf s (record { payload = incoming; state = SlotState.filled })

abbrev pub set_state : List Slot → ℕ → SlotState → List Slot
set_state buf s state = put buf s (record (slot_of buf s) { state = state })

unfoldable pub store : SequenceManager → FeedMessage → SequenceManager
store m incoming =
    if is_filled (slot_of m.buffer incoming.message.sequence_number).state
    then record m { stats = record m.stats { duplicates = add64 m.stats.duplicates 1 } }
    else record m { buffer = fill m.buffer incoming.message.sequence_number incoming }

-- The last loop of `recover_range`: `count` numbers from `sequence` on are given up, if their slots
-- are still empty.
pub skip_range : ℕ → ℕ → SequenceManager → SequenceManager
skip_range zero sequence m = m
skip_range (suc count) sequence m = skip_range count (add64 sequence 1) (
    if is_empty (slot_of m.buffer sequence).state
    then record m {
      buffer = set_state m.buffer sequence SlotState.skipped;
      stats = record m.stats { unrecoverable = add64 m.stats.unrecoverable 1 };
    }
    else m)

abbrev pub vacated : List Slot → List Slot
vacated = map (λ (slot : Slot). record slot { state = SlotState.empty })

-- Beyond the reorder window: forget what is buffered, and start again at the incoming message.
abbrev pub emptied : SequenceManager → ℕ → SequenceManager
emptied m sequence = record m {
  buffer = vacated m.buffer;
  expected = sequence;
  stats = record m.stats {
    reorder_overflows = add64 m.stats.reorder_overflows 1;
    unrecoverable = add64 m.stats.unrecoverable (sub64 sequence m.expected);
  };
}

pub resync : SequenceManager → FeedMessage → SequenceManager
resync m incoming = store (emptied m incoming.message.sequence_number) incoming

-- The first lines of `accept`: the flag is `started_`.
abbrev pub begin_at : Bool → SequenceManager → ℕ → SequenceManager
begin_at true m sequence = m
begin_at false m sequence = record m { expected = sequence; started = true }

abbrev pub begin : SequenceManager → ℕ → SequenceManager
begin m sequence =
    begin_at m.started (record m { stats = record m.stats { accepted = add64 m.stats.accepted 1 } })
      sequence

pub record World (W : Type 0) : Type 0 where
  pub request : W → ℕ → ℕ → Option (List MarketMessage) × W
  pub now_ns : W → ℕ × W

-- `message.sequence_number < expected_ || message.sequence_number - expected_ >= buffer_.size()`
abbrev pub out_of_window : SequenceManager → ℕ → Bool
out_of_window m s = ltb s m.expected || leb (length m.buffer) (sub64 s m.expected)

module _ {W : Type 0} (world : World W) where
  -- One retransmitted message, at the time `arrived`.
  pub take_recovered : ℕ → MarketMessage → SequenceManager × W → SequenceManager × W
  take_recovered arrived message (m, w) =
      if out_of_window m message.sequence_number
        || is_filled (slot_of m.buffer message.sequence_number).state
      then (m, w)
      else (let (parsed, w') = world.now_ns w in
          (
            record m {
              buffer = fill m.buffer message.sequence_number (record {
                message = message;
                t0_recv = arrived;
                t1_parsed = parsed;
                recovered = true;
              });
              stats = record m.stats { messages_recovered = add64 m.stats.messages_recovered 1 };
            },
            w',
          ))

  pub take_all : ℕ → List MarketMessage → SequenceManager × W → SequenceManager × W
  take_all arrived [] mw = mw
  take_all arrived (message ∷ messages) mw =
      take_all arrived messages (take_recovered arrived message mw)

  -- What a reply does, and whether the loop of requests goes on: a failed one ends it.
  pub absorb : SequenceManager → Option (List MarketMessage) → W → Bool × (SequenceManager × W)
  absorb m none w = (false, (m, w))
  absorb m (some messages) w =
      let (arrived, w') = world.now_ns w in (true, take_all arrived messages (m, w'))

  -- One request, for a batch from `start` on.
  pub ask : ℕ → ℕ → SequenceManager × W → Bool × (SequenceManager × W)
  unfolding absorb
  ask start to (m, w) =
      let (reply, w') = world.request w start (min to (sub64 (add64 start max_recovery_batch) 1)) in
      absorb
        (record m {
          stats = record m.stats { recovery_requests = add64 m.stats.recovery_requests 1 };
        })
        reply w'

  -- The requests of `recover_range`, a batch at a time from `start` on. The fuel bounds the batches.
  pub request_range : ℕ → ℕ → ℕ → SequenceManager × W → SequenceManager × W
  unfolding ask
  request_range zero start to mw = mw
  request_range (suc fuel) start to mw =
      let batch = ask start to mw in
      let rest = request_range fuel (add64 start max_recovery_batch) to batch.1 in
      if leb start to then (if batch.0 then rest else batch.1) else mw

  -- `client` is whether there is a recovery client.
  pub recover_range : Bool → ℕ → ℕ → SequenceManager × W → SequenceManager × W
  recover_range client from to (m, w) =
      let noted = record m {
        stats = record m.stats {
          gaps_detected = add64 m.stats.gaps_detected 1;
          missing_messages = add64 m.stats.missing_messages (add64 (sub64 to from) 1);
        };
      } in
      let (m', w') =
        if client then request_range (length m.buffer) from to (noted, w) else (noted, w) in
      (skip_range (suc to - from) from m', w')

  -- `accept` once the stream has started, for a sequence number that is not late.
  abbrev pub accept_ahead : Bool → FeedMessage → SequenceManager × W → SequenceManager × W
  accept_ahead client incoming (m, w) =
      let sequence = incoming.message.sequence_number in
      let gap = ltb m.expected sequence && is_empty (slot_of m.buffer m.expected).state in
      let recovered = recover_range client m.expected (sub64 sequence 1) (store m incoming, w) in
      if leb (length m.buffer) (sub64 sequence m.expected)
      then (resync m incoming, w)
      else if gap
      then recovered
      else (store m incoming, w)

  unfoldable pub accept : Bool → FeedMessage → SequenceManager × W → SequenceManager × W
  accept client incoming (m, w) =
      let b = begin m incoming.message.sequence_number in
      if ltb incoming.message.sequence_number b.expected
      then (record b { stats = record b.stats { duplicates = add64 b.stats.duplicates 1 } }, w)
      else accept_ahead client incoming (b, w)

-- `slot.state = SlotState::Empty; expected_ += 1`
abbrev pub passed : SequenceManager → SequenceManager
passed m = record m {
  buffer = set_state m.buffer m.expected SlotState.empty;
  expected = add64 m.expected 1;
}

-- The loop of `next_deliverable`. The outer `none` means that the fuel ran out, the inner one is
-- `return false`.
unfoldable pub deliver_from : ℕ → SequenceManager → Option (Option FeedMessage × SequenceManager)
deliver_from zero m = none
deliver_from (suc fuel) m =
    let slot = slot_of m.buffer m.expected in
    let rest = deliver_from fuel (passed m) in
    elim slot.state [
      | SlotState.empty ↦ some (none, m)
      | SlotState.skipped ↦ rest
      | SlotState.filled ↦ some (
        some slot.payload,
        record (passed m) { stats = record m.stats { delivered = add64 m.stats.delivered 1 } },
      )
    ]

-- Each round but the last empties a skipped slot.
unfoldable pub next_deliverable : SequenceManager → Option (Option FeedMessage × SequenceManager)
next_deliverable m = if m.started then deliver_from (suc (length m.buffer)) m else some (none, m)
