-- ===== src/Message.antt =====
-- include/llte/market_message.hpp, include/llte/pipeline.hpp and include/llte/protocol.hpp: the
-- message, what travels with it, and the constants of the two wire protocols.
-- An unsigned field is the number that it holds. A `Price` is an `int64_t`, an integer here.
use c_low_latency_trading_sy.Prelude.{ℕ, ◌+◌, ◌*◌, Bool}
use c_low_latency_trading_sy.Prelude.Int.{ℤ}

-- The wire can carry a byte that no enumerator names.
pub data MessageType : Type 0 where
  add cancel modify trade : MessageType
  unknown : ℕ → MessageType

-- The code asks only whether a side is `Buy`: every other byte counts as `sell`.
pub data Side : Type 0 where
  buy sell : Side

pub record MarketMessage : Type 0 where
  pub sequence_number : ℕ
  pub timestamp_ns : ℕ
  pub order_id : ℕ
  pub price : ℤ
  pub quantity : ℕ
  pub symbol_id : ℕ
  pub type : MessageType
  pub side : Side

-- A message with the times at which this process got it (include/llte/sequence_manager.hpp).
pub record FeedMessage : Type 0 where
  pub message : MarketMessage
  pub t0_recv : ℕ
  pub t1_parsed : ℕ
  pub recovered : Bool

pub record PipelineEvent : Type 0 where
  pub msg : MarketMessage
  pub t0_recv : ℕ
  pub t1_parsed : ℕ
  pub t2_enqueue : ℕ
  pub recovered : ℕ

abbrev pub feed_magic : ℕ
feed_magic = 0x4C4C5445

abbrev pub recovery_magic : ℕ
recovery_magic = 0x4C4C5452

abbrev pub max_batch : ℕ
max_batch = 32

-- The static_asserts fix these sizes.
abbrev pub sizeof_market_message : ℕ
sizeof_market_message = 48

abbrev pub sizeof_feed_packet_header : ℕ
sizeof_feed_packet_header = 8

abbrev pub max_packet_bytes : ℕ
max_packet_bytes = sizeof_feed_packet_header + max_batch * sizeof_market_message

pub record FeedPacketHeader : Type 0 where
  pub magic : ℕ
  pub count : ℕ

pub record RecoveryRequest : Type 0 where
  pub magic : ℕ
  pub from_sequence : ℕ
  pub to_sequence : ℕ

pub record RecoveryResponseHeader : Type 0 where
  pub magic : ℕ
  pub count : ℕ

abbrev pub max_recovery_batch : ℕ
max_recovery_batch = 1024
