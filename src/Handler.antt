-- ===== src/Handler.antt =====
-- market_data/market_data_handler.cpp, and `receive` of market_data/multicast_receiver.cpp: the loop
-- that checks the packets of the feed, puts their messages through the sequence manager and pushes
-- what that delivers into the ring. A packet is the list of its bytes; how a header and a message lie
-- in memory is a parameter. `Handler.Steps` puts the parts of the loop together.
pub mod Steps
pub mod Handed
pub mod Counted
pub mod Fed
pub mod Tests
use c_low_latency_trading_sy.Prelude.{
  ℕ, zero, suc, ◌+◌, ◌*◌, Bool, true, false, ◌&&◌, ◌||◌, not, List, [], ◌∷◌, Option, none, some,
  add64, ltb, leb, ◌==◌, if◌then◌else◌, length, take, drop,
}
use c_low_latency_trading_sy.Message.{
  MarketMessage, FeedMessage, PipelineEvent, FeedPacketHeader, feed_magic, max_batch,
  sizeof_feed_packet_header, sizeof_market_message,
}
use c_low_latency_trading_sy.Sequencer.{SequenceManager, init}

-- What `recv` does: an errno of EAGAIN or EWOULDBLOCK, another errno, or a datagram.
pub data Arrival : Type 0 where
  would_block failed : Arrival
  datagram : List ℕ → Arrival

-- `MulticastReceiver::receive`: negative, zero, or the number of bytes that are now in the buffer. A
-- datagram of no bytes is not told from a timeout.
pub data Received : Type 0 where
  negative timed_out : Received
  packet : List ℕ → Received

abbrev pub receive : Arrival → Received
receive Arrival.would_block = Received.timed_out
receive Arrival.failed = Received.negative
receive (Arrival.datagram []) = Received.timed_out
receive (Arrival.datagram (byte ∷ bytes)) = Received.packet (byte ∷ bytes)

-- The memory layout of the wire's two structs.
pub record Layout : Type 0 where
  pub encode_header : FeedPacketHeader → List ℕ
  pub decode_header : List ℕ → FeedPacketHeader
  pub encode_message : MarketMessage → List ℕ
  pub decode_message : List ℕ → MarketMessage

-- The locals of `main` that the loop changes, but for the ring.
pub record Handler : Type 0 where
  pub sequencer : SequenceManager
  pub published : ℕ
  pub queue_full_spins : ℕ
  pub malformed_packets : ℕ
  pub packets_received : ℕ
  pub first_message_ns : ℕ
  pub last_message_ns : ℕ
  pub idle_elapsed_ms : ℕ

abbrev pub started_with : ℕ → Handler
started_with reorder = record {
  sequencer = init reorder;
  published = 0;
  queue_full_spins = 0;
  malformed_packets = 0;
  packets_received = 0;
  first_message_ns = 0;
  last_message_ns = 0;
  idle_elapsed_ms = 0;
}

module _ (layout : Layout) where
  -- `payload[i]` for the `count` messages of the packet.
  unfoldable pub payload_from : ℕ → List ℕ → List MarketMessage
  payload_from zero bytes = []
  payload_from (suc count) bytes =
      layout.decode_message (take sizeof_market_message bytes)
      ∷ payload_from count (drop sizeof_market_message bytes)

  -- The messages of a packet, or `none` for one that is malformed.
  unfoldable pub parse : List ℕ → Option (List MarketMessage)
  parse bytes =
      let header = layout.decode_header (take sizeof_feed_packet_header bytes) in
      let expected_bytes = sizeof_feed_packet_header + header.count * sizeof_market_message in
      if ltb (length bytes) sizeof_feed_packet_header
      then none
      else if not (header.magic == feed_magic)
          || header.count == 0
          || ltb max_batch header.count
          || not (length bytes == expected_bytes)
      then none
      else some (payload_from header.count (drop sizeof_feed_packet_header bytes))

-- `received == 0`: whether the loop ends, and the time without a packet.
abbrev pub on_timeout : ℕ → Handler → Bool × Handler
on_timeout idle_ms h =
    let idle = h.idle_elapsed_ms + 50 in
    if h.first_message_ns == 0
    then (false, h)
    else (leb idle_ms idle, record h { idle_elapsed_ms = idle })

abbrev pub note_packet : Handler → Handler
note_packet h = record h { idle_elapsed_ms = 0; packets_received = add64 h.packets_received 1 }

abbrev pub note_malformed : Handler → Handler
note_malformed h = record h { malformed_packets = add64 h.malformed_packets 1 }

abbrev pub feed_message : ℕ → ℕ → MarketMessage → FeedMessage
feed_message t0_recv t1_parsed message = record {
  message = message;
  t0_recv = t0_recv;
  t1_parsed = t1_parsed;
  recovered = false;
}

abbrev pub event_of : FeedMessage → ℕ → PipelineEvent
event_of deliverable t2_enqueue = record {
  msg = deliverable.message;
  t0_recv = deliverable.t0_recv;
  t1_parsed = deliverable.t1_parsed;
  t2_enqueue = t2_enqueue;
  recovered = if deliverable.recovered then 1 else 0;
}

-- One more round of the loop around `try_push`.
abbrev pub note_spin : Handler → Handler
note_spin h = record h { queue_full_spins = add64 h.queue_full_spins 1 }

-- What follows that loop.
abbrev pub note_published : PipelineEvent → Handler → Handler
note_published event h = record h {
  published = add64 h.published 1;
  first_message_ns = if h.first_message_ns == 0 then event.t2_enqueue else h.first_message_ns;
  last_message_ns = event.t2_enqueue;
}

-- `expect > 0 && published >= expect`
abbrev pub is_enough : ℕ → Handler → Bool
is_enough expect h = ltb 0 expect && leb expect h.published
