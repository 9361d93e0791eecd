-- ===== src/Engine.antt =====
-- orderbook/order_book_engine.cpp: the consumer of the ring, which applies each event to its book
-- and samples the latency of every stage. The clock is a parameter.
pub mod Drain
mod Tests
use c_low_latency_trading_sy.Prelude.{
  ℕ, zero, suc, ◌+◌, ◌-◌, Bool, true, false, ◌&&◌, List, [], ◌∷◌, Option, none, some, add64, sub64,
  ltb, ◌==◌, not, if◌then◌else◌,
}
use c_low_latency_trading_sy.Message.{MarketMessage, MessageType, PipelineEvent}
use c_low_latency_trading_sy.Book.Types.{
  OrderBook, Config, Result, ok, unknown_order, duplicate_order, price_out_of_band, pool_exhausted,
  invalid_quantity,
}
use c_low_latency_trading_sy.Book.Orders.{make_book, add, cancel, modify, execute}
use c_low_latency_trading_sy.Latency.{LatencySamples, reserved}
use c_low_latency_trading_sy.Latency
use c_low_latency_trading_sy.Spsc.{Queue, try_pop, empty}

pub record ApplyCounters : Type 0 where
  pub applied : ℕ
  pub unknown_order : ℕ
  pub duplicate_order : ℕ
  pub out_of_band : ℕ
  pub pool_exhausted : ℕ
  pub invalid : ℕ

abbrev pub no_counts : ApplyCounters
no_counts = record {
  applied = 0;
  unknown_order = 0;
  duplicate_order = 0;
  out_of_band = 0;
  pool_exhausted = 0;
  invalid = 0;
}

-- The source's `record`, a word of the language here.
unfoldable pub record_result : ApplyCounters → Result → ApplyCounters
record_result c ok = record c { applied = add64 c.applied 1 }
record_result c unknown_order = record c { unknown_order = add64 c.unknown_order 1 }
record_result c duplicate_order = record c { duplicate_order = add64 c.duplicate_order 1 }
record_result c price_out_of_band = record c { out_of_band = add64 c.out_of_band 1 }
record_result c pool_exhausted = record c { pool_exhausted = add64 c.pool_exhausted 1 }
record_result c invalid_quantity = record c { invalid = add64 c.invalid 1 }

-- The `switch` on the message's type: the book, and the result that is recorded. A byte that no
-- enumerator names falls through it.
abbrev pub dispatch_on : MessageType → OrderBook → MarketMessage → OrderBook × Option Result
dispatch_on MessageType.add b m =
    let (b', r) = add b m.order_id m.side m.price m.quantity in (b', some r)
dispatch_on MessageType.cancel b m = let (b', r) = cancel b m.order_id in (b', some r)
dispatch_on MessageType.modify b m =
    let (b', r) = modify b m.order_id m.price m.quantity in (b', some r)
dispatch_on MessageType.trade b m = let (b', r) = execute b m.order_id m.quantity in (b', some r)
dispatch_on (MessageType.unknown t) b m = (b, none)

unfoldable pub dispatch : OrderBook → MarketMessage → OrderBook × Option Result
dispatch b m = dispatch_on m.type b m

abbrev pub count_result : ApplyCounters → Option Result → ApplyCounters
count_result c none = c
count_result c (some r) = record_result c r

-- The locals of `main` that its loop changes.
pub record Engine : Type 0 where
  pub book : OrderBook
  pub counters : ApplyCounters
  pub wire_to_book : LatencySamples
  pub parse_stage : LatencySamples
  pub enqueue_stage : LatencySamples
  pub queue_stage : LatencySamples
  pub book_stage : LatencySamples
  pub handler_to_book : LatencySamples
  pub consumed : ℕ
  pub recovered_seen : ℕ
  pub first_ns : ℕ
  pub last_ns : ℕ

abbrev pub start : Config → ℕ → Engine
start config sample_capacity = record {
  book = make_book config;
  counters = no_counts;
  wire_to_book = reserved sample_capacity;
  parse_stage = reserved sample_capacity;
  enqueue_stage = reserved sample_capacity;
  queue_stage = reserved sample_capacity;
  book_stage = reserved sample_capacity;
  handler_to_book = reserved sample_capacity;
  consumed = 0;
  recovered_seen = 0;
  first_ns = 0;
  last_ns = 0;
}

-- One event of the loop, with what the clock shows before and after the book is updated.
unfoldable pub apply_event : Engine → PipelineEvent → ℕ → ℕ → Engine
apply_event e event t3_dequeue t4_book =
    let message = event.msg in
    let (book', result) = dispatch e.book message in
    record {
      book = book';
      counters = count_result e.counters result;
      wire_to_book =
          if not (message.timestamp_ns == 0) && ltb message.timestamp_ns t4_book
          then Latency.add e.wire_to_book (sub64 t4_book message.timestamp_ns)
          else e.wire_to_book;
      parse_stage = Latency.add e.parse_stage (sub64 event.t1_parsed event.t0_recv);
      enqueue_stage = Latency.add e.enqueue_stage (sub64 event.t2_enqueue event.t1_parsed);
      queue_stage = Latency.add e.queue_stage (sub64 t3_dequeue event.t2_enqueue);
      book_stage = Latency.add e.book_stage (sub64 t4_book t3_dequeue);
      handler_to_book = Latency.add e.handler_to_book (sub64 t4_book event.t0_recv);
      consumed = add64 e.consumed 1;
      recovered_seen = add64 e.recovered_seen event.recovered;
      first_ns = if e.first_ns == 0 then t3_dequeue else e.first_ns;
      last_ns = t4_book;
    }

module _ {W : Type 0} (now_ns : W → ℕ × W) where
  abbrev pub handle : PipelineEvent → Engine × W → Engine × W
  handle event (e, w) =
      let (t3_dequeue, w') = now_ns w in
      let (t4_book, w'') = now_ns w' in (apply_event e event t3_dequeue t4_book, w'')

module _ {W : Type 0} (now_ns : W → ℕ × W) (k : ℕ) (zeroed : PipelineEvent) where
  -- The loop of `main` once the producer is done, so that nobody else changes the ring, and while no
  -- signal arrives. `none` means that the fuel ran out.
  abbrev pub drain_on :
      (Queue PipelineEvent → Engine × W → Option (Queue PipelineEvent × (Engine × W)))
      → Option PipelineEvent
      → Queue PipelineEvent
      → Engine × W
      → Option (Queue PipelineEvent × (Engine × W))
  drain_on rest none q s = if empty q then some (q, s) else rest q s
  drain_on rest (some event) q s = rest q (handle now_ns event s)

  unfoldable pub drain :
      ℕ → Queue PipelineEvent → Engine × W → Option (Queue PipelineEvent × (Engine × W))
  drain zero q s = none
  drain (suc fuel) q s = let (event, q') = try_pop k zeroed q in drain_on (drain fuel) event q' s
