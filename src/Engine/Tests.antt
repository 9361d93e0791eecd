-- ===== src/Engine/Tests.antt =====
-- The engine at a ring of two slots with one cancel that names no order.
use c_low_latency_trading_sy.Prelude.{
  ℕ, ◌+◌, ◌-◌, ◌%◌, ◌^◌, ◌≡◌, ◌≢◌, refl, arith, word64, [], ◌∷◌, some,
}
use c_low_latency_trading_sy.Prelude.Int.{pos}
use c_low_latency_trading_sy.Message.{MarketMessage, MessageType, PipelineEvent}
use c_low_latency_trading_sy.History.{zeroed}
use c_low_latency_trading_sy.Book.Types.{ok}
use c_low_latency_trading_sy.Book.Orders.{add}
use c_low_latency_trading_sy.Spsc.{Queue}
use c_low_latency_trading_sy.Spsc.Inv.{Inv}
use c_low_latency_trading_sy.Spsc.Refine.{contents}
use c_low_latency_trading_sy.Engine.{Engine, start, drain, dispatch}
use c_low_latency_trading_sy.Engine.Drain.{
  handle_all, IsDrained, drain-IsDrained, dispatch_unchanged, handle_all_counts, total,
}

abbrev event_of : MessageType → PipelineEvent
event_of t = record {
  msg = record zeroed { type = t; order_id = 5; timestamp_ns = 3 };
  t0_recv = 10;
  t1_parsed = 20;
  t2_enqueue = 30;
  recovered = 0;
}

abbrev no_event : PipelineEvent
no_event = record { msg = zeroed; t0_recv = 0; t1_parsed = 0; t2_enqueue = 0; recovered = 0 }

-- Entries at the indices 2 ^ 64 - 1 and 0.
abbrev ring : Queue PipelineEvent
ring = record {
  write_idx = 1;
  cached_read_idx = 2 ^ 64 - 1;
  read_idx = 2 ^ 64 - 1;
  cached_write_idx = 2 ^ 64 - 1;
  buffer = event_of (MessageType.unknown 9) ∷ event_of MessageType.cancel ∷ [];
}

ring-Inv : Inv 1 ring
ring-Inv = record {
  few = omega arith;
  write_word = omega arith;
  read_word = omega arith;
  cached_read_word = omega arith;
  cached_write_word = omega arith;
  slots = refl;
  behind = omega arith;
  bounded = omega arith;
  ahead = omega arith;
}

-- A clock that shows the number of times that it was read.
abbrev ticks : ℕ → ℕ × ℕ
ticks n = (n, n + 1)

abbrev engine : Engine
engine = start (record { min_price = pos 10; max_price = pos 11; max_orders = 1 }) 4

drain-IsDrained_example :
    IsDrained 1 no_event
      (handle_all ticks (contents 1 no_event ring) (engine, 40))
      (drain ticks 1 no_event 3 ring (engine, 40))
drain-IsDrained_example =
    drain-IsDrained ticks 1 no_event 3 ring (engine, 40) ring-Inv (omega arith)

-- The order id 0 marks a free slot of the index.
abbrev nameless : MarketMessage
nameless = record zeroed { type = MessageType.add; quantity = 1; price = pos 10 }

refused : (dispatch engine.book nameless).1 ≢ some ok
unfolding dispatch add
refused = ground arith

dispatch_unchanged_example : (dispatch engine.book nameless).0 ≡ engine.book
dispatch_unchanged_example = dispatch_unchanged engine.book nameless refused

handle_all_counts_example :
    let out = (handle_all ticks (event_of MessageType.cancel ∷ []) (engine, 40)).0 in
    (out.consumed % word64 ≡ (engine.consumed + 1) % word64)
    × (total out.counters % word64 ≡ (total engine.counters + 1) % word64)
handle_all_counts_example = handle_all_counts ticks (event_of MessageType.cancel ∷ []) engine 40
