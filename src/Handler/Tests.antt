-- ===== src/Handler/Tests.antt =====
-- A layout of one field to a byte, and a handler that gets one packet and hands its message on.
use c_low_latency_trading_sy.Prelude.{
  ℕ, zero, suc, ◌+◌, ◌%◌, ◌≡◌, refl, ap, ◌∙◌, arith, word64, false, List, [], ◌∷◌, ◌++◌, Option,
  none, some, length, get_or, replicate,
}
use c_low_latency_trading_sy.Prelude.Int.{ℤ, pos, negsuc, pos_part, neg_part}
use c_low_latency_trading_sy.Message.{
  MarketMessage, MessageType, Side, PipelineEvent, FeedMessage, feed_magic,
}
use c_low_latency_trading_sy.History.{zeroed}
use c_low_latency_trading_sy.Sequencer.{
  World, SequenceManager, accept, next_deliverable, deliver_from, store, init,
}
use c_low_latency_trading_sy.Sequencer.Recover.{IsTyped}
use c_low_latency_trading_sy.Spsc.{Queue, try_push, try_pop}
use c_low_latency_trading_sy.Handler.{Layout, Arrival, parse, payload_from}
use c_low_latency_trading_sy.Handler.Steps.{System, Step, Reach, AllClear, start, here, next}
use c_low_latency_trading_sy.Handler.Handed.{Rises, handed_on}
use c_low_latency_trading_sy.Handler.Fed.{Reach-Rises, Reach-counts}
use c_low_latency_trading_sy.Handler.Steps
use c_low_latency_trading_sy.Handler
use c_low_latency_trading_sy.Spsc

abbrev code_of : MessageType → ℕ
code_of MessageType.add = 0
code_of MessageType.cancel = 1
code_of MessageType.modify = 2
code_of MessageType.trade = 3
code_of (MessageType.unknown t) = suc (suc (suc (suc t)))

abbrev type_of : ℕ → MessageType
type_of zero = MessageType.add
type_of (suc zero) = MessageType.cancel
type_of (suc (suc zero)) = MessageType.modify
type_of (suc (suc (suc zero))) = MessageType.trade
type_of (suc (suc (suc (suc t)))) = MessageType.unknown t

abbrev side_code : Side → ℕ
side_code Side.buy = 1
side_code Side.sell = 0

abbrev side_from : ℕ → Side
side_from zero = Side.sell
side_from (suc n) = Side.buy

abbrev price_from : ℕ → ℕ → ℤ
price_from p zero = pos p
price_from p (suc n) = negsuc n

abbrev pub flat : Layout
flat = record {
  encode_header = λ h. h.magic ∷ h.count ∷ replicate 6 0;
  decode_header = λ bytes. record { magic = get_or bytes 0 0; count = get_or bytes 1 0 };
  encode_message = λ m.
      m.sequence_number
      ∷ m.timestamp_ns
      ∷ m.order_id
      ∷ pos_part m.price
      ∷ neg_part m.price
      ∷ m.quantity
      ∷ m.symbol_id
      ∷ code_of m.type
      ∷ side_code m.side
      ∷ replicate 39 0;
  decode_message = λ bytes. record {
    sequence_number = get_or bytes 0 0;
    timestamp_ns = get_or bytes 1 0;
    order_id = get_or bytes 2 0;
    price = price_from (get_or bytes 3 0) (get_or bytes 4 0);
    quantity = get_or bytes 5 0;
    symbol_id = get_or bytes 6 0;
    type = type_of (get_or bytes 7 0);
    side = side_from (get_or bytes 8 0);
  };
}

price_back : (p : ℤ) → price_from (pos_part p) (neg_part p) ≡ p
price_back (pos n) = refl
price_back (negsuc n) = refl

type_back : (t : MessageType) → type_of (code_of t) ≡ t
type_back MessageType.add = refl
type_back MessageType.cancel = refl
type_back MessageType.modify = refl
type_back MessageType.trade = refl
type_back (MessageType.unknown t) = refl

side_back : (s : Side) → side_from (side_code s) ≡ s
side_back Side.buy = refl
side_back Side.sell = refl

pub flat_back : (m : MarketMessage) → flat.decode_message (flat.encode_message m) ≡ m
flat_back m =
    ap
      (λ p. record m {
        price = p;
        type = type_of (code_of m.type);
        side = side_from (side_code m.side);
      })
      (price_back m.price)
    ∙ ap (λ t. record m { type = t; side = side_from (side_code m.side) }) (type_back m.type)
    ∙ ap (λ s. record m { side = s }) (side_back m.side)

-- No client, and a clock that stands still.
abbrev alone : World (Unit {0})
alone = record { request = λ w from to. (none, w); now_ns = λ w. (7, w) }

alone-IsTyped : IsTyped alone
alone-IsTyped w from to ms e = cc

abbrev nothing : PipelineEvent
nothing = record { msg = zeroed; t0_recv = 0; t1_parsed = 0; t2_enqueue = 0; recovered = 0 }

abbrev message : MarketMessage
message = record zeroed { sequence_number = 1001; type = MessageType.add }

abbrev bytes : List ℕ
bytes = flat.encode_header (record { magic = feed_magic; count = 1 }) ++ flat.encode_message message

its_message : parse flat bytes ≡ some (message ∷ [])
unfolding parse payload_from
its_message = refl

abbrev at_start : System (Unit {0})
at_start = start alone flat false 1 nothing 1500 0 4 tt

abbrev fed : SequenceManager
fed = (accept alone false (Handler.feed_message 5 6 message) (init 4, tt)).0

abbrev left : Option (Option FeedMessage × SequenceManager) → SequenceManager
left none = fed
left (some (out, m)) = m

abbrev delivered : SequenceManager
delivered = left (next_deliverable fed)

abbrev its_event : PipelineEvent
its_event = record { msg = message; t0_recv = 5; t1_parsed = 6; t2_enqueue = 8; recovered = 0 }

-- One packet comes, its message is delivered, pushed and popped.
abbrev handed_over : System (Unit {0})
handed_over = record {
  phase = Steps.draining;
  handler =
      Handler.note_published its_event
        (record (Handler.note_packet (Handler.started_with 4)) { sequencer = delivered });
  world = tt;
  queue = (try_pop 1 nothing (try_push 1 (Spsc.init 1 nothing) its_event).1).1;
  produced_count = 0;
  producer_done = 0;
  popped = its_event ∷ [];
  abandoned = [];
}

unfoldable handed_over-Reach : Reach alone flat false 1 nothing 1500 0 4 handed_over
unfolding accept next_deliverable deliver_from store init try_push try_pop
handed_over-Reach =
    next
      (next
        (next
          (next
            (next
              (next (here tt) (
                Steps.parses (Arrival.datagram bytes) bytes (message ∷ []) 5 6 refl refl
                  its_message))
              (Steps.accepts message [] 5 6 refl))
            (Steps.accepted 5 6 refl))
          (Steps.delivers (Handler.feed_message 5 6 message) delivered 8 refl refl))
        (Steps.pushes its_event refl refl))
      Steps.pops

handed_over-AllClear : AllClear alone flat false 1 nothing 1500 0 handed_over-Reach
unfolding handed_over-Reach
handed_over-AllClear = (((((((tt, tt), omega arith), tt), omega arith), tt)), tt)

Reach-Rises_example :
    Rises 0 (handed_on 1 nothing handed_over) handed_over.handler.sequencer.expected
Reach-Rises_example =
    Reach-Rises alone alone-IsTyped flat false 1 nothing 1500 0 4 handed_over (omega arith)
      (omega arith) (omega arith) handed_over-Reach handed_over-AllClear

Reach-counts_example :
    handed_over.handler.published % word64
    ≡ (length (handed_on 1 nothing handed_over) + length handed_over.abandoned) % word64
Reach-counts_example =
    Reach-counts alone alone-IsTyped flat false 1 nothing 1500 0 4 handed_over (omega arith)
      (omega arith) (omega arith) handed_over-Reach
