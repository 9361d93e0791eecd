-- ===== src/History.antt =====
-- `HistoryStore` of include/llte/recovery_server.hpp and exchange/recovery_server.cpp: the ring of
-- published messages from which the exchange answers retransmission requests. The mutex makes each
-- call one step.
pub mod Window
pub mod Fetch
mod Tests
use c_low_latency_trading_sy.Prelude.{
  ℕ, zero, suc, ◌+◌, ◌-◌, ◌%◌, Bool, true, false, ◌&&◌, ◌||◌, List, [], ◌∷◌, Option, none, some,
  add64, sub64, ltb, leb, if◌then◌else◌, length, get_or, set, replicate,
}
use c_low_latency_trading_sy.Prelude.Int.{pos}
use c_low_latency_trading_sy.Message.{MarketMessage, MessageType, Side}
use mathlib.Core.Option

pub record HistoryStore : Type 0 where
  pub ring : List MarketMessage
  pub oldest_sequence : ℕ
  pub newest_sequence : ℕ
  pub is_empty : Bool

-- `MarketMessage{}`. A type byte of 0 names no enumerator.
abbrev pub zeroed : MarketMessage
zeroed = record {
  sequence_number = 0;
  timestamp_ns = 0;
  order_id = 0;
  price = pos 0;
  quantity = 0;
  symbol_id = 0;
  type = MessageType.unknown 0;
  side = Side.sell;
}

pub init : ℕ → HistoryStore
init capacity = record {
  ring = replicate capacity zeroed;
  oldest_sequence = 0;
  newest_sequence = 0;
  is_empty = true;
}

-- `oldest_sequence_` at the end of `append`, from its value after the first message is noted.
abbrev aged : ℕ → ℕ → ℕ → ℕ
aged size newest oldest =
    if ltb size (add64 (sub64 newest oldest) 1) then add64 (sub64 newest size) 1 else oldest

pub append : HistoryStore → MarketMessage → HistoryStore
append h message = record {
  ring = set h.ring (message.sequence_number % length h.ring) message;
  oldest_sequence =
      aged (length h.ring) message.sequence_number
        (if h.is_empty then message.sequence_number else h.oldest_sequence);
  newest_sequence = message.sequence_number;
  is_empty = false;
}

-- `sequence < oldest_sequence_ || sequence > newest_sequence_`
abbrev pub is_gone : HistoryStore → ℕ → Bool
is_gone h sequence = ltb sequence h.oldest_sequence || ltb h.newest_sequence sequence

-- The loop of `fetch`: what it writes from `sequence` on, with `count` written before. `++sequence`
-- wraps. `none` means that the fuel ran out.
pub fetch_from : ℕ → HistoryStore → ℕ → ℕ → ℕ → ℕ → Option (List MarketMessage)
fetch_from zero h sequence to count max_messages = none
fetch_from (suc fuel) h sequence to count max_messages =
    let skip = fetch_from fuel h (add64 sequence 1) to count max_messages in
    let keep =
      Option.map (◌∷◌ (get_or h.ring (sequence % length h.ring) zeroed))
        (fetch_from fuel h (add64 sequence 1) to (count + 1) max_messages) in
    if leb sequence to && ltb count max_messages
    then (if is_gone h sequence then skip else keep)
    else some []

-- The list is `out`, and its length the result.
pub fetch : ℕ → HistoryStore → ℕ → ℕ → ℕ → Option (List MarketMessage)
fetch fuel h from to max_messages =
    if h.is_empty then some [] else fetch_from fuel h from to 0 max_messages
