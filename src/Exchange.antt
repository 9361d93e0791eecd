-- ===== src/Exchange.antt =====
-- exchange/exchange_simulator.cpp, and `send` of exchange/multicast_publisher.cpp: it makes up the
-- order flow, applies it to its own book, keeps every message in the history and sends it in packets.
-- The random draws, the clock, the signal and `sendto` are parameters.
pub mod Replay
pub mod Feed
pub mod Packets
mod Tests
use c_low_latency_trading_sy.Prelude.{
  ℕ, zero, suc, ◌+◌, ◌-◌, ◌*◌, ◌/◌, ◌^◌, Bool, true, false, ◌&&◌, ◌||◌, not, List, [], ◌∷◌, ◌++◌,
  Option, none, some, add64, ltb, leb, ◌==◌, if◌then◌else◌, length, get_or, set,
}
use c_low_latency_trading_sy.Prelude.Int.{ℤ, pos, ◌+ℤ◌, ◌-ℤ◌}
use c_low_latency_trading_sy.Message.{
  MarketMessage, MessageType, Side, FeedPacketHeader, feed_magic,
}
use c_low_latency_trading_sy.History.{HistoryStore, zeroed, append}
use c_low_latency_trading_sy.Book.Types.{OrderBook, Config, Result, ok}
use c_low_latency_trading_sy.Book.Orders.{make_book, add, cancel, modify, execute}
use c_low_latency_trading_sy.Handler.{Layout}
use c_low_latency_trading_sy.History

abbrev pub min_price : ℤ
min_price = pos 18250

abbrev pub max_price : ℤ
max_price = pos 19250

abbrev pub mid_price : ℤ
mid_price = pos 18750

pub record LiveOrder : Type 0 where
  pub id : ℕ
  pub side : Side
  pub price : ℤ
  pub quantity : ℕ

-- The draws and the outside. A `double` of `unit` is only ever compared: with a number of hundredths,
-- and with the drop rate.
pub record Outside (W : Type 0) : Type 1 where
  pub Draw : Type 0
  pub unit : W → Draw × W
  pub is_below : Draw → ℕ → Bool
  pub is_below_drop_rate : Draw → Bool
  pub depth : W → ℕ × W
  pub lot : W → ℕ × W
  pub pick : ℕ → W → ℕ × W
  pub now_ns : W → ℕ × W
  pub stopped : W → Bool × W
  -- The bytes sent, or `none` for a negative result.
  pub sendto : List ℕ → W → Option ℕ × W
  -- The wait until the next packet is due, which looks at the clock only.
  pub pace : W → W

-- `MulticastPublisher::send`, by what `sendto` answers.
abbrev pub send : Option ℕ → Bool
send none = false
send (some sent) = true

-- The locals of `main` that its loop changes; `pending` is the part of `payload` in use.
pub record Exchange : Type 0 where
  pub history : HistoryStore
  pub book : OrderBook
  pub live : List LiveOrder
  pub sequence : ℕ
  pub next_order_id : ℕ
  pub packets_sent : ℕ
  pub packets_dropped : ℕ
  pub messages_dropped : ℕ
  pub pending : List MarketMessage

abbrev pub start : ℕ → Exchange
start history_capacity = record {
  history = History.init history_capacity;
  book = make_book (record { min_price = min_price; max_price = max_price; max_orders = 2 ^ 20 });
  live = [];
  sequence = 1001;
  next_order_id = 1;
  packets_sent = 0;
  packets_dropped = 0;
  messages_dropped = 0;
  pending = [];
}

abbrev blank_order : LiveOrder
blank_order = record { id = 0; side = Side.sell; price = pos 0; quantity = 0 }

abbrev back : List LiveOrder → LiveOrder
back live = get_or live (length live - 1) blank_order

abbrev pop_back : List LiveOrder → List LiveOrder
pop_back [] = []
pop_back (o ∷ []) = []
pop_back (o ∷ p ∷ live) = o ∷ pop_back (p ∷ live)

-- `target = live.back(); live.pop_back();`
abbrev pub swap_remove : List LiveOrder → ℕ → List LiveOrder
swap_remove live index = pop_back (set live index (back live))

abbrev is_ok : Result → Bool
is_ok ok = true
is_ok _ = false

-- A message with nothing but its number and its symbol.
abbrev pub blank_message : Exchange → MarketMessage
blank_message x = record zeroed { sequence_number = x.sequence; symbol_id = 1 }

-- The four kinds of events, once their draws are made: the message, and the exchange after it.
abbrev pub place_order : Exchange → Side → ℤ → ℕ → MarketMessage × Exchange
place_order x side price quantity =
    let id = x.next_order_id in
    let (book', result) = add x.book id side price quantity in
    (
      record (blank_message x) {
        type = MessageType.add;
        order_id = id;
        side = side;
        price = price;
        quantity = quantity;
      },
      record x {
        next_order_id = add64 id 1;
        book = book';
        live =
            if is_ok result
            then x.live ++ record { id = id; side = side; price = price; quantity = quantity } ∷ []
            else x.live;
      },
    )

abbrev pub cancel_order : Exchange → ℕ → MarketMessage × Exchange
cancel_order x index =
    let target = get_or x.live index blank_order in
    (
      record (blank_message x) {
        type = MessageType.cancel;
        order_id = target.id;
        side = target.side;
        price = target.price;
        quantity = target.quantity;
      },
      record x { book = (cancel x.book target.id).0; live = swap_remove x.live index },
    )

abbrev pub modify_order : Exchange → ℕ → ℤ → ℕ → MarketMessage × Exchange
modify_order x index price quantity =
    let target = get_or x.live index blank_order in
    let (book', result) = modify x.book target.id price quantity in
    (
      record (blank_message x) {
        type = MessageType.modify;
        order_id = target.id;
        side = target.side;
        price = price;
        quantity = quantity;
      },
      record x {
        book = book';
        live =
            if is_ok result
            then set x.live index (record target { price = price; quantity = quantity })
            else x.live;
      },
    )

abbrev pub trade_order : Exchange → ℕ → MarketMessage × Exchange
trade_order x index =
    let target = get_or x.live index blank_order in
    let fill = if ltb 10 target.quantity then target.quantity / 2 else target.quantity in
    (
      record (blank_message x) {
        type = MessageType.trade;
        order_id = target.id;
        side = target.side;
        price = target.price;
        quantity = fill;
      },
      record x {
        book = (execute x.book target.id fill).0;
        live =
            if leb target.quantity fill
            then swap_remove x.live index
            else set x.live index (record target { quantity = target.quantity - fill });
      },
    )

module _ {W : Type 0} (outside : Outside W) where
  -- Bids below the middle, asks above.
  abbrev pub price_for : Side → W → ℤ × W
  price_for Side.buy w = let (distance, w') = outside.depth w in (mid_price -ℤ pos distance, w')
  price_for Side.sell w = let (distance, w') = outside.depth w in (mid_price +ℤ pos distance, w')

  abbrev pub draw_order : Exchange × W → MarketMessage × (Exchange × W)
  draw_order (x, w) =
      let (draw, w1) = outside.unit w in
      let side = if outside.is_below draw 50 then Side.buy else Side.sell in
      let (price, w2) = price_for side w1 in
      let (lots, w3) = outside.lot w2 in
      let (message, x') = place_order x side price (lots * 10) in (message, (x', w3))

  abbrev pub draw_amendment : outside.Draw → Exchange × W → MarketMessage × (Exchange × W)
  draw_amendment roll (x, w) =
      let (index, w1) = outside.pick (length x.live) w in
      let cancelled = cancel_order x index in
      let (price, w2) = price_for (get_or x.live index blank_order).side w1 in
      let (lots, w3) = outside.lot w2 in
      let modified = modify_order x index price (lots * 10) in
      let traded = trade_order x index in
      if outside.is_below roll 75
      then (cancelled.0, (cancelled.1, w1))
      else if outside.is_below roll 90
      then (modified.0, (modified.1, w3))
      else (traded.0, (traded.1, w1))

  -- An event, and the next sequence number.
  unfoldable pub draw_event : Exchange × W → MarketMessage × (Exchange × W)
  draw_event (x, w) =
      let (roll, w') = outside.unit w in
      let (message, (x', w'')) =
        if length x.live == 0 || outside.is_below roll 60
        then draw_order (x, w')
        else draw_amendment roll (x, w') in
      (message, (record x' { sequence = add64 x.sequence 1 }, w''))

module _ (layout : Layout) where
  abbrev pub encode_all : List MarketMessage → List ℕ
  encode_all [] = []
  encode_all (message ∷ messages) = layout.encode_message message ++ encode_all messages

  -- The bytes of the packet.
  unfoldable pub packet_of : List MarketMessage → List ℕ
  packet_of messages =
      layout.encode_header (record { magic = feed_magic; count = length messages })
      ++ encode_all messages

module _ {W : Type 0} (outside : Outside W) (layout : Layout) (batch : ℕ) (drops : Bool) where
  abbrev pub drop_packet : Exchange → Exchange
  drop_packet x = record x {
    packets_dropped = add64 x.packets_dropped 1;
    messages_dropped = add64 x.messages_dropped (length x.pending);
    pending = [];
  }

  abbrev pub send_packet : Exchange × W → Bool × (Exchange × W)
  send_packet (x, w) =
      let (sent, w') = outside.sendto (packet_of layout x.pending) w in
      if send sent
      then (true, (record x { packets_sent = add64 x.packets_sent 1; pending = [] }, w'))
      else (false, (x, w'))

  -- `drops` is `drop_rate > 0.0`.
  unfoldable pub flush_packet : Exchange × W → Bool × (Exchange × W)
  flush_packet (x, w) =
      let (draw, w') = outside.unit w in
      if length x.pending == 0
      then (true, (x, w))
      else if drops
      then (if outside.is_below_drop_rate draw
          then (true, (drop_packet x, w'))
          else send_packet (x, w'))
      else send_packet (x, w)

  -- The message of one round of the loop, stamped, and the exchange that has kept it.
  unfoldable pub publish : Exchange × W → MarketMessage × (Exchange × W)
  publish s =
      let (draft, (x, w)) = draw_event outside s in
      let (now, w') = outside.now_ns w in
      let message = record draft { timestamp_ns = now } in
      (
        message,
        (record x { history = append x.history message; pending = x.pending ++ message ∷ [] }, w'),
      )

  abbrev pub flush_full : Exchange × W → Bool × (Exchange × W)
  flush_full (x, w) =
      let (sent, (x', w')) = flush_packet (x, w) in
      if length x.pending == batch
      then (sent, (x', if sent then outside.pace w' else w'))
      else (true, (x, w))

  -- The loop of `main`, for as many messages as are left; false is its `return 1`.
  unfoldable pub publish_all : ℕ → Exchange × W → Bool × (Exchange × W)
  publish_all zero s = (true, s)
  publish_all (suc left) (x, w) =
      let (stop, w') = outside.stopped w in
      let (sent, s) = flush_full (publish (x, w')).1 in
      let rest = publish_all left s in
      if stop then (true, (x, w')) else if sent then rest else (false, s)

  -- The loop, and the `flush_packet` after it, whose result `main` ignores.
  unfoldable pub publish_feed : ℕ → Exchange × W → Bool × (Exchange × W)
  publish_feed total s =
      let (sent, s') = publish_all total s in
      let (_, s'') = flush_packet s' in (sent, if sent then s'' else s')
