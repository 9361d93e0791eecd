-- ===== src/Exchange/Tests.antt =====
-- An exchange that publishes two messages, each in a packet of its own.
use c_low_latency_trading_sy.Prelude.{
  ◌+◌, ◌*◌, ◌≤◌, ◌<◌, ◌≡◌, refl, arith, true, false, List, [], ◌∷◌, some, length,
}
use c_low_latency_trading_sy.Message.{
  MarketMessage, MessageType, max_batch, max_packet_bytes, sizeof_feed_packet_header,
  sizeof_market_message,
}
use c_low_latency_trading_sy.History.{zeroed}
use c_low_latency_trading_sy.History.Window.{Holds}
use c_low_latency_trading_sy.Handler.{parse}
use c_low_latency_trading_sy.Handler.Tests.{flat, flat_back}
use c_low_latency_trading_sy.Exchange.{
  Outside, start, draw_event, publish, flush_packet, publish_all, packet_of,
}
use c_low_latency_trading_sy.Exchange.Replay.{replay, published_by, publish_all_replays}
use c_low_latency_trading_sy.Exchange.Feed.{Numbered, feed, publish_all-Holds}
use c_low_latency_trading_sy.Exchange.Packets.{IsPacked, Fits, parse-IsWhole, parse-packet_of}

-- Every draw is as low as it can be, no signal comes, and the network takes every packet.
abbrev lowest : Outside (Unit {0})
lowest = record {
  Draw = Unit {0};
  unit = λ w. (tt, w);
  is_below = λ draw hundredths. true;
  is_below_drop_rate = λ draw. false;
  depth = λ w. (1, w);
  lot = λ w. (1, w);
  pick = λ n w. (0, w);
  now_ns = λ w. (9, w);
  stopped = λ w. (false, w);
  sendto = λ bytes w. (some (length bytes), w);
  pace = λ w. w;
}

abbrev two : List MarketMessage
two = published_by lowest flat 1 false 2 (start 4, tt)

some_published : 0 < length two
unfolding published_by publish draw_event flush_packet
some_published = omega arith

publish_all-Holds_example :
    Numbered 1001 two
    × Holds (feed 1001 two) 1001 (publish_all lowest flat 1 false 2 (start 4, tt)).1.0.history
    × ((publish_all lowest flat 1 false 2 (start 4, tt)).1.0.history.newest_sequence
        ≡ 1000 + length two)
publish_all-Holds_example =
    publish_all-Holds lowest flat 1 false 4 2 tt (omega arith) (omega arith) (omega arith)
      some_published

publish_all_replays_example :
    replay (start 4).book two ≡ (publish_all lowest flat 1 false 2 (start 4, tt)).1.0.book
publish_all_replays_example = publish_all_replays lowest flat 1 false 2 (start 4) tt

flat-IsPacked : IsPacked flat
flat-IsPacked = record {
  header_size = λ h. refl;
  message_size = λ m. refl;
  header_back = λ h magic count. refl;
  message_back = λ m fits. flat_back m;
}

abbrev plain : MarketMessage
plain = record zeroed { sequence_number = 1001; type = MessageType.add }

plain-Fits : Fits plain
plain-Fits = record {
  sequence_number = omega arith;
  timestamp_ns = omega arith;
  order_id = omega arith;
  high = omega arith;
  low = omega arith;
  quantity = omega arith;
  symbol_id = omega arith;
  type = tt;
}

parse-packet_of_example :
    parse flat (packet_of flat (plain ∷ plain ∷ [])) ≡ some (plain ∷ plain ∷ [])
parse-packet_of_example =
    parse-packet_of flat flat-IsPacked (plain ∷ plain ∷ []) (omega arith) (omega arith)
      (plain-Fits, (plain-Fits, tt))

parse-IsWhole_example :
    let bytes = packet_of flat (plain ∷ plain ∷ []) in
    (0 < 2)
    × (2 ≤ max_batch)
    × (length bytes ≡ sizeof_feed_packet_header + 2 * sizeof_market_message)
    × (length bytes ≤ max_packet_bytes)
parse-IsWhole_example =
    parse-IsWhole flat (packet_of flat (plain ∷ plain ∷ [])) (plain ∷ plain ∷ [])
      parse-packet_of_example
