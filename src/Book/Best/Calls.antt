-- ===== src/Book/Best/Calls.antt =====
-- `link_back` with `note_level_filled`, and `unlink`, of orderbook/order_book.cpp: the best levels of
-- both sides.
use c_low_latency_trading_sy.Prelude.{
  ℕ, ◌+◌, ◌-◌, ltb, ◌||◌, ◌^◌, ◌<◌, arith, Bool, true, false, length, length-set, Bool-cases, inl,
  inr, ◌==◌, ==_iff, set, if◌then◌else◌,
}
use c_low_latency_trading_sy.Message.{Side}
use c_low_latency_trading_sy.Book.Types.{OrderBook, Level, no_level}
use c_low_latency_trading_sy.Book.Levels.{
  level_at, levels_for, order_at, link_back, unlink, note_level_filled, on_level_emptied,
  with_levels, unlinked_pool, scan_down, scan_up, linked_level, unlinked_level,
}
use c_low_latency_trading_sy.Book.Best.{count_at, IsBest}
use c_low_latency_trading_sy.Book.Best.Bid.{link-IsBestBid, keep-IsBestBid, empty-IsBestBid}
use c_low_latency_trading_sy.Book.Best.Ask.{link-IsBestAsk, keep-IsBestAsk, empty-IsBestAsk}

pick_bid :
    (c : Bool) (b : OrderBook) (x : ℕ)
    → IsBest (record b { best_bid_level = if c then x else b.best_bid_level })
    → IsBest (if c then record b { best_bid_level = x } else b)
pick_bid true b x h = h
pick_bid false b x h = h

pick_ask :
    (c : Bool) (b : OrderBook) (x : ℕ)
    → IsBest (record b { best_ask_level = if c then x else b.best_ask_level })
    → IsBest (if c then record b { best_ask_level = x } else b)
pick_ask true b x h = h
pick_ask false b x h = h

-- Linking an order at the back of a level and noting the level keeps the best levels right, if the
-- level exists and its count does not wrap.
pub link-IsBest :
    (b : OrderBook) (side : Side) (i slot : ℕ)
    → IsBest b
    → i < length (levels_for b side)
    → count_at (levels_for b side) i + 1 < 2 ^ 32
    → IsBest (note_level_filled (link_back b i side slot) side i)
unfolding note_level_filled link_back
link-IsBest b Side.buy i slot v inside small =
    let l : Level = linked_level b.pool (level_at b.bid_levels i) slot in
    pick_bid (b.best_bid_level == no_level || ltb b.best_bid_level i) (link_back b i Side.buy slot)
      i
      (record {
        few_bids = rw (length-set b.bid_levels i l) v.few_bids;
        few_asks = v.few_asks;
        bid =
            link-IsBestBid b.bid_levels b.best_bid_level i l v.few_bids inside (omega arith) v.bid;
        ask = v.ask;
      })
link-IsBest b Side.sell i slot v inside small =
    let l : Level = linked_level b.pool (level_at b.ask_levels i) slot in
    pick_ask (b.best_ask_level == no_level || ltb i b.best_ask_level) (link_back b i Side.sell slot)
      i
      (record {
        few_bids = v.few_bids;
        few_asks = rw (length-set b.ask_levels i l) v.few_asks;
        bid = v.bid;
        ask =
            link-IsBestAsk b.ask_levels b.best_ask_level i l v.few_asks inside (omega arith) v.ask;
      })

-- Unlinking an order keeps them right, and hands over to the next level that has orders when the best
-- one loses its last.
pub unlink-IsBest :
    (b : OrderBook) (side : Side) (i slot : ℕ)
    → IsBest b
    → i < length (levels_for b side)
    → 0 < count_at (levels_for b side) i
    → count_at (levels_for b side) i < 2 ^ 32
    → IsBest (unlink b i side slot)
unfolding unlink on_level_emptied
unlink-IsBest b Side.buy i slot v inside was small =
    let l : Level = unlinked_level (order_at b.pool slot) (level_at b.bid_levels i) in
    elim (Bool-cases (l.order_count == 0)) [
      | inl bare ↦ rw bare (
          pick_bid (i == b.best_bid_level)
            (with_levels (record b { pool = unlinked_pool b.pool slot }) Side.buy
              (set b.bid_levels i l))
            (scan_down (set b.bid_levels i l) i)
            (record {
              few_bids = rw (length-set b.bid_levels i l) v.few_bids;
              few_asks = v.few_asks;
              bid =
                  empty-IsBestBid b.bid_levels b.best_bid_level i l v.few_bids inside was
                    ((==_iff _ 0).0 bare) v.bid;
              ask = v.ask;
            }))
      | inr more ↦ rw more (record {
        few_bids = rw (length-set b.bid_levels i l) v.few_bids;
        few_asks = v.few_asks;
        bid =
            keep-IsBestBid b.bid_levels b.best_bid_level i l v.few_bids inside was (ground arith)
              v.bid;
        ask = v.ask;
      })
    ]
unlink-IsBest b Side.sell i slot v inside was small =
    let l : Level = unlinked_level (order_at b.pool slot) (level_at b.ask_levels i) in
    elim (Bool-cases (l.order_count == 0)) [
      | inl bare ↦ rw bare (
          pick_ask (i == b.best_ask_level)
            (with_levels (record b { pool = unlinked_pool b.pool slot }) Side.sell
              (set b.ask_levels i l))
            (scan_up (set b.ask_levels i l) (i + 1) (length (set b.ask_levels i l) - (i + 1)))
            (record {
              few_bids = v.few_bids;
              few_asks = rw (length-set b.ask_levels i l) v.few_asks;
              ask =
                  empty-IsBestAsk b.ask_levels b.best_ask_level i l v.few_asks inside was
                    ((==_iff _ 0).0 bare) v.ask;
              bid = v.bid;
            }))
      | inr more ↦ rw more (record {
        few_bids = v.few_bids;
        few_asks = rw (length-set b.ask_levels i l) v.few_asks;
        ask =
            keep-IsBestAsk b.ask_levels b.best_ask_level i l v.few_asks inside was (ground arith)
              v.ask;
        bid = v.bid;
      })
    ]
