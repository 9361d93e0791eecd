-- ===== src/Book/Tests.antt =====
-- The book at a band of two prices and a pool of one order.
pub mod Shown
use c_low_latency_trading_sy.Prelude.{
  get_or, List, ℕ, zero, suc, ◌≡◌, ◌<◌, refl, arith, [], ◌∷◌, inl, inr,
}
use c_low_latency_trading_sy.Prelude.Int.{pos}
use c_low_latency_trading_sy.Message.{Side}
use c_low_latency_trading_sy.Book.Table.{mix, key_at, find_from, find_index, index_insert}
use c_low_latency_trading_sy.Book.Probe.{find_index-index_insert}
use c_low_latency_trading_sy.Book.Types.{
  IndexSlot, OrderBook, Level, empty_level, empty_slot, blank_order, no_level, null_order,
}
use c_low_latency_trading_sy.Book.Levels.{
  link_back, note_level_filled, unlink, on_level_emptied, scan_down,
}
use c_low_latency_trading_sy.Book.Best.{IsBest, count_at}
use c_low_latency_trading_sy.Book.Best.Calls.{link-IsBest, unlink-IsBest}

abbrev tiny : OrderBook
tiny = record {
  min_price = pos 10;
  max_price = pos 11;
  bid_levels = empty_level ∷ empty_level ∷ [];
  ask_levels = empty_level ∷ empty_level ∷ [];
  pool = record blank_order { quantity = 7; next = null_order } ∷ [];
  index = empty_slot ∷ empty_slot ∷ [];
  index_mask = 1;
  free_head = 0;
  live_orders = 0;
  best_bid_level = no_level;
  best_ask_level = no_level;
}

no_orders : (j : ℕ) → count_at (empty_level ∷ empty_level ∷ []) j ≡ 0
no_orders zero = refl
no_orders (suc zero) = refl
no_orders (suc (suc j)) = refl

tiny-IsBest : IsBest tiny
tiny-IsBest = record {
  few_bids = omega arith;
  few_asks = omega arith;
  bid = inl (refl, no_orders);
  ask = inl (refl, no_orders);
}

-- The one order of the pool on the upper bid.
abbrev resting : Level
resting = record { total_quantity = 7; order_count = 1; head = 0; tail = 0 }

abbrev bid_up : OrderBook
bid_up = record tiny {
  bid_levels = empty_level ∷ resting ∷ [];
  pool = record blank_order { quantity = 7; next = null_order; prev = null_order } ∷ [];
  best_bid_level = 1;
}

none_above : (j : ℕ) → 1 < j → count_at (empty_level ∷ resting ∷ []) j ≡ 0
none_above zero h = absurd (omega arith)
none_above (suc zero) h = absurd (omega arith)
none_above (suc (suc j)) h = refl

bid_up-IsBest : IsBest bid_up
bid_up-IsBest = record {
  few_bids = omega arith;
  few_asks = omega arith;
  bid = inr (omega arith, omega arith, none_above);
  ask = inl (refl, no_orders);
}

unlink-IsBest_example : IsBest (unlink bid_up 1 Side.buy 0)
unlink-IsBest_example =
    unlink-IsBest bid_up Side.buy 1 0 bid_up-IsBest (omega arith) (omega arith) (omega arith)

best_after : (unlink bid_up 1 Side.buy 0).best_bid_level ≡ no_level
unfolding unlink on_level_emptied scan_down
best_after = refl

abbrev two_slots : List IndexSlot
two_slots = empty_slot ∷ empty_slot ∷ []

not_there : find_index 1 two_slots 5 ≡ no_level
unfolding find_index find_from mix
not_there = refl

find_index-index_insert_example :
    let index' = index_insert 1 two_slots 5 3 in
    let position = find_index 1 index' 5 in
    (position < 2) × (key_at index' position ≡ 5) × ((get_or index' position empty_slot).value ≡ 3)
find_index-index_insert_example =
    find_index-index_insert 1 two_slots 5 3 0 (omega arith) refl (omega arith) (omega arith) refl
      not_there
