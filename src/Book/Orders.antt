-- ===== src/Book/Orders.antt =====
-- The constructor and the calls of `OrderBook` in orderbook/order_book.cpp.
use c_low_latency_trading_sy.Prelude.{
  ℕ, zero, suc, ◌+◌, ◌-◌, ◌*◌, Bool, ◌&&◌, not, List, [], ◌∷◌, add64, sub64, ltb, leb, ◌==◌,
  if◌then◌else◌, length, get_or, set, replicate,
}
use c_low_latency_trading_sy.Prelude.Int.{ℤ, pos_part, neg_part, ◌-ℤ◌}
use c_low_latency_trading_sy.Message.{Side}
use c_low_latency_trading_sy.Book.Types.{
  Result, ok, unknown_order, duplicate_order, price_out_of_band, pool_exhausted, invalid_quantity,
  Config, Order, OrderBook, null_order, no_level, no_price, empty_key, empty_level, empty_slot,
  blank_order, in_band, level_index, level_price,
}
use c_low_latency_trading_sy.Book.Table.{find_index, index_insert, index_erase}
use c_low_latency_trading_sy.Book.Levels.{
  order_at, level_at, levels_for, with_levels, acquire_slot, release_slot, link_back, unlink,
  note_level_filled,
}

-- `std::bit_ceil`, the least power of two that is not less: `p` doubles until it gets there.
bit_ceil_from : ℕ → ℕ → ℕ → ℕ
bit_ceil_from zero p value = p
bit_ceil_from (suc fuel) p value =
    let doubled = bit_ceil_from fuel (2 * p) value in if leb value p then p else doubled

unfoldable pub round_up_pow2 : ℕ → ℕ
unfolding bit_ceil_from
round_up_pow2 value = if ltb value 2 then 2 else bit_ceil_from 64 1 value

-- The free list from slot `i` on, of a pool whose last slot ends it.
abbrev pub chain_free : ℕ → List Order → List Order
chain_free i [] = []
chain_free i (o ∷ []) = record o { next = null_order } ∷ []
chain_free i (o ∷ p ∷ pool) = record o { next = i + 1 } ∷ chain_free (i + 1) (p ∷ pool)

unfoldable pub clear : OrderBook → OrderBook
clear b = record b {
  bid_levels = replicate (length b.bid_levels) empty_level;
  ask_levels = replicate (length b.ask_levels) empty_level;
  index = replicate (length b.index) empty_slot;
  pool = chain_free 0 b.pool;
  free_head = if ltb 0 (length b.pool) then 0 else null_order;
  live_orders = 0;
  best_bid_level = no_level;
  best_ask_level = no_level;
}

unfoldable pub make_book : Config → OrderBook
unfolding round_up_pow2 clear
make_book c =
    let level_count = pos_part (c.max_price -ℤ c.min_price) + 1 in
    let index_size = round_up_pow2 (c.max_orders * 2) in
    clear (record {
      min_price = c.min_price;
      max_price = c.max_price;
      bid_levels = replicate level_count empty_level;
      ask_levels = replicate level_count empty_level;
      pool = replicate c.max_orders blank_order;
      index = replicate index_size empty_slot;
      index_mask = index_size - 1;
      free_head = null_order;
      live_orders = 0;
      best_bid_level = no_level;
      best_ask_level = no_level;
    })

-- `add` once its slot is taken from the free list.
abbrev pub place : OrderBook → ℕ → ℕ → Side → ℤ → ℕ → OrderBook
place b slot order_id side price quantity =
    let order = record (order_at b.pool slot) {
      id = order_id;
      price = price;
      quantity = quantity;
      side = side;
    } in
    let linked =
      note_level_filled
        (link_back (record b { pool = set b.pool slot order }) (level_index b price) side slot) side
        (level_index b price) in
    record linked {
      index = index_insert linked.index_mask linked.index order_id slot;
      live_orders = add64 linked.live_orders 1;
    }

unfoldable pub add : OrderBook → ℕ → Side → ℤ → ℕ → OrderBook × Result
add b order_id side price quantity =
    if order_id == empty_key
    then (b, unknown_order)
    else if quantity == 0
    then (b, invalid_quantity)
    else if not (in_band b price)
    then (b, price_out_of_band)
    else if not (find_index b.index_mask b.index order_id == no_level)
    then (b, duplicate_order)
    else (let (slot, b') = acquire_slot b in
        if slot == null_order
        then (b', pool_exhausted)
        else (place b' slot order_id side price quantity, ok))

-- The slot of the pool that the index gives at a position.
abbrev pub slot_at : OrderBook → ℕ → ℕ
slot_at b position = (get_or b.index position empty_slot).value

-- What `cancel` and a full fill do to the order at an index position.
abbrev pub remove_at : OrderBook → ℕ → OrderBook
remove_at b position =
    let slot = slot_at b position in
    let order = order_at b.pool slot in
    let out = unlink b (level_index b order.price) order.side slot in
    let released =
      release_slot (record out { index = index_erase out.index_mask out.index position }) slot in
    record released { live_orders = sub64 released.live_orders 1 }

unfoldable pub cancel : OrderBook → ℕ → OrderBook × Result
cancel b order_id =
    let position = find_index b.index_mask b.index order_id in
    if position == no_level then (b, unknown_order) else (remove_at b position, ok)

-- Less of an order, in place: `taken` is what leaves it.
abbrev pub shrink : OrderBook → ℕ → ℕ → OrderBook
shrink b slot taken =
    let order = order_at b.pool slot in
    let levels = levels_for b order.side in
    let i = level_index b order.price in
    let level = level_at levels i in
    with_levels
      (record b { pool = set b.pool slot (record order { quantity = order.quantity - taken }) })
      order.side (set levels i (record level { total_quantity = sub64 level.total_quantity taken }))

-- A new price or size, at the back of the queue of its level.
abbrev pub requeue : OrderBook → ℕ → ℤ → ℕ → OrderBook
requeue b slot new_price new_quantity =
    let order = order_at b.pool slot in
    let out = unlink b (level_index b order.price) order.side slot in
    let changed = record out {
      pool =
          set out.pool slot
            (record (order_at out.pool slot) { price = new_price; quantity = new_quantity });
    } in
    note_level_filled (link_back changed (level_index b new_price) order.side slot) order.side
      (level_index b new_price)

-- Equality of prices.
abbrev pub same_price : ℤ → ℤ → Bool
same_price a b = pos_part a + neg_part b == pos_part b + neg_part a

unfoldable pub modify : OrderBook → ℕ → ℤ → ℕ → OrderBook × Result
modify b order_id new_price new_quantity =
    let position = find_index b.index_mask b.index order_id in
    let slot = slot_at b position in
    let order = order_at b.pool slot in
    if new_quantity == 0
    then (b, invalid_quantity)
    else if not (in_band b new_price)
    then (b, price_out_of_band)
    else if position == no_level
    then (b, unknown_order)
    else if same_price new_price order.price && ltb new_quantity order.quantity
    then (shrink b slot (order.quantity - new_quantity), ok)
    else (requeue b slot new_price new_quantity, ok)

unfoldable pub execute : OrderBook → ℕ → ℕ → OrderBook × Result
execute b order_id quantity =
    let position = find_index b.index_mask b.index order_id in
    let slot = slot_at b position in
    let order = order_at b.pool slot in
    if quantity == 0
    then (b, invalid_quantity)
    else if position == no_level
    then (b, unknown_order)
    else if leb order.quantity quantity
    then (remove_at b position, ok)
    else (shrink b slot quantity, ok)

unfoldable pub best_bid : OrderBook → ℤ
best_bid b = if b.best_bid_level == no_level then no_price else level_price b b.best_bid_level

unfoldable pub best_ask : OrderBook → ℤ
best_ask b = if b.best_ask_level == no_level then no_price else level_price b b.best_ask_level

unfoldable pub quantity_at : OrderBook → Side → ℤ → ℕ
quantity_at b side price =
    if not (in_band b price)
    then 0
    else (level_at (levels_for b side) (level_index b price)).total_quantity

unfoldable pub order_count_at : OrderBook → Side → ℤ → ℕ
order_count_at b side price =
    if not (in_band b price)
    then 0
    else (level_at (levels_for b side) (level_index b price)).order_count

unfoldable pub contains : OrderBook → ℕ → Bool
contains b order_id = not (find_index b.index_mask b.index order_id == no_level)
