-- ===== src/Book/Levels.antt =====
-- The price levels of orderbook/order_book.cpp: their queues of orders, linked through the pool, the
-- free list of the pool, and the best level of each side.
use c_low_latency_trading_sy.Prelude.{
  ℕ, zero, suc, ◌+◌, ◌-◌, ◌%◌, ◌^◌, ◌||◌, List, add64, sub64, ltb, ◌==◌, if◌then◌else◌, length,
  get_or, set,
}
use c_low_latency_trading_sy.Message.{Side}
use c_low_latency_trading_sy.Book.Types.{
  Order, Level, OrderBook, null_order, no_level, empty_level, blank_order,
}

-- `+ 1` and `- 1` of `uint32_t`.
abbrev pub inc32 : ℕ → ℕ
inc32 n = (n + 1) % 2 ^ 32

abbrev pub dec32 : ℕ → ℕ
dec32 n = (n + 2 ^ 32 - 1) % 2 ^ 32

abbrev pub order_at : List Order → ℕ → Order
order_at pool slot = get_or pool slot blank_order

abbrev pub level_at : List Level → ℕ → Level
level_at levels i = get_or levels i empty_level

abbrev pub levels_for : OrderBook → Side → List Level
levels_for b Side.buy = b.bid_levels
levels_for b Side.sell = b.ask_levels

abbrev pub with_levels : OrderBook → Side → List Level → OrderBook
with_levels b Side.buy levels = record b { bid_levels = levels }
with_levels b Side.sell levels = record b { ask_levels = levels }

abbrev pub set_next : List Order → ℕ → ℕ → List Order
set_next pool slot n = set pool slot (record (order_at pool slot) { next = n })

abbrev pub set_prev : List Order → ℕ → ℕ → List Order
set_prev pool slot p = set pool slot (record (order_at pool slot) { prev = p })

-- The slot, or `kNullOrder`, beside the book.
unfoldable pub acquire_slot : OrderBook → ℕ × OrderBook
acquire_slot b =
    if b.free_head == null_order
    then (null_order, b)
    else (b.free_head, record b { free_head = (order_at b.pool b.free_head).next })

unfoldable pub release_slot : OrderBook → ℕ → OrderBook
release_slot b slot = record b { pool = set_next b.pool slot b.free_head; free_head = slot }

-- The pool and the level after `link_back`.
abbrev pub linked_pool : List Order → Level → ℕ → List Order
linked_pool pool level slot =
    let placed =
      set pool slot (record (order_at pool slot) { next = null_order; prev = level.tail }) in
    if level.tail == null_order then placed else set_next placed level.tail slot

abbrev pub linked_level : List Order → Level → ℕ → Level
linked_level pool level slot = record {
  total_quantity = add64 level.total_quantity (order_at pool slot).quantity;
  order_count = inc32 level.order_count;
  head = if level.tail == null_order then slot else level.head;
  tail = slot;
}

unfoldable pub link_back : OrderBook → ℕ → Side → ℕ → OrderBook
link_back b level_idx side slot =
    let levels = levels_for b side in
    let level = level_at levels level_idx in
    with_levels (record b { pool = linked_pool b.pool level slot }) side
      (set levels level_idx (linked_level b.pool level slot))

-- The scan of `on_level_emptied` below a level, and above one over the `n` levels that are left.
unfoldable pub scan_down : List Level → ℕ → ℕ
scan_down levels zero = no_level
scan_down levels (suc scan) =
    if ltb 0 (level_at levels scan).order_count then scan else scan_down levels scan

unfoldable pub scan_up : List Level → ℕ → ℕ → ℕ
scan_up levels scan zero = no_level
scan_up levels scan (suc n) =
    if ltb 0 (level_at levels scan).order_count then scan else scan_up levels (scan + 1) n

unfoldable pub on_level_emptied : OrderBook → Side → ℕ → OrderBook
on_level_emptied b Side.buy level_idx =
    if level_idx == b.best_bid_level
    then record b { best_bid_level = scan_down b.bid_levels level_idx }
    else b
on_level_emptied b Side.sell level_idx =
    if level_idx == b.best_ask_level
    then record b {
      best_ask_level = scan_up b.ask_levels (level_idx + 1) (length b.ask_levels - (level_idx + 1));
    }
    else b

unfoldable pub note_level_filled : OrderBook → Side → ℕ → OrderBook
note_level_filled b Side.buy level_idx =
    if b.best_bid_level == no_level || ltb b.best_bid_level level_idx
    then record b { best_bid_level = level_idx }
    else b
note_level_filled b Side.sell level_idx =
    if b.best_ask_level == no_level || ltb level_idx b.best_ask_level
    then record b { best_ask_level = level_idx }
    else b

-- The two neighbours of the slot are joined, one after the other.
abbrev pub unlinked_pool : List Order → ℕ → List Order
unlinked_pool pool slot =
    let order = order_at pool slot in
    let before = if order.prev == null_order then pool else set_next pool order.prev order.next in
    let order' = order_at before slot in
    if order'.next == null_order then before else set_prev before order'.next order'.prev

abbrev pub unlinked_level : Order → Level → Level
unlinked_level order level = record {
  total_quantity = sub64 level.total_quantity order.quantity;
  order_count = dec32 level.order_count;
  head = if order.prev == null_order then order.next else level.head;
  tail = if order.next == null_order then order.prev else level.tail;
}

unfoldable pub unlink : OrderBook → ℕ → Side → ℕ → OrderBook
unlink b level_idx side slot =
    let levels = levels_for b side in
    let level = unlinked_level (order_at b.pool slot) (level_at levels level_idx) in
    let out =
      with_levels (record b { pool = unlinked_pool b.pool slot }) side
        (set levels level_idx level) in
    if level.order_count == 0 then on_level_emptied out side level_idx else out
