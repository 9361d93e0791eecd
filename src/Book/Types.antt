-- ===== src/Book/Types.antt =====
-- The state of `OrderBook` in include/llte/order_book.hpp.
use c_low_latency_trading_sy.Prelude.{ℕ, ◌-◌, ◌^◌, Bool, ◌&&◌, List, not}
use c_low_latency_trading_sy.Prelude.Int.{ℤ, pos, negsuc, pos_part, ◌+ℤ◌, ◌-ℤ◌, ltb_ℤ}
use c_low_latency_trading_sy.Message.{Side}

pub data Result : Type 0 where
  ok unknown_order duplicate_order price_out_of_band pool_exhausted invalid_quantity : Result

pub record Config : Type 0 where
  pub min_price : ℤ
  pub max_price : ℤ
  pub max_orders : ℕ

pub record Order : Type 0 where
  pub id : ℕ
  pub price : ℤ
  pub quantity : ℕ
  pub next : ℕ
  pub prev : ℕ
  pub side : Side

pub record Level : Type 0 where
  pub total_quantity : ℕ
  pub order_count : ℕ
  pub head : ℕ
  pub tail : ℕ

pub record IndexSlot : Type 0 where
  pub key : ℕ
  pub value : ℕ

pub record OrderBook : Type 0 where
  pub min_price : ℤ
  pub max_price : ℤ
  pub bid_levels : List Level
  pub ask_levels : List Level
  pub pool : List Order
  pub index : List IndexSlot
  pub index_mask : ℕ
  pub free_head : ℕ
  pub live_orders : ℕ
  pub best_bid_level : ℕ
  pub best_ask_level : ℕ

abbrev pub null_order : ℕ
null_order = 2 ^ 32 - 1

abbrev pub no_level : ℕ
no_level = 2 ^ 64 - 1

abbrev pub empty_key : ℕ
empty_key = 0

-- `kNoPrice`, the least `int64_t`.
abbrev pub no_price : ℤ
no_price = negsuc (2 ^ 63 - 1)

abbrev pub empty_level : Level
empty_level = record { total_quantity = 0; order_count = 0; head = null_order; tail = null_order }

abbrev pub empty_slot : IndexSlot
empty_slot = record { key = empty_key; value = 0 }

-- `Order{}`, as `pool_.resize` makes them.
abbrev pub blank_order : Order
blank_order = record { id = 0; price = pos 0; quantity = 0; next = 0; prev = 0; side = Side.sell }

unfoldable pub in_band : OrderBook → ℤ → Bool
in_band b price = not (ltb_ℤ price b.min_price) && not (ltb_ℤ b.max_price price)

-- Asked only for a price in the band, where the difference is not negative.
unfoldable pub level_index : OrderBook → ℤ → ℕ
level_index b price = pos_part (price -ℤ b.min_price)

unfoldable pub level_price : OrderBook → ℕ → ℤ
level_price b i = b.min_price +ℤ pos i
