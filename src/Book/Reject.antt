-- ===== src/Book/Reject.antt =====
-- The calls of orderbook/order_book.cpp that the book turns down.
use c_low_latency_trading_sy.Prelude.{ℕ, ◌≡◌, ◌≢◌, arith}
use c_low_latency_trading_sy.Prelude.Int.{ℤ}
use c_low_latency_trading_sy.Message.{Side}
use c_low_latency_trading_sy.Book.Types.{OrderBook, ok}
use c_low_latency_trading_sy.Book.Levels.{acquire_slot}
use c_low_latency_trading_sy.Book.Orders.{add, cancel, modify, execute}

module _ (b : OrderBook) where
  pub add_unchanged :
      (id : ℕ) (side : Side) (price : ℤ) (quantity : ℕ)
      → (add b id side price quantity).1 ≢ ok
      → (add b id side price quantity).0 ≡ b
  unfolding add acquire_slot
  add_unchanged id side price quantity bad = ground arith

  pub cancel_unchanged : (id : ℕ) → (cancel b id).1 ≢ ok → (cancel b id).0 ≡ b
  unfolding cancel
  cancel_unchanged id bad = ground arith

  pub modify_unchanged :
      (id : ℕ) (price : ℤ) (quantity : ℕ)
      → (modify b id price quantity).1 ≢ ok
      → (modify b id price quantity).0 ≡ b
  unfolding modify
  modify_unchanged id price quantity bad = ground arith

  pub execute_unchanged :
      (id quantity : ℕ) → (execute b id quantity).1 ≢ ok → (execute b id quantity).0 ≡ b
  unfolding execute
  execute_unchanged id quantity bad = ground arith
