-- ===== src/Book.antt =====
-- include/llte/order_book.hpp and orderbook/order_book.cpp: the preallocated limit order book.
-- Types has its state, Table the index from order ids to pool slots, Levels the price levels with
-- their queues and the best prices, Orders the calls of the book. The other modules prove.
pub mod Types
pub mod Table
pub mod Levels
pub mod Orders
pub mod Best
pub mod Queue
pub mod Sound
pub mod Whole
pub mod Reject
pub mod Probe
mod Tests
