-- ===== src/Lib.antt =====
-- A verification library for the low-latency market-data pipeline of this repository.
--
-- The exchange publishes sequenced order-book updates over UDP multicast and keeps them in a history
-- from which it answers retransmission requests over TCP. The market-data handler puts the feed and
-- the retransmissions through one sequence manager, and pushes what that delivers into a
-- single-producer ring in shared memory. The order-book engine pops it and applies it to the book.
--
-- Files, and the code that each models:
--   Message                  include/llte/market_message.hpp, pipeline.hpp, protocol.hpp
--   History, History/*       `HistoryStore` of exchange/recovery_server.cpp
--   Sequencer, Sequencer/*   `SequenceManager` of market_data/sequence_manager.cpp
--   Spsc, Spsc/*             `SpscQueue` of include/llte/spsc_queue.hpp: whole calls in Spsc, the
--                            memory accesses of two running threads in Spsc/Steps
--   Book, Book/*             `OrderBook` of orderbook/order_book.cpp: the linked queues as lists in
--                            Book/Queue, the levels with their queues in Book/Sound, the book as a
--                            whole in Book/Whole, and the orders that it shows in Book/Whole/View
--   Engine, Engine/*         the loop of orderbook/order_book_engine.cpp
--   Latency, Latency/*       `LatencySamples` of include/llte/latency_stats.hpp
--   Recovery/SocketIo        include/llte/socket_io.hpp
--   Recovery/Client          `request` of market_data/recovery_client.cpp
--   Recovery/Server          `serve_connection` of exchange/recovery_server.cpp
--   Handler, Handler/*       the loop of market_data/market_data_handler.cpp, and `receive` of
--                            market_data/multicast_receiver.cpp; Handler/Steps is the running process
--   Exchange, Exchange/*     the loop of exchange/exchange_simulator.cpp, and `send` of
--                            exchange/multicast_publisher.cpp
--   SharedMemory, SharedMemory/*   `SharedMemoryQueue` of ipc/shared_memory_queue.cpp
--   Prelude, Prelude/*       shared names, vectors, words and integers
--
-- State is a record and an operation a function to the new record. A vector is a list that is read
-- with a default and written in place. A `uint64_t` and a `size_t` is a number below 2 ^ 64, and their additions and subtractions wrap (`add64`, `sub64`). A
-- sequence number, an index and a counter are such words.
--
-- Loops that are not over a list take fuel: `fetch_from` answers `none` when it runs out, and
-- `fetch-eq` shows that the length of the range suffices; `deliver_from` likewise, which
-- `next_deliverable` calls with one round more than the buffer has slots. `request_range` is given
-- the size of the reorder buffer, which bounds the batches of a gap. The loops over the index table
-- of the book are given as many rounds as the table has slots, all that a probe can see; the source's
-- would not end on a full table, and the table has twice the slots of the pool. `drain`, the loop of
-- the engine, answers `none` out of fuel, and `drain-IsDrained` gives enough; the loops of Recovery
-- likewise, in the theorems that end in -HasRead, -HasWritten, -Settles and -Answers.
--
-- Not under the repository, so parameters: `recv` and `send` (`Socket` of Recovery/SocketIo), the
-- memory layout of the frames (`Layout` of Recovery/Client), what the sequence manager is answered and
-- its clock (`World` of Sequencer), the clock of the engine, `std::sort`, and the rounding of doubles
-- in a percentile. The memory order of the ring's atomics is modelled by loads that may return any
-- value between the one seen last and the newest; the payload of a slot counts from the release of its
-- index on.
--
-- The handler and the exchange run on parameters too: what `recv` and `sendto` answer, the clock, the
-- signal, and the random draws. The steps of the handler stand side by side with the pops of the
-- consumer; `AllClear` says of a run that its sequence numbers stay clear of the wrap at 2 ^ 64. The
-- loop of the exchange is over the messages that are left, and those of
-- `attach` over the looks that fit in the timeout. The system calls of SharedMemory are parameters.
--
-- Not modelled: the set-up and tear-down of sockets, signals and threads, which are chains of system
-- calls, command lines, printing, the benchmarks, the demonstration of a race in
-- tools/spsc_race_demo.cpp and the tests.
pub mod Prelude
pub mod Message
pub mod Book
pub mod Engine
pub mod Latency
pub mod History
pub mod Sequencer
pub mod Spsc
pub mod Recovery
pub mod Handler
pub mod Exchange
pub mod SharedMemory
