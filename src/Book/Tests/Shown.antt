-- ===== src/Book/Tests/Shown.antt =====
-- A book of two prices and two slots, from its constructor through the calls.
use c_low_latency_trading_sy.Prelude.{
  ℕ, ◌-◌, ◌%◌, ◌<◌, ◌≡◌, ◌≢◌, refl, ap, arith, word64, true, ◌&&◌, ltb, [], ◌∷◌, length, ◌⊎◌,
}
use c_low_latency_trading_sy.Prelude.Int.{pos, ◌-ℤ◌}
use c_low_latency_trading_sy.Message.{Side}
use c_low_latency_trading_sy.Book.Types.{
  empty_key, Config, OrderBook, Order, ok, null_order, no_price, in_band, level_index, level_price,
}
use c_low_latency_trading_sy.Book.Table.{
  key_at, mix, find_index, find_from, index_insert, insert_from,
}
use c_low_latency_trading_sy.Book.Levels.{order_at, link_back, note_level_filled, acquire_slot}
use c_low_latency_trading_sy.Book.Orders.{
  make_book, round_up_pow2, clear, add, cancel, execute, modify, slot_at, same_price, quantity_at,
  order_count_at, best_bid, best_ask,
}
use c_low_latency_trading_sy.Book.Sound.{Queues, with_queue}
use c_low_latency_trading_sy.Book.Whole.View.{View, with_entries, Shows}
use c_low_latency_trading_sy.Book.Whole.View.New.{no_queues, no_entries, make_book-Shows}
use c_low_latency_trading_sy.Book.Whole.View.Add.{add-Shows}
use c_low_latency_trading_sy.Book.Whole.View.Remove.{
  side_of, level_of, queues_without, cancel-Shows, execute_all-Shows,
}
use c_low_latency_trading_sy.Book.Whole.View.Shrink.{execute_part-Shows, modify_shrinks-Shows}
use c_low_latency_trading_sy.Book.Whole.View.Requeue.{queues_after, view_after, modify_requeues}
use c_low_latency_trading_sy.Book.Whole.View.Round.{add-cancel-Shows}
use c_low_latency_trading_sy.Book.Whole.View.Read.{quantity_of, level_shown, best_shown}

abbrev small : Config
small = record { min_price = pos 10; max_price = pos 11; max_orders = 2 }

make_book-Shows_example : Shows (make_book small) no_queues (0 ∷ 1 ∷ []) no_entries
unfolding ◌-ℤ◌
make_book-Shows_example = make_book-Shows small (omega arith) (omega arith)

new_shows : Shows (make_book small) no_queues (0 ∷ 1 ∷ []) no_entries
unfolding ◌-ℤ◌
new_shows = make_book-Shows small (omega arith) (omega arith)

abbrev one_order : OrderBook
one_order = (add (make_book small) 7 Side.buy (pos 11) 5).0

add_done : (add (make_book small) 7 Side.buy (pos 11) 5).1 ≡ ok
unfolding add make_book round_up_pow2 clear ◌-ℤ◌ in_band level_index find_index find_from mix
    acquire_slot
add_done = refl

abbrev level_one : ℕ
level_one = level_index (make_book small) (pos 11)

abbrev one_queue : Queues
one_queue = with_queue no_queues Side.buy level_one (0 ∷ [])

abbrev one_entry : View
one_entry = with_entries no_entries Side.buy level_one (record { id = 7; quantity = 5 } ∷ [])

add-Shows_example : Shows one_order one_queue (1 ∷ []) one_entry
add-Shows_example =
    add-Shows (make_book small) no_queues 0 (1 ∷ []) no_entries 7 Side.buy (pos 11) 5 new_shows
      (omega arith) add_done

one_shows : Shows one_order one_queue (1 ∷ []) one_entry
one_shows =
    add-Shows (make_book small) no_queues 0 (1 ∷ []) no_entries 7 Side.buy (pos 11) 5 new_shows
      (omega arith) add_done

-- Its place in the book, and where the index has it.
its_place :
    (one_queue (side_of one_order 0) (level_of one_order 0) ≡ 0 ∷ [])
    × (find_index one_order.index_mask one_order.index 7 ≡ 3)
    × (slot_at one_order 3 ≡ 0)
    × (in_band one_order (pos 10) ≡ true)
    × (in_band one_order (pos 11) ≡ true)
    × (order_at one_order.pool 0 ≡ record {
      id = 7;
      price = pos 11;
      quantity = 5;
      next = null_order;
      prev = null_order;
      side = Side.buy;
    })
unfolding add make_book round_up_pow2 clear ◌-ℤ◌ in_band level_index find_index find_from mix
    acquire_slot link_back note_level_filled index_insert insert_from
its_place = (refl, refl, refl, refl, refl, refl)

its_quantity : (order_at one_order.pool 0).quantity ≡ 5
its_quantity = ap (λ (o : Order). o.quantity) its_place.5

cancel-Shows_example :
    ((cancel one_order 7).1 ≡ ok)
    × Shows
        (cancel one_order 7).0
        (queues_without one_order one_queue (1 ∷ []) one_entry one_shows [] 0 [] its_place.0)
        (0 ∷ 1 ∷ [])
        (with_entries one_entry (side_of one_order 0) (level_of one_order 0) [])
cancel-Shows_example =
    cancel-Shows one_order one_queue (1 ∷ []) one_entry one_shows [] 0 [] its_place.0 7 3
      its_place.1 (omega arith) its_place.2

execute_all-Shows_example :
    ((execute one_order 7 6).1 ≡ ok)
    × Shows
        (execute one_order 7 6).0
        (queues_without one_order one_queue (1 ∷ []) one_entry one_shows [] 0 [] its_place.0)
        (0 ∷ 1 ∷ [])
        (with_entries one_entry (side_of one_order 0) (level_of one_order 0) [])
execute_all-Shows_example =
    execute_all-Shows one_order one_queue (1 ∷ []) one_entry one_shows [] 0 [] its_place.0 7 3
      its_place.1 (omega arith) its_place.2 6 (omega arith) (omega (arith, its_quantity))

execute_part-Shows_example :
    ((execute one_order 7 2).1 ≡ ok)
    × Shows (execute one_order 7 2).0 one_queue (1 ∷ []) (
        with_entries one_entry (side_of one_order 0) (level_of one_order 0) (
          record {
            id = (order_at one_order.pool 0).id;
            quantity = (order_at one_order.pool 0).quantity - 2;
          }
          ∷ []))
execute_part-Shows_example =
    execute_part-Shows one_order one_queue (1 ∷ []) one_entry one_shows [] 0 [] its_place.0 7 3
      its_place.1 (omega arith) its_place.2 2 (omega arith) (omega (arith, its_quantity))

modify_shrinks-Shows_example :
    ((modify one_order 7 (pos 11) 4).1 ≡ ok)
    × Shows (modify one_order 7 (pos 11) 4).0 one_queue (1 ∷ []) (
        with_entries one_entry
          (side_of one_order 0)
          (level_of one_order 0)
          (record { id = (order_at one_order.pool 0).id; quantity = 4 } ∷ []))
modify_shrinks-Shows_example =
    modify_shrinks-Shows one_order one_queue (1 ∷ []) one_entry one_shows [] 0 [] its_place.0 7 3
      its_place.1 (omega arith) its_place.2 (pos 11) 4 its_place.4 (omega arith)
      (ap (λ (o : Order). same_price (pos 11) o.price) its_place.5) (omega (arith, its_quantity))

modify_requeues_example :
    ((modify one_order 7 (pos 10) 9).1 ≡ ok)
    × Shows
        (modify one_order 7 (pos 10) 9).0
        (queues_after one_order one_queue
          (1 ∷ [])
          one_entry
          one_shows
          []
          0
          []
          its_place.0
          (pos 10)
          9
          its_place.3
          (omega arith))
        (1 ∷ [])
        (view_after one_order one_queue
          (1 ∷ [])
          one_entry
          one_shows
          []
          0
          []
          its_place.0
          (pos 10)
          9
          its_place.3
          (omega arith))
modify_requeues_example =
    modify_requeues one_order one_queue (1 ∷ []) one_entry one_shows [] 0 [] its_place.0 (pos 10) 9
      its_place.3 (omega arith) 7 3 its_place.1 (omega arith) its_place.2 (omega arith)
      (ap (λ (o : Order). same_price (pos 10) o.price && ltb 9 o.quantity) its_place.5)

level_shown_example :
    (quantity_at one_order Side.buy (pos 11)
      ≡ quantity_of (one_entry Side.buy (level_index one_order (pos 11))) % word64)
    × (order_count_at one_order Side.buy (pos 11)
        ≡ length (one_entry Side.buy (level_index one_order (pos 11))))
level_shown_example =
    level_shown one_order one_queue (1 ∷ []) one_entry one_shows Side.buy (pos 11) its_place.4

best_shown_example :
    (((best_bid one_order ≡ no_price) × ((j : ℕ) → one_entry Side.buy j ≡ []))
      ⊎ ((best_bid one_order ≡ level_price one_order one_order.best_bid_level)
          × (one_entry Side.buy one_order.best_bid_level ≢ [])
          × ((j : ℕ) → one_order.best_bid_level < j → one_entry Side.buy j ≡ [])))
    × (((best_ask one_order ≡ no_price) × ((j : ℕ) → one_entry Side.sell j ≡ []))
        ⊎ ((best_ask one_order ≡ level_price one_order one_order.best_ask_level)
            × (one_entry Side.sell one_order.best_ask_level ≢ [])
            × ((j : ℕ) → j < one_order.best_ask_level → one_entry Side.sell j ≡ [])))
best_shown_example = best_shown one_order one_queue (1 ∷ []) one_entry one_shows

small_index :
    ((make_book small).index_mask ≡ 3)
    × (length (make_book small).index ≡ 4)
    × (key_at (make_book small).index 0 ≡ empty_key)
unfolding make_book round_up_pow2 clear
small_index = (refl, refl, refl)

add-cancel-Shows_example :
    ((cancel one_order 7).1 ≡ ok) × Shows (cancel one_order 7).0 no_queues (0 ∷ 1 ∷ []) no_entries
add-cancel-Shows_example =
    add-cancel-Shows (make_book small) no_queues 0 (1 ∷ []) no_entries 7 Side.buy (pos 11) 5
      new_shows (omega arith) add_done 2 0 (omega arith) small_index.0 small_index.1 (omega arith)
      small_index.2
