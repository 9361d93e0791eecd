-- ===== src/Book/Whole/View/Requeue.antt =====
-- `modify` of orderbook/order_book.cpp where it requeues the order, on the orders that a book shows.
use c_low_latency_trading_sy.Prelude.{
  ℕ, ◌^◌, ◌<◌, ◌≡◌, ◌≢◌, refl, ap, subst, ◌∙◌, arith, true, false, ◌&&◌, List, [], ◌∷◌, ◌++◌, map,
  ltb, ◌==◌, set,
}
use c_low_latency_trading_sy.Prelude.Int.{ℤ}
use c_low_latency_trading_sy.Message.{Side}
use c_low_latency_trading_sy.Book.Types.{
  OrderBook, Order, ok, null_order, no_level, in_band, level_index,
}
use c_low_latency_trading_sy.Book.Table.{find_index}
use c_low_latency_trading_sy.Book.Levels.{
  order_at, levels_for, unlink, link_back, note_level_filled,
}
use c_low_latency_trading_sy.Book.Orders.{slot_at, requeue, modify, same_price}
use c_low_latency_trading_sy.Book.Sound.{Queues, with_queue}
use c_low_latency_trading_sy.Book.Sound.Unlink.{unlinked-IsKept}
use c_low_latency_trading_sy.Book.Whole.{band_of}
use c_low_latency_trading_sy.Book.Whole.View.{
  Entry, entry_at, View, with_entries, Shows, pool-unlink,
}
use c_low_latency_trading_sy.Book.Whole.View.Add.{rest-Shows}
use c_low_latency_trading_sy.Book.Whole.View.Remove.{
  side_of, level_of, resting-IsHome, resting_exists, not_free, entry-unlink, unlink-Shows,
  slot-IsLoose, length-unlink,
}

module _ (b : OrderBook) (queues : Queues) (free : List ℕ) (view : View)
    (shows : Shows b queues free view) (xs : List ℕ) (slot : ℕ) (ys : List ℕ)
    (split : queues (side_of b slot) (level_of b slot) ≡ xs ++ slot ∷ ys) (new_price : ℤ)
    (new_quantity : ℕ) (inside : in_band b new_price ≡ true) (small : new_quantity < 2 ^ 32) where
  abbrev side : Side
  side = side_of b slot

  abbrev out : OrderBook
  out = unlink b (level_of b slot) side slot

  -- The queues and the orders with the slot taken out, and then put at the back of the level of the
  -- new price.
  abbrev pub queues_between : Queues
  queues_between = with_queue queues side (level_of b slot) (xs ++ ys)

  abbrev pub view_between : View
  view_between =
      with_entries view side (level_of b slot)
        (map (entry_at b.pool) xs ++ map (entry_at b.pool) ys)

  abbrev pub queues_after : Queues
  queues_after =
      let i = level_index b new_price in
      with_queue queues_between side i (queues_between side i ++ slot ∷ [])

  abbrev pub view_after : View
  view_after =
      let i = level_index b new_price in
      with_entries view_between side i (
        view_between side i
        ++ record { id = (order_at b.pool slot).id; quantity = new_quantity } ∷ [])

  abbrev o : Order
  o = record (order_at out.pool slot) { price = new_price; quantity = new_quantity }

  slot_real : slot ≢ null_order
  slot_real = omega (
    arith,
    (resting-IsHome b queues free view shows xs slot ys split).0,
    shows.sound.stored.resting.few,
  )

  side_kept : (order_at out.pool slot).side ≡ side
  side_kept =
      let kept =
        unlinked-IsKept b.pool (levels_for b) (band_of b) queues shows.sound.stored.resting side
          (level_of b slot) xs slot ys split
          (resting_exists b queues free view shows xs slot ys split) slot slot_real in
      rw (pool-unlink b side (level_of b slot) slot).0 kept.side

  id_kept : (order_at out.pool slot).id ≡ (order_at b.pool slot).id
  id_kept =
      ap (λ (e : Entry). e.id)
        (entry-unlink b queues free view shows xs slot ys split slot slot_real)

  bounds_kept :
      (price : ℤ)
      → (level_index out price ≡ level_index b price) × (in_band out price ≡ in_band b price)
  unfolding level_index in_band
  bounds_kept price = let e = pool-unlink b side (level_of b slot) slot in (rw e.1, rw (e.1, e.2))

  pub requeue-Shows : Shows (requeue b slot new_price new_quantity) queues_after free view_after
  requeue-Shows =
      let unlinked = unlink-Shows b queues free view shows xs slot ys split in
      let rested =
        rest-Shows out queues_between free view_between unlinked slot o
          (omega (
            arith,
            length-unlink b queues free view shows xs slot ys split,
            (resting-IsHome b queues free view shows xs slot ys split).0,
          ))
          (slot-IsLoose b queues free view shows xs slot ys split)
          (not_free b queues free view shows xs slot ys split) ((bounds_kept new_price).1 ∙ inside)
          small in
      subst
        (λ i.
          Shows
            (note_level_filled (link_back (record out { pool = set out.pool slot o }) i side slot)
              side i)
            (with_queue queues_between side i (queues_between side i ++ slot ∷ [])) free
            (with_entries view_between side i (
              view_between side i
              ++ record { id = (order_at b.pool slot).id; quantity = new_quantity } ∷ [])))
        (bounds_kept new_price).0
        (subst
          (λ d.
            Shows
              (note_level_filled
                (link_back (record out { pool = set out.pool slot o }) (level_index out new_price)
                  side slot)
                side (level_index out new_price))
              (with_queue queues_between side (level_index out new_price)
                (queues_between side (level_index out new_price) ++ slot ∷ []))
              free
              (with_entries view_between side (level_index out new_price) (
                view_between side (level_index out new_price)
                ++ record { id = d; quantity = new_quantity } ∷ [])))
          id_kept
          (subst
            (λ s.
              Shows
                (note_level_filled
                  (link_back (record out { pool = set out.pool slot o }) (level_index out new_price)
                    s slot)
                  s (level_index out new_price))
                (with_queue queues_between s (level_index out new_price)
                  (queues_between s (level_index out new_price) ++ slot ∷ []))
                free
                (with_entries view_between s (level_index out new_price) (
                  view_between s (level_index out new_price)
                  ++ record { id = o.id; quantity = new_quantity } ∷ [])))
            side_kept rested))

  -- `modify` of an order that the index finds, to another price or to no smaller a size, takes the order
  -- out of its level and puts it, with the new size, at the back of the level of the new price.
  pub modify_requeues :
      (order_id position : ℕ)
      → find_index b.index_mask b.index order_id ≡ position
      → position ≢ no_level
      → slot_at b position ≡ slot
      → 0 < new_quantity
      → (same_price new_price (order_at b.pool slot).price
          && ltb new_quantity (order_at b.pool slot).quantity)
        ≡ false
      → ((modify b order_id new_price new_quantity).1 ≡ ok)
        × Shows (modify b order_id new_price new_quantity).0 queues_after free view_after
  unfolding modify
  modify_requeues order_id position found some_position at some_quantity moves =
      let hit : (position == no_level) ≡ false = ground arith in
      let more : (new_quantity == 0) ≡ false = ground arith in
      rw (more, inside, found, hit, at, moves) (refl, requeue-Shows)
