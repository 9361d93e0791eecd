-- ===== src/Book/Whole/View/Shrink.antt =====
-- `execute` of a part of an order, and `modify` to a smaller size at the same price, of
-- orderbook/order_book.cpp, on the orders that a book shows.
use mathlib.Core.List.{map-append}
use c_low_latency_trading_sy.Prelude.{
  ℕ, ◌-◌, ◌≤◌, ◌<◌, ◌≡◌, ◌≢◌, refl, sym, ap, ap₂, subst, ◌∙◌, arith, true, false, ◌&&◌, List, ◌∷◌,
  ◌++◌, map, ltb, leb, ◌==◌, length, length-append, set, length-set, Bool-cases, inl, inr,
}
use c_low_latency_trading_sy.Prelude.Int.{ℤ}
use c_low_latency_trading_sy.Message.{Side}
use c_low_latency_trading_sy.Book.Types.{OrderBook, Order, Level, ok, no_level, in_band}
use c_low_latency_trading_sy.Book.Table.{find_index}
use c_low_latency_trading_sy.Book.Levels.{order_at, levels_for, with_levels}
use c_low_latency_trading_sy.Book.Orders.{slot_at, shrink, modify, execute, same_price}
use c_low_latency_trading_sy.Book.Best.{IsBest, count_at}
use c_low_latency_trading_sy.Book.Best.Bid.{keep-IsBestBid}
use c_low_latency_trading_sy.Book.Best.Ask.{keep-IsBestAsk}
use c_low_latency_trading_sy.Book.Queue.{has, has-append, around, IsDistinct}
use c_low_latency_trading_sy.Book.Sound.{
  Queues, same_side, same_place, with_side, length-with_side, elsewhere,
}
use c_low_latency_trading_sy.Book.Sound.Frame.{IsFree-frame}
use c_low_latency_trading_sy.Book.Sound.Shrink.{
  shrunk_pool, shrunk_level, shrunk_rest, shrunk_other, shrunk_quantity, shrink-IsResting,
}
use c_low_latency_trading_sy.Book.Whole.{IsStored, IsSound, band_of, IsWritten-IsStored}
use c_low_latency_trading_sy.Book.Whole.Moves.{with_levels-IsWritten}
use c_low_latency_trading_sy.Book.Whole.View.{Entry, entry_at, View, with_entries, Shows, map-kept}
use c_low_latency_trading_sy.Book.Whole.View.Remove.{side_of, level_of, resting_exists, not_free}

-- The same number of orders at the level keeps the best levels.
same_count-IsBest :
    (b : OrderBook) (pool : List Order) (side : Side) (i : ℕ) (l : Level)
    → i < length (levels_for b side)
    → 0 < count_at (levels_for b side) i
    → l.order_count ≡ count_at (levels_for b side) i
    → IsBest b
    → IsBest (with_levels (record b { pool = pool }) side (set (levels_for b side) i l))
same_count-IsBest b pool Side.buy i l inside some_order same best = record {
  few_bids = omega (arith, best.few_bids, length-set b.bid_levels i l);
  few_asks = best.few_asks;
  bid =
      keep-IsBestBid b.bid_levels b.best_bid_level i l best.few_bids inside some_order (omega arith)
        best.bid;
  ask = best.ask;
}
same_count-IsBest b pool Side.sell i l inside some_order same best = record {
  few_bids = best.few_bids;
  few_asks = omega (arith, best.few_asks, length-set b.ask_levels i l);
  bid = best.bid;
  ask =
      keep-IsBestAsk b.ask_levels b.best_ask_level i l best.few_asks inside some_order (omega arith)
        best.ask;
}

module _ (b : OrderBook) (queues : Queues) (free : List ℕ) (view : View)
    (shows : Shows b queues free view) (xs : List ℕ) (slot : ℕ) (ys : List ℕ)
    (split : queues (side_of b slot) (level_of b slot) ≡ xs ++ slot ∷ ys) (taken : ℕ)
    (less : taken ≤ (order_at b.pool slot).quantity) where
  abbrev side : Side
  side = side_of b slot

  abbrev i : ℕ
  i = level_of b slot

  stored : IsStored b queues free
  stored = shows.sound.stored

  exists : i < length (levels_for b side)
  exists = resting_exists b queues free view shows xs slot ys split

  abbrev level : Level
  level =
      shrunk_level b.pool (levels_for b) (band_of b) queues stored.resting side i xs slot ys split
        exists taken less

  abbrev pool' : List Order
  pool' =
      shrunk_pool b.pool (levels_for b) (band_of b) queues stored.resting side i xs slot ys split
        exists taken less

  same_slots : length pool' ≡ length b.pool
  same_slots =
      length-set b.pool slot
        (record (order_at b.pool slot) { quantity = (order_at b.pool slot).quantity - taken })

  other : (j : ℕ) → slot ≢ j → order_at pool' j ≡ order_at b.pool j
  other =
      shrunk_other b.pool (levels_for b) (band_of b) queues stored.resting side i xs slot ys split
        exists taken less

  shrink-IsStored : IsStored (shrink b slot taken) queues free
  shrink-IsStored =
      IsWritten-IsStored b (shrink b slot taken) pool' b.free_head
        (with_side (levels_for b) side (set (levels_for b side) i level)) queues free
        (with_levels-IsWritten b pool' side (set (levels_for b side) i level))
        (shrink-IsResting b.pool (levels_for b) (band_of b) queues stored.resting side i xs slot ys
          split exists taken less)
        (IsFree-frame b.pool pool' b.free_head queues queues free stored.frees same_slots
          (λ j h. other j (λ e. cc (
            sym h
            ∙ ap (λ k. has k free) (sym e)
            ∙ not_free b queues free view shows xs slot ys split)))
          (λ j h out. out))
        (λ side' price h.
          omega (
            arith,
            stored.covers side' price h,
            length-with_side (levels_for b) side side' i level,
          ))

  some_order : 0 < count_at (levels_for b side) i
  some_order = omega (
    arith,
    (stored.resting.level side i exists).count,
    ap length split,
    length-append xs (slot ∷ ys),
  )

  shrink-IsSound : IsSound (shrink b slot taken) queues free
  shrink-IsSound = record {
    stored = shrink-IsStored;
    best = same_count-IsBest b pool' side i level exists some_order refl shows.sound.best;
  }

  -- The orders of that level, the one with less of its quantity.
  abbrev pub entries_after : List Entry
  entries_after =
      let o = order_at b.pool slot in
      map (entry_at b.pool) xs
      ++ record { id = o.id; quantity = o.quantity - taken } ∷ map (entry_at b.pool) ys

  entry_other : (j : ℕ) → slot ≢ j → entry_at pool' j ≡ entry_at b.pool j
  entry_other j ne = ap (λ (o : Order). record { id = o.id; quantity = o.quantity }) (other j ne)

  entry_here : entry_at pool' slot ≡ record {
    id = (order_at b.pool slot).id;
    quantity = (order_at b.pool slot).quantity - taken;
  }
  entry_here =
      ap₂ (λ x q. record { id = x; quantity = q })
        (shrunk_rest b.pool (levels_for b) (band_of b) queues stored.resting side i xs slot ys split
          exists taken less slot).0
        (shrunk_quantity b.pool (levels_for b) (band_of b) queues stored.resting side i xs slot ys
          split exists taken less)

  seen_here : map (entry_at pool') (queues side i) ≡ entries_after
  seen_here =
      let apart =
        around xs slot ys (subst (λ ss. IsDistinct ss) split (stored.resting.distinct side i)) in
      ap (map (entry_at pool')) split
      ∙ map-append (entry_at pool') xs (slot ∷ ys)
      ∙ ap₂ (λ fs bs. fs ++ bs)
          (map-kept b.pool pool' xs (λ j h.
            entry_other j (λ e. cc (sym h ∙ ap (λ k. has k xs) (sym e) ∙ apart.not_in_front))))
          (ap₂ (λ a bs. a ∷ bs) entry_here
            (map-kept b.pool pool' ys (λ j h.
              entry_other j (λ e. cc (sym h ∙ ap (λ k. has k ys) (sym e) ∙ apart.not_in_back)))))

  among : has slot (queues side i) ≡ true
  among = ap (λ ss. has slot ss) split ∙ ground (arith, has-append slot xs (slot ∷ ys))

  pool_after : (shrink b slot taken).pool ≡ pool'
  pool_after = (with_levels-IsWritten b pool' side (set (levels_for b side) i level)).pool_same

  pub shrink-Shows :
      Shows (shrink b slot taken) queues free (with_entries view side i entries_after)
  shrink-Shows = record {
    sound = shrink-IsSound;
    seen = λ side' i'. rw pool_after (seen_at side' i');
  }
    where
      seen_at :
          (side' : Side) (i' : ℕ)
          → map (entry_at pool') (queues side' i') ≡ with_entries view side i entries_after side' i'
      seen_at side' i' = elim (Bool-cases (same_side side side' && (i == i'))) [
        | inl same ↦
            let place = same_place side side' i i' same in
            rw same (ap (map (entry_at pool')) (sym (ap₂ queues place.0 place.1)) ∙ seen_here)
        | inr apart ↦ rw apart (
            map-kept b.pool pool' (queues side' i') (λ j h. entry_other j (λ e.
              elsewhere b.pool (levels_for b) (band_of b) queues stored.resting side side' i i' slot
                apart (ap (λ k. has k (queues side' i')) e ∙ h) among))
            ∙ shows.seen side' i')
      ]

module _ (b : OrderBook) (queues : Queues) (free : List ℕ) (view : View)
    (shows : Shows b queues free view) (xs : List ℕ) (slot : ℕ) (ys : List ℕ)
    (split : queues (side_of b slot) (level_of b slot) ≡ xs ++ slot ∷ ys) (order_id position : ℕ)
    (found : find_index b.index_mask b.index order_id ≡ position)
    (some_position : position ≢ no_level) (at : slot_at b position ≡ slot) where
  -- `execute` of less than the whole of an order that the index finds takes the quantity off that order and
  -- leaves it in its place: the book stays sound, with the same queues and free slots.
  pub execute_part-Shows :
      (quantity : ℕ)
      → 0 < quantity
      → quantity < (order_at b.pool slot).quantity
      → ((execute b order_id quantity).1 ≡ ok)
        × Shows (execute b order_id quantity).0 queues free (
            with_entries view (side_of b slot) (level_of b slot) (
              map (entry_at b.pool) xs
              ++ record {
                id = (order_at b.pool slot).id;
                quantity = (order_at b.pool slot).quantity - quantity;
              }
                ∷ map (entry_at b.pool) ys))
  unfolding execute
  execute_part-Shows quantity some_quantity part =
      let more : (quantity == 0) ≡ false = ground arith in
      let hit : (position == no_level) ≡ false = ground arith in
      let rest : leb (order_at b.pool slot).quantity quantity ≡ false = ground arith in
      rw (more, found, hit, at, rest)
        (refl, shrink-Shows b queues free view shows xs slot ys split quantity (omega arith))

  -- `modify` of an order that the index finds to a smaller size at the same price gives the order that
  -- size and leaves it in its place: the book stays sound, with the same queues and free slots.
  pub modify_shrinks-Shows :
      (new_price : ℤ) (new_quantity : ℕ)
      → in_band b new_price ≡ true
      → 0 < new_quantity
      → same_price new_price (order_at b.pool slot).price ≡ true
      → new_quantity < (order_at b.pool slot).quantity
      → ((modify b order_id new_price new_quantity).1 ≡ ok)
        × Shows (modify b order_id new_price new_quantity).0 queues free (
            with_entries view (side_of b slot) (level_of b slot) (
              map (entry_at b.pool) xs
              ++ record { id = (order_at b.pool slot).id; quantity = new_quantity }
                ∷ map (entry_at b.pool) ys))
  unfolding modify
  modify_shrinks-Shows new_price new_quantity inside some_quantity same smaller =
      let more : (new_quantity == 0) ≡ false = ground arith in
      let hit : (position == no_level) ≡ false = ground arith in
      let less : ltb new_quantity (order_at b.pool slot).quantity ≡ true = ground arith in
      let left : (order_at b.pool slot).quantity - ((order_at b.pool slot).quantity - new_quantity)
          ≡ new_quantity =
        omega arith in
      rw (more, inside, found, hit, at, same, less)
        (
          refl,
          subst
              (λ q.
                Shows (shrink b slot ((order_at b.pool slot).quantity - new_quantity)) queues free (
                  with_entries view (side_of b slot) (level_of b slot) (
                    map (entry_at b.pool) xs
                    ++ record { id = (order_at b.pool slot).id; quantity = q }
                      ∷ map (entry_at b.pool) ys)))
              left
              (shrink-Shows b queues free view shows xs slot ys split
                ((order_at b.pool slot).quantity - new_quantity) (omega arith)),
        )
