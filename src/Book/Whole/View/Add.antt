-- ===== src/Book/Whole/View/Add.antt =====
-- `add` of orderbook/order_book.cpp, on the orders that a book shows.
use mathlib.Core.List.{map-append}
use c_low_latency_trading_sy.Prelude.{
  ℕ, ◌^◌, ◌<◌, ◌≡◌, ◌≢◌, refl, sym, ap, ap₂, subst, ◌∙◌, arith, true, false, List, [], ◌∷◌, ◌++◌,
  add64, length, set, length-set,
}
use c_low_latency_trading_sy.Prelude.Int.{ℤ}
use c_low_latency_trading_sy.Message.{Side}
use c_low_latency_trading_sy.Book.Types.{OrderBook, Order, ok, null_order, in_band, level_index}
use c_low_latency_trading_sy.Book.Table.{index_insert}
use c_low_latency_trading_sy.Book.Levels.{
  order_at, levels_for, link_back, note_level_filled, acquire_slot,
}
use c_low_latency_trading_sy.Book.Orders.{add, place}
use c_low_latency_trading_sy.Book.Queue.{has}
use c_low_latency_trading_sy.Book.Queue.Link.{order_at-set}
use c_low_latency_trading_sy.Book.Sound.{Queues, IsHome, IsLoose, with_queue}
use c_low_latency_trading_sy.Book.Sound.Frame.{IsFree}
use c_low_latency_trading_sy.Book.Sound.Link.{linked-IsKept}
use c_low_latency_trading_sy.Book.Whole.{IsSound, band_of}
use c_low_latency_trading_sy.Book.Whole.Calls.{
  acquire-IsSound, write-IsSound, link-IsSound, reindex-IsSound,
}
use c_low_latency_trading_sy.Book.Whole.View.{
  entry_at, View, with_entries, Shows, seen_after, map-kept, pool-link,
}

-- A loose slot of a sound book is written and linked.
module _ (b : OrderBook) (queues : Queues) (free : List ℕ) (view : View)
    (shows : Shows b queues free view) (slot : ℕ) (o : Order) (real : slot < length b.pool)
    (loose : IsLoose queues slot) (taken : has slot free ≡ false)
    (inside : in_band b o.price ≡ true) (small : o.quantity < 2 ^ 32) where
  abbrev i : ℕ
  i = level_index b o.price

  abbrev written : OrderBook
  written = record b { pool = set b.pool slot o }

  abbrev pub rested : OrderBook
  rested = note_level_filled (link_back written i o.side slot) o.side i

  at_slot : order_at (set b.pool slot o) slot ≡ o
  at_slot = order_at-set b.pool slot slot o real ∙ ground arith

  written-IsSound : IsSound written queues free
  written-IsSound = write-IsSound b queues free shows.sound slot o real loose taken

  written-IsHome : IsHome written.pool (band_of written) o.side i slot
  unfolding level_index in_band
  written-IsHome = (
    omega (arith, real, length-set b.pool slot o),
    ap (λ x. x.side) at_slot,
    ap (λ x. level_index b x.price) at_slot,
    ap (λ x. in_band b x.price) at_slot ∙ inside,
    omega (arith, ap (λ x. x.quantity) at_slot),
  )

  written-exists : i < length (levels_for written o.side)
  unfolding level_index in_band
  written-exists = written-IsSound.stored.covers o.side o.price inside

  entry_kept : (j : ℕ) → j ≢ null_order → entry_at rested.pool j ≡ entry_at written.pool j
  entry_kept j ne =
      let kept =
        linked-IsKept written.pool (levels_for written) (band_of written) queues
          written-IsSound.stored.resting o.side i slot loose written-IsHome written-exists j ne in
      rw (pool-link written o.side i slot)
        (ap₂ (λ x q. record { id = x; quantity = q }) kept.id kept.quantity)

  entry_old :
      (side : Side) (k j : ℕ)
      → has j (queues side k) ≡ true
      → entry_at rested.pool j ≡ entry_at b.pool j
  entry_old side k j h =
      let ne : slot ≢ j =
        λ e. cc (sym h ∙ ap (λ t. has t (queues side k)) (sym e) ∙ loose side k) in
      let in_pool = (shows.sound.stored.resting.home side k j h).0 in
      let same : order_at (set b.pool slot o) j ≡ order_at b.pool j =
        order_at-set b.pool slot j o real ∙ ground arith in
      entry_kept j (omega (arith, in_pool, shows.sound.stored.resting.few))
      ∙ ap (λ x. record { id = x.id; quantity = x.quantity }) same

  entry_new : entry_at rested.pool slot ≡ record { id = o.id; quantity = o.quantity }
  entry_new =
      entry_kept slot (omega (arith, real, shows.sound.stored.resting.few))
      ∙ ap (λ x. record { id = x.id; quantity = x.quantity }) at_slot

  pub rest-Shows : Shows rested (with_queue queues o.side i (queues o.side i ++ slot ∷ [])) free (
      with_entries view o.side i
        (view o.side i ++ record { id = o.id; quantity = o.quantity } ∷ []))
  rest-Shows = record {
    sound =
        link-IsSound written queues free written-IsSound o.side i slot loose taken written-IsHome
          written-exists;
    seen =
        seen_after b rested queues free view shows o.side i (queues o.side i ++ slot ∷ [])
          (view o.side i ++ record { id = o.id; quantity = o.quantity } ∷ [])
          (map-append (entry_at rested.pool) (queues o.side i) (slot ∷ [])
            ∙ ap₂ (λ xs x. xs ++ x ∷ [])
                (map-kept b.pool rested.pool (queues o.side i) (λ j h. entry_old o.side i j h)
                  ∙ shows.seen o.side i)
                entry_new)
          (λ side' i' apart j h. entry_old side' i' j h);
  }

-- What `add` does, where it takes the order.
pub add_taken :
    (b : OrderBook) (order_id : ℕ) (side : Side) (price : ℤ) (quantity : ℕ)
    → (add b order_id side price quantity).1 ≡ ok
    → (in_band b price ≡ true)
      × (b.free_head ≢ null_order)
      × ((add b order_id side price quantity).0
          ≡ place
              (record b { free_head = (order_at b.pool b.free_head).next })
              b.free_head
              order_id
              side
              price
              quantity)
unfolding add acquire_slot
add_taken b order_id side price quantity done = (ground arith, ground arith, ground arith)

-- Where `add` takes an order, a slot leaves the free list for the back of the queue of its level: the
-- book stays sound, and shows the order there, last, and all others as before.
pub add-Shows :
    (b : OrderBook) (queues : Queues) (slot : ℕ) (free : List ℕ) (view : View) (order_id : ℕ)
    (side : Side) (price : ℤ) (quantity : ℕ)
    → Shows b queues (slot ∷ free) view
    → quantity < 2 ^ 32
    → (add b order_id side price quantity).1 ≡ ok
    → let i = level_index b price in
      Shows
        (add b order_id side price quantity).0
        (with_queue queues side i (queues side i ++ slot ∷ []))
        free
        (with_entries view side i
          (view side i ++ record { id = order_id; quantity = quantity } ∷ []))
unfolding level_index in_band
add-Shows b queues slot free view order_id side price quantity shows small done =
    let taken = add_taken b order_id side price quantity done in
    let frees : IsFree b.pool b.free_head queues (slot ∷ free) = shows.sound.stored.frees in
    let b1 : OrderBook = record b { free_head = (order_at b.pool b.free_head).next } in
    let shows1 : Shows b1 queues free view = record {
      sound = acquire-IsSound b queues (slot ∷ free) shows.sound slot free refl;
      seen = shows.seen;
    } in
    let i : ℕ = level_index b price in
    let o : Order = record (order_at b.pool slot) {
      id = order_id;
      price = price;
      quantity = quantity;
      side = side;
    } in
    let rest =
      rest-Shows b1 queues free view shows1 slot o (frees.inside slot (ground arith))
        (frees.loose slot (ground arith)) frees.distinct.0 taken.0 small in
    let linked : OrderBook =
      note_level_filled (link_back (record b1 { pool = set b.pool slot o }) i side slot) side i in
    let queues' : Queues = with_queue queues side i (queues side i ++ slot ∷ []) in
    let view' : View =
      with_entries view side i
        (view side i ++ record { id = order_id; quantity = quantity } ∷ []) in
    let placed : Shows (place b1 slot order_id side price quantity) queues' free view' = record {
      sound =
          reindex-IsSound linked queues' free rest.sound
            (index_insert linked.index_mask linked.index order_id slot)
            (add64 linked.live_orders 1);
      seen = rest.seen;
    } in
    subst (λ c. Shows c queues' free view') (sym taken.2)
      (subst (λ h. Shows (place b1 h order_id side price quantity) queues' free view')
        (sym frees.chain.0) placed)
