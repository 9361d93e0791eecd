-- ===== src/Book/Whole/View/Remove.antt =====
-- `cancel`, and `execute` of a whole order, of orderbook/order_book.cpp, on the orders that a book shows.
use mathlib.Core.List.{map-append}
use c_low_latency_trading_sy.Prelude.{
  ℕ, ◌≤◌, ◌<◌, ◌≡◌, ◌≢◌, refl, sym, ap, ap₂, subst, ◌∙◌, arith, true, false, List, ◌∷◌, ◌++◌, map,
  sub64, leb, ◌==◌, length, Bool-cases, inl, inr,
}
use c_low_latency_trading_sy.Message.{Side}
use c_low_latency_trading_sy.Book.Types.{OrderBook, ok, null_order, no_level, level_index}
use c_low_latency_trading_sy.Book.Table.{find_index, index_erase}
use c_low_latency_trading_sy.Book.Levels.{order_at, levels_for, unlink, release_slot}
use c_low_latency_trading_sy.Book.Orders.{slot_at, remove_at, cancel, execute}
use c_low_latency_trading_sy.Book.Queue.{has, has-append}
use c_low_latency_trading_sy.Book.Queue.Link.{order_at-set_next}
use c_low_latency_trading_sy.Book.Queue.Unlink.{length-unlinked_pool}
use c_low_latency_trading_sy.Book.Sound.{Queues, IsHome, IsLoose, with_queue}
use c_low_latency_trading_sy.Book.Sound.Unlink.{unlinked-IsKept, unlinked-IsLoose}
use c_low_latency_trading_sy.Book.Whole.{IsSound, band_of}
use c_low_latency_trading_sy.Book.Whole.Calls.{
  unlink-IsSound, release_slot-IsSound, reindex-IsSound,
}
use c_low_latency_trading_sy.Book.Whole.View.{
  entry_at, View, with_entries, Shows, seen_after, map-kept, pool-unlink,
}

-- The place at which an order of the pool says it rests.
abbrev pub side_of : OrderBook → ℕ → Side
side_of b slot = (order_at b.pool slot).side

abbrev pub level_of : OrderBook → ℕ → ℕ
level_of b slot = level_index b (order_at b.pool slot).price

module _ (b : OrderBook) (queues : Queues) (free : List ℕ) (view : View)
    (shows : Shows b queues free view) (xs : List ℕ) (slot : ℕ) (ys : List ℕ)
    (split : queues (side_of b slot) (level_of b slot) ≡ xs ++ slot ∷ ys) where
  abbrev side : Side
  side = side_of b slot

  abbrev i : ℕ
  i = level_of b slot

  among : has slot (queues side i) ≡ true
  among = ap (λ ss. has slot ss) split ∙ ground (arith, has-append slot xs (slot ∷ ys))

  pub resting-IsHome : IsHome b.pool (band_of b) side i slot
  resting-IsHome = shows.sound.stored.resting.home side i slot among

  pub resting_exists : i < length (levels_for b side)
  resting_exists = shows.sound.stored.covers side (order_at b.pool slot).price resting-IsHome.3

  pub not_free : has slot free ≡ false
  not_free = elim (Bool-cases (has slot free)) [
    | inl there ↦ cc (sym among ∙ shows.sound.stored.frees.loose slot there side i)
    | inr gone ↦ gone
  ]

  abbrev pub out : OrderBook
  out = unlink b i side slot

  abbrev pub queues_without : Queues
  queues_without = with_queue queues side i (xs ++ ys)

  pub entry-unlink : (j : ℕ) → j ≢ null_order → entry_at out.pool j ≡ entry_at b.pool j
  entry-unlink j ne =
      let kept =
        unlinked-IsKept b.pool (levels_for b) (band_of b) queues shows.sound.stored.resting side i
          xs slot ys split resting_exists j ne in
      rw (pool-unlink b side i slot).0
        (ap₂ (λ x q. record { id = x; quantity = q }) kept.id kept.quantity)

  pub unlink-Shows :
      Shows out queues_without free
        (with_entries view side i (map (entry_at b.pool) xs ++ map (entry_at b.pool) ys))
  unlink-Shows = record {
    sound = unlink-IsSound b queues free shows.sound side i xs slot ys split resting_exists;
    seen =
        seen_after b out queues free view shows side i (xs ++ ys)
          (map (entry_at b.pool) xs ++ map (entry_at b.pool) ys)
          (map-kept b.pool out.pool (xs ++ ys) (λ j h. entry-unlink j (real j (still j h)))
            ∙ map-append (entry_at b.pool) xs ys)
          (λ side' i' apart j h. entry-unlink j (
            omega (
              arith,
              (shows.sound.stored.resting.home side' i' j h).0,
              shows.sound.stored.resting.few,
            )));
  }
    where
      still : (j : ℕ) → has j (xs ++ ys) ≡ true → has j (queues side i) ≡ true
      still j h =
          ap (λ ss. has j ss) split
          ∙ ground (arith, has-append j xs ys, has-append j xs (slot ∷ ys))

      real : (j : ℕ) → has j (queues side i) ≡ true → j ≢ null_order
      real j h =
          omega
            (arith, (shows.sound.stored.resting.home side i j h).0, shows.sound.stored.resting.few)

  pub slot-IsLoose : IsLoose queues_without slot
  slot-IsLoose =
      unlinked-IsLoose b.pool (levels_for b) (band_of b) queues shows.sound.stored.resting side i xs
        slot ys split resting_exists

  pub length-unlink : length out.pool ≡ length b.pool
  length-unlink = ap length (pool-unlink b side i slot).0 ∙ length-unlinked_pool b.pool slot

  -- The slot goes back to the free list, and the orders of its level follow one another as before.
  pub remove_at-Shows :
      (position : ℕ)
      → slot_at b position ≡ slot
      → Shows
          (remove_at b position)
          queues_without
          (slot ∷ free)
          (with_entries view side i (map (entry_at b.pool) xs ++ map (entry_at b.pool) ys))
  unfolding release_slot
  remove_at-Shows position at =
      let view' : View =
        with_entries view side i (map (entry_at b.pool) xs ++ map (entry_at b.pool) ys) in
      let reindexed : OrderBook = record out {
        index = index_erase out.index_mask out.index position;
      } in
      let released : OrderBook = release_slot reindexed slot in
      let unlinked = unlink-Shows in
      let one : IsSound reindexed queues_without free =
        reindex-IsSound out queues_without free unlinked.sound
          (index_erase out.index_mask out.index position) out.live_orders in
      let two : IsSound released queues_without (slot ∷ free) =
        release_slot-IsSound reindexed queues_without free one slot
          (omega (arith, length-unlink, resting-IsHome.0)) slot-IsLoose not_free in
      let entries : (j : ℕ) → entry_at released.pool j ≡ entry_at out.pool j = λ j.
        (let e =
            order_at-set_next out.pool slot j out.free_head
              (omega (arith, length-unlink, resting-IsHome.0)) in
          ap₂ (λ x q. record { id = x; quantity = q }) (ap (λ o. o.id) e ∙ ground arith)
            (ap (λ o. o.quantity) e ∙ ground arith)) in
      subst
        (λ s.
          Shows
            (let o = unlink b (level_of b s) (side_of b s) s in
              let r =
                release_slot (record o { index = index_erase o.index_mask o.index position }) s in
              record r { live_orders = sub64 r.live_orders 1 })
            queues_without (slot ∷ free) view')
        (sym at)
        (record {
          sound =
              reindex-IsSound released queues_without (slot ∷ free) two released.index
                (sub64 released.live_orders 1);
          seen = λ side' i'.
              map-kept out.pool released.pool (queues_without side' i') (λ j h. entries j)
              ∙ unlinked.seen side' i';
        })

  -- The index gives the slot of an order that rests, at a position of its own.
  module _ (order_id position : ℕ) (found : find_index b.index_mask b.index order_id ≡ position)
      (some_position : position ≢ no_level) (at : slot_at b position ≡ slot) where
    -- `cancel` of an order that the index finds takes it out of its level, and its slot goes back to the
    -- free list: the book stays sound, and shows all other orders, in the same order.
    pub cancel-Shows :
        ((cancel b order_id).1 ≡ ok)
        × Shows
            (cancel b order_id).0
            queues_without
            (slot ∷ free)
            (with_entries view side i (map (entry_at b.pool) xs ++ map (entry_at b.pool) ys))
    unfolding cancel
    cancel-Shows =
        let hit : (position == no_level) ≡ false = ground arith in
        rw (found, hit) (refl, remove_at-Shows position at)

    -- `execute` of at least the whole of an order that the index finds takes it out of its level, and its slot
    -- goes back to the free list: the book stays sound, and shows all other orders, in the same order.
    pub execute_all-Shows :
        (quantity : ℕ)
        → 0 < quantity
        → (order_at b.pool slot).quantity ≤ quantity
        → ((execute b order_id quantity).1 ≡ ok)
          × Shows
              (execute b order_id quantity).0
              queues_without
              (slot ∷ free)
              (with_entries view side i (map (entry_at b.pool) xs ++ map (entry_at b.pool) ys))
    unfolding execute
    execute_all-Shows quantity some_quantity all =
        let hit : (position == no_level) ≡ false = ground arith in
        let more : (quantity == 0) ≡ false = ground arith in
        let whole : leb (order_at b.pool (slot_at b position)).quantity quantity ≡ true =
          rw at (ground arith) in
        rw (more, found, hit, whole) (refl, remove_at-Shows position at)
