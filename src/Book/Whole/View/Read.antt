-- ===== src/Book/Whole/View/Read.antt =====
-- The observers of include/llte/order_book.hpp, on the orders that a book shows.
use c_low_latency_trading_sy.Prelude.{
  ℕ, suc, ◌+◌, ◌%◌, ◌<◌, ◌≡◌, ◌≢◌, refl, sym, ap, ◌∙◌, arith, word64, true, false, List, [], ◌∷◌,
  map, ◌==◌, length, get_or-past, ◌⊎◌, inl, inr, dec_lt,
}
use c_low_latency_trading_sy.Prelude.Int.{ℤ}
use c_low_latency_trading_sy.Message.{Side}
use c_low_latency_trading_sy.Book.Types.{
  OrderBook, Order, no_level, no_price, empty_level, in_band, level_index, level_price,
}
use c_low_latency_trading_sy.Book.Levels.{order_at, levels_for}
use c_low_latency_trading_sy.Book.Orders.{quantity_at, order_count_at, best_bid, best_ask}
use c_low_latency_trading_sy.Book.Best.{IsBestBid, IsBestAsk, count_at}
use c_low_latency_trading_sy.Book.Queue.{has}
use c_low_latency_trading_sy.Book.Sound.{Queues, total_of}
use c_low_latency_trading_sy.Book.Whole.View.{Entry, entry_at, View, Shows}

abbrev pub quantity_of : List Entry → ℕ
quantity_of [] = 0
quantity_of (e ∷ es) = e.quantity + quantity_of es

quantity_of-entries :
    (pool : List Order) (ss : List ℕ) → total_of pool ss ≡ quantity_of (map (entry_at pool) ss)
quantity_of-entries pool [] = refl
quantity_of-entries pool (s ∷ ss) = omega (arith, quantity_of-entries pool ss)

length-entries : (pool : List Order) (ss : List ℕ) → length (map (entry_at pool) ss) ≡ length ss
length-entries pool [] = refl
length-entries pool (s ∷ ss) = ap suc (length-entries pool ss)

no_entry : (es : List Entry) → length es ≡ 0 → es ≡ []
no_entry [] e = refl
no_entry (x ∷ es) e = absurd (omega arith)

some_entry : (es : List Entry) → 0 < length es → es ≢ []
some_entry es h e = omega (arith, ap length e)

module _ (b : OrderBook) (queues : Queues) (free : List ℕ) (view : View)
    (shows : Shows b queues free view) where
  -- The count of a level is the number of the orders that rest there, which is none past the last level.
  count_shown : (side : Side) (i : ℕ) → count_at (levels_for b side) i ≡ length (view side i)
  count_shown side i = elim (dec_lt i (length (levels_for b side))) [
    | yes lt ↦
        (shows.sound.stored.resting.level side i lt).count
        ∙ sym (length-entries b.pool (queues side i))
        ∙ ap length (shows.seen side i)
    | no ge ↦
        ap (λ l. l.order_count) (get_or-past (levels_for b side) i empty_level (omega arith))
        ∙ sym (outside (queues side i) refl ge)
        ∙ sym (length-entries b.pool (queues side i))
        ∙ ap length (shows.seen side i)
  ]
    where
      outside :
          (ss : List ℕ)
          → queues side i ≡ ss
          → ¬ (i < length (levels_for b side))
          → length (queues side i) ≡ 0
      outside [] e ge = ap length e
      outside (s ∷ ss) e ge =
          let home = shows.sound.stored.resting.home side i s (ap (has s) e ∙ ground arith) in
          absurd
            (omega (arith, shows.sound.stored.covers side (order_at b.pool s).price home.3, home.2))

  -- At every price of the band, `quantity_at` is the sum of the quantities of the orders shown there,
  -- modulo 2^64, and `order_count_at` is their number.
  pub level_shown :
      (side : Side) (price : ℤ)
      → in_band b price ≡ true
      → (quantity_at b side price ≡ quantity_of (view side (level_index b price)) % word64)
        × (order_count_at b side price ≡ length (view side (level_index b price)))
  unfolding quantity_at order_count_at
  level_shown side price inside =
      let i : ℕ = level_index b price in
      let total =
        (shows.sound.stored.resting.level side i
          (shows.sound.stored.covers side price inside)).total in
      rw (inside) (
        total
            ∙ ap (λ n. n % word64)
                (quantity_of-entries b.pool (queues side i) ∙ ap quantity_of (shows.seen side i)),
        count_shown side i,
      )

  -- `best_bid` is the price of the highest level at which a bid is shown, and `best_ask` of the lowest at
  -- which an ask is; each is `kNoPrice` where its side shows no order at all.
  pub best_shown :
      (((best_bid b ≡ no_price) × ((j : ℕ) → view Side.buy j ≡ []))
        ⊎ ((best_bid b ≡ level_price b b.best_bid_level)
            × (view Side.buy b.best_bid_level ≢ [])
            × ((j : ℕ) → b.best_bid_level < j → view Side.buy j ≡ [])))
      × (((best_ask b ≡ no_price) × ((j : ℕ) → view Side.sell j ≡ []))
          ⊎ ((best_ask b ≡ level_price b b.best_ask_level)
              × (view Side.sell b.best_ask_level ≢ [])
              × ((j : ℕ) → j < b.best_ask_level → view Side.sell j ≡ [])))
  unfolding best_bid best_ask
  best_shown = (bids shows.sound.best.bid, asks shows.sound.best.ask)
    where
      bids :
          IsBestBid b.bid_levels b.best_bid_level
          → ((best_bid b ≡ no_price) × ((j : ℕ) → view Side.buy j ≡ []))
            ⊎ ((best_bid b ≡ level_price b b.best_bid_level)
                × (view Side.buy b.best_bid_level ≢ [])
                × ((j : ℕ) → b.best_bid_level < j → view Side.buy j ≡ []))
      bids (inl (none, bare)) = inl (
        rw none refl,
        λ j. no_entry (view Side.buy j) (omega (arith, count_shown Side.buy j, bare j)),
      )
      bids (inr (lt, some, above)) =
          let other : (b.best_bid_level == no_level) ≡ false =
            ground (arith, shows.sound.best.few_bids) in
          inr (
            rw other refl,
            some_entry (view Side.buy b.best_bid_level)
                (omega (arith, count_shown Side.buy b.best_bid_level)),
            λ j h. no_entry (view Side.buy j) (omega (arith, count_shown Side.buy j, above j h)),
          )

      asks :
          IsBestAsk b.ask_levels b.best_ask_level
          → ((best_ask b ≡ no_price) × ((j : ℕ) → view Side.sell j ≡ []))
            ⊎ ((best_ask b ≡ level_price b b.best_ask_level)
                × (view Side.sell b.best_ask_level ≢ [])
                × ((j : ℕ) → j < b.best_ask_level → view Side.sell j ≡ []))
      asks (inl (none, bare)) = inl (
        rw none refl,
        λ j. no_entry (view Side.sell j) (omega (arith, count_shown Side.sell j, bare j)),
      )
      asks (inr (lt, some, below)) =
          let other : (b.best_ask_level == no_level) ≡ false =
            ground (arith, shows.sound.best.few_asks) in
          inr (
            rw other refl,
            some_entry (view Side.sell b.best_ask_level)
                (omega (arith, count_shown Side.sell b.best_ask_level)),
            λ j h. no_entry (view Side.sell j) (omega (arith, count_shown Side.sell j, below j h)),
          )
