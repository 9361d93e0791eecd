-- ===== src/Book/Whole/View/New.antt =====
-- The constructor and `clear` of orderbook/order_book.cpp, on the orders that a book shows.
use c_low_latency_trading_sy.Prelude.{
  ℕ, zero, suc, ◌+◌, ◌-◌, ◌*◌, ◌≤◌, ◌<◌, ◌≡◌, refl, sym, ap, subst, ◌∙◌, arith, true, false, List,
  [], ◌∷◌, ltb→ge, ◌==◌, if◌then◌else◌, length, length-replicate, dec_lt, replicate, inl, inr,
  ℕ_discrete, get_or-replicate, get_or-past, Bool-cases,
}
use c_low_latency_trading_sy.Prelude.Int.{ℤ, pos_part, neg_part, ◌-ℤ◌, ltb_ℤ}
use c_low_latency_trading_sy.Message.{Side}
use c_low_latency_trading_sy.Book.Types.{
  Config, OrderBook, Order, null_order, no_level, empty_level, empty_slot, blank_order, in_band,
  level_index,
}
use c_low_latency_trading_sy.Book.Levels.{order_at, level_at, levels_for}
use c_low_latency_trading_sy.Book.Orders.{chain_free, clear, make_book, round_up_pow2}
use c_low_latency_trading_sy.Book.Best.{IsBest}
use c_low_latency_trading_sy.Book.Queue.{has, IsDistinct}
use c_low_latency_trading_sy.Book.Sound.{Queues, IsLevel, IsResting}
use c_low_latency_trading_sy.Book.Sound.Frame.{IsFree, Chain}
use c_low_latency_trading_sy.Book.Whole.{band_of}
use c_low_latency_trading_sy.Book.Whole.View.{View, Shows}

-- `n` numbers from `i` on.
abbrev pub count_up : ℕ → ℕ → List ℕ
count_up i zero = []
count_up i (suc n) = i ∷ count_up (i + 1) n

abbrev pub no_queues : Queues
no_queues side i = []

abbrev pub no_entries : View
no_entries side i = []

count_up-has : (i n j : ℕ) → has j (count_up i n) ≡ true → (i ≤ j) × (j < i + n)
count_up-has i zero j h = absurd (ground arith)
count_up-has i (suc n) j h = elim (ℕ_discrete j i) [
  | yes e ↦ (omega arith, omega arith)
  | no ne ↦
      let later = count_up-has (i + 1) n j (ground arith) in
      (omega (arith, later.0), omega (arith, later.1))
]

count_up-IsDistinct : (i n : ℕ) → IsDistinct (count_up i n)
count_up-IsDistinct i zero = ground arith
count_up-IsDistinct i (suc n) = (
  elim (Bool-cases (has i (count_up (i + 1) n))) [
    | inl there ↦ absurd (omega (arith, (count_up-has (i + 1) n i there).0))
    | inr gone ↦ gone
  ],
  count_up-IsDistinct (i + 1) n,
)

length-chain_free : (i : ℕ) (pool : List Order) → length (chain_free i pool) ≡ length pool
length-chain_free i [] = refl
length-chain_free i (o ∷ []) = refl
length-chain_free i (o ∷ p ∷ pool) = ap suc (length-chain_free (i + 1) (p ∷ pool))

-- Every slot leads to the next, the last to the end.
chain_free-next :
    (i : ℕ) (pool : List Order) (j : ℕ)
    → j < length pool
    → (order_at (chain_free i pool) j).next
      ≡ (if j + 1 == length pool then null_order else i + j + 1)
chain_free-next i [] j h = absurd (omega arith)
chain_free-next i (o ∷ []) zero h = refl
chain_free-next i (o ∷ []) (suc j) h = absurd (omega arith)
chain_free-next i (o ∷ p ∷ pool) zero h = ground arith
chain_free-next i (o ∷ p ∷ pool) (suc j) h =
    chain_free-next (i + 1) (p ∷ pool) j (omega arith) ∙ ground arith

chain_free-Chain :
    (pool : List Order) (i n : ℕ)
    → i + n ≡ length pool
    → Chain (order_at (chain_free 0 pool)) (if n == 0 then null_order else i) (count_up i n)
chain_free-Chain pool i zero e = refl
chain_free-Chain pool i (suc n) e = (
  ground arith,
  subst (λ h. Chain (order_at (chain_free 0 pool)) h (count_up (i + 1) n))
      (sym (chain_free-next 0 pool i (omega arith) ∙ ground (arith, e)))
      (chain_free-Chain pool (i + 1) n (omega arith)),
)

bare : (n i : ℕ) → level_at (replicate n empty_level) i ≡ empty_level
bare n i = elim (dec_lt i n) [
  | yes lt ↦ get_or-replicate n i empty_level empty_level lt
  | no ge ↦
      get_or-past (replicate n empty_level) i empty_level
        (omega (arith, length-replicate n empty_level))
]

module _ (b : OrderBook) (few : length b.pool ≤ null_order)
    (few_bids : length b.bid_levels < no_level) (few_asks : length b.ask_levels < no_level)
    (covers : (side : Side) (price : ℤ)
      → in_band b price ≡ true
      → level_index b price < length (levels_for b side)) where
  clear-IsResting : IsResting (clear b).pool (levels_for (clear b)) (band_of (clear b)) no_queues
  unfolding clear
  clear-IsResting = record {
    few = omega (arith, few, length-chain_free 0 b.pool);
    level = level;
    home = λ side i j h. absurd (ground arith);
    distinct = λ side i. ground arith;
  }
    where
      level :
          (side : Side) (i : ℕ)
          → i < length (levels_for (clear b) side)
          → IsLevel (clear b).pool (level_at (levels_for (clear b) side) i) []
      level Side.buy i h =
          rw (bare (length b.bid_levels) i)
            (record { queue = (refl, refl); count = refl; total = refl })
      level Side.sell i h =
          rw (bare (length b.ask_levels) i)
            (record { queue = (refl, refl); count = refl; total = refl })

  clear-IsFree : IsFree (clear b).pool (clear b).free_head no_queues (count_up 0 (length b.pool))
  unfolding clear
  clear-IsFree = record {
    chain =
        subst (λ h. Chain (order_at (chain_free 0 b.pool)) h (count_up 0 (length b.pool)))
          (ground arith) (chain_free-Chain b.pool 0 (length b.pool) (omega arith));
    inside =
        λ j h. omega (arith, (count_up-has 0 (length b.pool) j h).1, length-chain_free 0 b.pool);
    distinct = count_up-IsDistinct 0 (length b.pool);
    loose = λ j h side i. refl;
  }

  clear-IsBest : IsBest (clear b)
  unfolding clear
  clear-IsBest = record {
    few_bids = omega (arith, length-replicate (length b.bid_levels) empty_level);
    few_asks = omega (arith, length-replicate (length b.ask_levels) empty_level);
    bid = inl (refl, λ j. ap (λ l. l.order_count) (bare (length b.bid_levels) j));
    ask = inl (refl, λ j. ap (λ l. l.order_count) (bare (length b.ask_levels) j));
  }

  clear-covers :
      (side : Side) (price : ℤ)
      → in_band (clear b) price ≡ true
      → level_index (clear b) price < length (levels_for (clear b) side)
  unfolding clear in_band level_index
  clear-covers Side.buy price h =
      omega (arith, covers Side.buy price h, length-replicate (length b.bid_levels) empty_level)
  clear-covers Side.sell price h =
      omega (arith, covers Side.sell price h, length-replicate (length b.ask_levels) empty_level)

  pub clear-Shows : Shows (clear b) no_queues (count_up 0 (length b.pool)) no_entries
  clear-Shows = record {
    sound = record {
      stored = record { resting = clear-IsResting; frees = clear-IsFree; covers = clear-covers };
      best = clear-IsBest;
    };
    seen = λ side i. refl;
  }

pos_part_difference :
    (a b : ℤ) → pos_part (a -ℤ b) ≡ pos_part a + neg_part b - (neg_part a + pos_part b)
unfolding ◌-ℤ◌
pos_part_difference a b = ground arith

index_inside :
    (b : OrderBook) (price : ℤ)
    → in_band b price ≡ true
    → level_index b price < pos_part (b.max_price -ℤ b.min_price) + 1
unfolding in_band level_index
index_inside b price h =
    let low : ltb_ℤ price b.min_price ≡ false = ground arith in
    let high : ltb_ℤ b.max_price price ≡ false = ground arith in
    let below =
      ltb→ge (pos_part price + neg_part b.min_price) (pos_part b.min_price + neg_part price) low in
    let above =
      ltb→ge (pos_part b.max_price + neg_part price) (pos_part price + neg_part b.max_price) high in
    omega (
      arith,
      below,
      above,
      pos_part_difference price b.min_price,
      pos_part_difference b.max_price b.min_price,
    )

covers :
    (b : OrderBook)
    → length b.bid_levels ≡ pos_part (b.max_price -ℤ b.min_price) + 1
    → length b.ask_levels ≡ pos_part (b.max_price -ℤ b.min_price) + 1
    → (side : Side) (price : ℤ) → in_band b price ≡ true
    → level_index b price < length (levels_for b side)
covers b bids asks Side.buy price h = omega (arith, bids, index_inside b price h)
covers b bids asks Side.sell price h = omega (arith, asks, index_inside b price h)

-- `make_book`, for fewer than 2^32 orders and fewer than 2^64 - 1 prices, gives a sound book that shows no
-- order, and whose free list is every slot of the pool, in order.
pub make_book-Shows :
    (c : Config)
    → c.max_orders ≤ null_order
    → pos_part (c.max_price -ℤ c.min_price) + 1 < no_level
    → Shows (make_book c) no_queues (count_up 0 c.max_orders) no_entries
unfolding make_book
make_book-Shows c few few_levels =
    let n : ℕ = pos_part (c.max_price -ℤ c.min_price) + 1 in
    let size : ℕ = round_up_pow2 (c.max_orders * 2) in
    let b : OrderBook = record {
      min_price = c.min_price;
      max_price = c.max_price;
      bid_levels = replicate n empty_level;
      ask_levels = replicate n empty_level;
      pool = replicate c.max_orders blank_order;
      index = replicate size empty_slot;
      index_mask = size - 1;
      free_head = null_order;
      live_orders = 0;
      best_bid_level = no_level;
      best_ask_level = no_level;
    } in
    let slots : length b.pool ≡ c.max_orders = length-replicate c.max_orders blank_order in
    let rows : length b.bid_levels ≡ n = length-replicate n empty_level in
    subst (λ k. Shows (clear b) no_queues (count_up 0 k) no_entries) slots
      (clear-Shows b (omega (arith, slots)) (omega (arith, rows)) (omega (arith, rows))
        (covers b rows rows))
