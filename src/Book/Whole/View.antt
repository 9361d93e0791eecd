-- ===== src/Book/Whole/View.antt =====
-- The abstract book of orderbook/order_book.cpp: at each level a list of orders.
pub mod Add
pub mod Remove
pub mod Shrink
pub mod Requeue
pub mod New
pub mod Read
pub mod Round
use c_low_latency_trading_sy.Prelude.{
  ℕ, ◌<◌, ◌≡◌, ◌≢◌, refl, sym, ap, ap₂, subst, ◌∙◌, arith, Bool, true, false, ◌&&◌, List, [], ◌∷◌,
  ◌++◌, map, ◌==◌, if◌then◌else◌, length, set, Bool-cases, inl, inr,
}
use c_low_latency_trading_sy.Message.{Side}
use c_low_latency_trading_sy.Book.Types.{OrderBook, Order, null_order, in_band, level_index}
use c_low_latency_trading_sy.Book.Levels.{
  order_at, level_at, levels_for, link_back, linked_pool, unlink, unlinked_pool, note_level_filled,
  on_level_emptied, with_levels, unlinked_level,
}
use c_low_latency_trading_sy.Book.Queue.{has}
use c_low_latency_trading_sy.Book.Sound.{Queues, same_side, with_queue, IsKept}
use c_low_latency_trading_sy.Book.Whole.{
  IsSound, note_level_filled-IsRebest, on_level_emptied-IsRebest,
}

pub record Entry : Type 0 where
  pub id : ℕ
  pub quantity : ℕ

abbrev pub entry_at : List Order → ℕ → Entry
entry_at pool s = record { id = (order_at pool s).id; quantity = (order_at pool s).quantity }

-- By side and level.
abbrev pub View : Type 0
View = Side → ℕ → List Entry

abbrev pub with_entries : View → Side → ℕ → List Entry → View
with_entries view side i es side' i' =
    if same_side side side' && (i == i') then es else view side' i'

-- A sound book, whose queues hold the orders of the view.
pub record Shows (b : OrderBook) (queues : Queues) (free : List ℕ) (view : View) : Type 0 where
  pub sound : IsSound b queues free
  pub seen : (side : Side) (i : ℕ) → map (entry_at b.pool) (queues side i) ≡ view side i

pub map-kept :
    (pool pool' : List Order) (ss : List ℕ)
    → ((j : ℕ) → has j ss ≡ true → entry_at pool' j ≡ entry_at pool j)
    → map (entry_at pool') ss ≡ map (entry_at pool) ss
map-kept pool pool' [] kept = refl
map-kept pool pool' (s ∷ ss) kept =
    ap₂ (λ x xs. x ∷ xs) (kept s (ground arith))
      (map-kept pool pool' ss (λ j h. kept j (ground arith)))

-- One queue is replaced, and the orders of the others are as before.
pub seen_after :
    (b b' : OrderBook) (queues : Queues) (free : List ℕ) (view : View)
    → Shows b queues free view
    → (side : Side) (i : ℕ) (ss : List ℕ) (es : List Entry) → map (entry_at b'.pool) ss ≡ es
    → ((side' : Side) (i' : ℕ)
        → (same_side side side' && (i == i')) ≡ false
        → (j : ℕ) → has j (queues side' i') ≡ true
        → entry_at b'.pool j ≡ entry_at b.pool j)
    → (side' : Side) (i' : ℕ)
    → map (entry_at b'.pool) (with_queue queues side i ss side' i')
      ≡ with_entries view side i es side' i'
seen_after b b' queues free view shows side i ss es here kept side' i' =
    elim (Bool-cases (same_side side side' && (i == i'))) [
      | inl same ↦ rw same here
      | inr apart ↦
          rw apart
            (map-kept b.pool b'.pool (queues side' i') (kept side' i' apart) ∙ shows.seen side' i')
    ]

pub pool-link :
    (b : OrderBook) (side : Side) (i slot : ℕ)
    → (note_level_filled (link_back b i side slot) side i).pool
      ≡ linked_pool b.pool (level_at (levels_for b side) i) slot
unfolding link_back
pool-link b Side.buy i slot =
    ap (λ c. c.pool) (note_level_filled-IsRebest (link_back b i Side.buy slot) Side.buy i).same
pool-link b Side.sell i slot =
    ap (λ c. c.pool) (note_level_filled-IsRebest (link_back b i Side.sell slot) Side.sell i).same

pub pool-unlink :
    (b : OrderBook) (side : Side) (i slot : ℕ)
    → ((unlink b i side slot).pool ≡ unlinked_pool b.pool slot)
      × ((unlink b i side slot).min_price ≡ b.min_price)
      × ((unlink b i side slot).max_price ≡ b.max_price)
unfolding unlink
pool-unlink b Side.buy i slot =
    let level = unlinked_level (order_at b.pool slot) (level_at b.bid_levels i) in
    let out =
      with_levels (record b { pool = unlinked_pool b.pool slot }) Side.buy
        (set b.bid_levels i level) in
    let e = (on_level_emptied-IsRebest out Side.buy i).same in
    (
      ground (arith, ap (λ c. c.pool) e),
      ground (arith, ap (λ c. c.min_price) e),
      ground (arith, ap (λ c. c.max_price) e),
    )
pool-unlink b Side.sell i slot =
    let level = unlinked_level (order_at b.pool slot) (level_at b.ask_levels i) in
    let out =
      with_levels (record b { pool = unlinked_pool b.pool slot }) Side.sell
        (set b.ask_levels i level) in
    let e = (on_level_emptied-IsRebest out Side.sell i).same in
    (
      ground (arith, ap (λ c. c.pool) e),
      ground (arith, ap (λ c. c.min_price) e),
      ground (arith, ap (λ c. c.max_price) e),
    )
