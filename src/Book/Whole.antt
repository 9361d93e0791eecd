-- ===== src/Book/Whole.antt =====
-- The invariant of a whole book, but for its index table: sound levels, the free list, the best levels.
pub mod Moves
pub mod Calls
pub mod View
use c_low_latency_trading_sy.Prelude.{
  ℕ, ◌+◌, ◌-◌, ◌<◌, ◌≡◌, refl, subst, sym, ap, ap₂, ◌∙◌, true, List, length, ◌==◌, ◌||◌, ltb,
  if◌then◌else◌, arith, Bool,
}
use mathlib.Core.Path.{fun_ext}
use c_low_latency_trading_sy.Prelude.Int.{ℤ}
use c_low_latency_trading_sy.Message.{Side}
use c_low_latency_trading_sy.Book.Types.{OrderBook, Order, Level, no_level, in_band, level_index}
use c_low_latency_trading_sy.Book.Levels.{
  levels_for, scan_down, scan_up, note_level_filled, on_level_emptied,
}
use c_low_latency_trading_sy.Book.Best.{IsBest}
use c_low_latency_trading_sy.Book.Sound.{Queues, Band, IsResting}
use c_low_latency_trading_sy.Book.Sound.Frame.{IsFree}

abbrev pub band_of : OrderBook → Band
band_of b = record { level_of = level_index b; is_inside = in_band b }

-- All but the best levels.
pub record IsStored (b : OrderBook) (queues : Queues) (free : List ℕ) : Type 0 where
  pub resting : IsResting b.pool (levels_for b) (band_of b) queues
  pub frees : IsFree b.pool b.free_head queues free
  pub covers :
      (side : Side) (price : ℤ)
      → in_band b price ≡ true
      → level_index b price < length (levels_for b side)

pub record IsSound (b : OrderBook) (queues : Queues) (free : List ℕ) : Type 0 where
  pub stored : IsStored b queues free
  pub best : IsBest b

-- The same book but for the best levels.
pub record IsRebest (b b' : OrderBook) : Type 0 where
  pub bid : ℕ
  pub ask : ℕ
  pub same : b' ≡ record b { best_bid_level = bid; best_ask_level = ask }

pub note_level_filled-IsRebest :
    (b : OrderBook) (side : Side) (i : ℕ) → IsRebest b (note_level_filled b side i)
unfolding note_level_filled
note_level_filled-IsRebest b Side.buy i = record {
  bid = if b.best_bid_level == no_level || ltb b.best_bid_level i then i else b.best_bid_level;
  ask = b.best_ask_level;
  same = ground arith;
}
note_level_filled-IsRebest b Side.sell i = record {
  bid = b.best_bid_level;
  ask = if b.best_ask_level == no_level || ltb i b.best_ask_level then i else b.best_ask_level;
  same = ground arith;
}

pub on_level_emptied-IsRebest :
    (b : OrderBook) (side : Side) (i : ℕ) → IsRebest b (on_level_emptied b side i)
unfolding on_level_emptied
on_level_emptied-IsRebest b Side.buy i = record {
  bid = if i == b.best_bid_level then scan_down b.bid_levels i else b.best_bid_level;
  ask = b.best_ask_level;
  same = ground arith;
}
on_level_emptied-IsRebest b Side.sell i = record {
  bid = b.best_bid_level;
  ask =
      if i == b.best_ask_level
      then scan_up b.ask_levels (i + 1) (length b.ask_levels - (i + 1))
      else b.best_ask_level;
  same = ground arith;
}

band_of-same :
    (b b' : OrderBook)
    → b'.min_price ≡ b.min_price
    → b'.max_price ≡ b.max_price
    → band_of b' ≡ band_of b
unfolding in_band level_index
band_of-same b b' low high =
    ap₂
      (λ (lo hi : ℤ). record {
        level_of = level_index (record b { min_price = lo; max_price = hi });
        is_inside = in_band (record b { min_price = lo; max_price = hi });
      })
      low high

-- `b'` is `b` with another pool, free list and levels; the rest of its fields but the bounds may differ.
pub record IsWritten (b b' : OrderBook) (pool : List Order) (head : ℕ) (levels : Side → List Level)
    : Type 0 where
  pub pool_same : b'.pool ≡ pool
  pub head_same : b'.free_head ≡ head
  pub levels_same : (side : Side) → levels_for b' side ≡ levels side
  pub low : b'.min_price ≡ b.min_price
  pub high : b'.max_price ≡ b.max_price

pub IsWritten-IsStored :
    (b b' : OrderBook) (pool : List Order) (head : ℕ) (levels : Side → List Level) (queues : Queues)
    (free : List ℕ)
    → IsWritten b b' pool head levels
    → IsResting pool levels (band_of b) queues
    → IsFree pool head queues free
    → ((side : Side) (price : ℤ)
        → in_band b price ≡ true
        → level_index b price < length (levels side))
    → IsStored b' queues free
IsWritten-IsStored b b' pool head levels queues free w resting frees covers =
    let band : band_of b' ≡ band_of b = band_of-same b b' w.low w.high in
    record {
      resting =
          subst (λ p. IsResting p (levels_for b') (band_of b') queues) (sym w.pool_same)
            (subst (λ ls. IsResting pool ls (band_of b') queues) (sym (fun_ext w.levels_same))
              (subst (λ c. IsResting pool levels c queues) (sym band) resting));
      frees =
          subst (λ p. IsFree p b'.free_head queues free) (sym w.pool_same)
            (subst (λ h. IsFree pool h queues free) (sym w.head_same) frees);
      covers = λ side price h. omega (
        arith,
        ap length (w.levels_same side),
        ap (λ (c : Band). c.level_of price) band,
        covers side price (sym (ap (λ (c : Band). c.is_inside price) band) ∙ h),
      );
    }

IsStored-rebest_to :
    (b : OrderBook) (queues : Queues) (free : List ℕ) (bid ask : ℕ)
    → IsStored b queues free
    → IsStored (record b { best_bid_level = bid; best_ask_level = ask }) queues free
IsStored-rebest_to b queues free bid ask s =
    IsWritten-IsStored b (record b { best_bid_level = bid; best_ask_level = ask }) b.pool
      b.free_head (levels_for b) queues free
      (record { pool_same = refl; head_same = refl; levels_same = same; low = refl; high = refl })
      s.resting s.frees s.covers
  where
    same :
        (side : Side)
        → levels_for (record b { best_bid_level = bid; best_ask_level = ask }) side
          ≡ levels_for b side
    same Side.buy = refl
    same Side.sell = refl

pub IsStored-rebest :
    (b b' : OrderBook) (queues : Queues) (free : List ℕ)
    → IsRebest b b'
    → IsStored b queues free
    → IsStored b' queues free
IsStored-rebest b b' queues free r s =
    subst (λ c. IsStored c queues free) (sym r.same)
      (IsStored-rebest_to b queues free r.bid r.ask s)
