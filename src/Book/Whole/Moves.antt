-- ===== src/Book/Whole/Moves.antt =====
-- `link_back` and `unlink` of orderbook/order_book.cpp on a whole book, and the writes to one slot
-- around them.
use c_low_latency_trading_sy.Prelude.{
  ℕ, ◌<◌, ◌≡◌, refl, sym, ap, ◌∙◌, arith, Bool, true, false, List, [], ◌∷◌, ◌++◌, ◌==◌,
  if◌then◌else◌, length, set,
}
use c_low_latency_trading_sy.Message.{Side}
use c_low_latency_trading_sy.Book.Types.{OrderBook, Order, Level}
use c_low_latency_trading_sy.Book.Levels.{
  order_at, level_at, levels_for, with_levels, link_back, linked_pool, linked_level, unlink,
  unlinked_pool, unlinked_level, on_level_emptied,
}
use c_low_latency_trading_sy.Book.Queue.{has}
use c_low_latency_trading_sy.Book.Sound.{
  Queues, IsHome, IsLoose, with_queue, with_side, length-with_side,
}
use c_low_latency_trading_sy.Book.Sound.Frame.{IsFree-frame}
use c_low_latency_trading_sy.Book.Sound.Link.{
  link-IsResting, length-linked_pool, linked_loose, linked-IsLoose,
}
use c_low_latency_trading_sy.Book.Sound.Unlink.{
  unlink-IsResting, unlinked_loose, unlinked_still-IsLoose,
}
use c_low_latency_trading_sy.Book.Queue.Unlink.{length-unlinked_pool}
use c_low_latency_trading_sy.Book.Whole.{
  band_of, IsStored, IsWritten, IsWritten-IsStored, IsStored-rebest, on_level_emptied-IsRebest,
}

-- A book whose pool and one side's levels are written.
pub with_levels-IsWritten :
    (b : OrderBook) (pool : List Order) (side : Side) (levels : List Level)
    → IsWritten b
        (with_levels (record b { pool = pool }) side levels)
        pool
        b.free_head
        (with_side (levels_for b) side levels)
with_levels-IsWritten b pool side levels = record {
  pool_same = pools side;
  head_same = heads side;
  levels_same = same side;
  low = lows side;
  high = highs side;
}
  where
    pools : (side : Side) → (with_levels (record b { pool = pool }) side levels).pool ≡ pool
    pools Side.buy = refl
    pools Side.sell = refl

    heads :
        (side : Side) → (with_levels (record b { pool = pool }) side levels).free_head ≡ b.free_head
    heads Side.buy = refl
    heads Side.sell = refl

    lows :
        (side : Side) → (with_levels (record b { pool = pool }) side levels).min_price ≡ b.min_price
    lows Side.buy = refl
    lows Side.sell = refl

    highs :
        (side : Side) → (with_levels (record b { pool = pool }) side levels).max_price ≡ b.max_price
    highs Side.buy = refl
    highs Side.sell = refl

    same :
        (side side' : Side)
        → levels_for (with_levels (record b { pool = pool }) side levels) side'
          ≡ with_side (levels_for b) side levels side'
    same Side.buy Side.buy = refl
    same Side.buy Side.sell = refl
    same Side.sell Side.buy = refl
    same Side.sell Side.sell = refl

module _ (b : OrderBook) (queues : Queues) (free : List ℕ) (s : IsStored b queues free) where
  pub link_back-IsStored :
      (side : Side) (i slot : ℕ)
      → IsLoose queues slot
      → has slot free ≡ false
      → IsHome b.pool (band_of b) side i slot
      → i < length (levels_for b side)
      → IsStored
          (link_back b i side slot)
          (with_queue queues side i (queues side i ++ slot ∷ []))
          free
  unfolding link_back
  link_back-IsStored side i slot loose taken here exists =
      let level : Level = level_at (levels_for b side) i in
      let pool' : List Order = linked_pool b.pool level slot in
      IsWritten-IsStored b (link_back b i side slot) pool' b.free_head
        (with_side (levels_for b) side (set (levels_for b side) i (linked_level b.pool level slot)))
        (with_queue queues side i (queues side i ++ slot ∷ [])) free
        (with_levels-IsWritten b pool' side
          (set (levels_for b side) i (linked_level b.pool level slot)))
        (link-IsResting b.pool (levels_for b) (band_of b) queues s.resting side i slot loose here
          exists)
        (IsFree-frame b.pool pool' b.free_head queues
          (with_queue queues side i (queues side i ++ slot ∷ [])) free s.frees
          (length-linked_pool b.pool level slot)
          (λ j h.
            linked_loose b.pool (levels_for b) (band_of b) queues s.resting side i slot loose here
              exists j (λ e. cc (sym h ∙ ap (λ k. has k free) e ∙ taken)) (s.frees.inside j h)
              (s.frees.loose j h))
          (λ j h out.
            linked-IsLoose b.pool (levels_for b) (band_of b) queues s.resting side i slot loose here
              exists j (λ e. cc (sym h ∙ ap (λ k. has k free) e ∙ taken)) out))
        (λ side' price h. omega (
          arith,
          s.covers side' price h,
          length-with_side (levels_for b) side side' i (linked_level b.pool level slot),
        ))

  pub unlink-IsStored :
      (side : Side) (i : ℕ) (xs : List ℕ) (slot : ℕ) (ys : List ℕ)
      → queues side i ≡ xs ++ slot ∷ ys
      → i < length (levels_for b side)
      → IsStored (unlink b i side slot) (with_queue queues side i (xs ++ ys)) free
  unfolding unlink
  unlink-IsStored side i xs slot ys split exists =
      let level : Level = unlinked_level (order_at b.pool slot) (level_at (levels_for b side) i) in
      let pool' : List Order = unlinked_pool b.pool slot in
      let out : OrderBook =
        with_levels (record b { pool = pool' }) side (set (levels_for b side) i level) in
      let stored : IsStored out (with_queue queues side i (xs ++ ys)) free =
        IsWritten-IsStored b out pool' b.free_head
          (with_side (levels_for b) side (set (levels_for b side) i level))
          (with_queue queues side i (xs ++ ys)) free
          (with_levels-IsWritten b pool' side (set (levels_for b side) i level))
          (unlink-IsResting b.pool (levels_for b) (band_of b) queues s.resting side i xs slot ys
            split exists)
          (IsFree-frame b.pool pool' b.free_head queues (with_queue queues side i (xs ++ ys)) free
            s.frees (length-unlinked_pool b.pool slot)
            (λ j h.
              unlinked_loose b.pool (levels_for b) (band_of b) queues s.resting side i xs slot ys
                split exists j (s.frees.inside j h) (s.frees.loose j h))
            (λ j h loose.
              unlinked_still-IsLoose b.pool (levels_for b) (band_of b) queues s.resting side i xs
                slot ys split exists j loose))
          (λ side' price h.
            omega (
              arith,
              s.covers side' price h,
              length-with_side (levels_for b) side side' i level,
            )) in
      by_case (level.order_count == 0) out stored
    where
      by_case :
          (c : Bool) (out : OrderBook)
          → IsStored out (with_queue queues side i (xs ++ ys)) free
          → IsStored
              (if c then on_level_emptied out side i else out)
              (with_queue queues side i (xs ++ ys))
              free
      by_case true out stored =
          IsStored-rebest out (on_level_emptied out side i) (with_queue queues side i (xs ++ ys))
            free (on_level_emptied-IsRebest out side i) stored
      by_case false out stored = stored
