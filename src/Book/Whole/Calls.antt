-- ===== src/Book/Whole/Calls.antt =====
-- The steps of the calls of orderbook/order_book.cpp on a whole book.
use c_low_latency_trading_sy.Prelude.{
  ℕ, suc, ◌+◌, ◌<◌, ◌≡◌, ◌≢◌, refl, sym, ap, subst, ◌∙◌, arith, false, List, [], ◌∷◌, ◌++◌, length,
  length-append, set, length-set, ℕ_discrete,
}
use c_low_latency_trading_sy.Message.{Side}
use c_low_latency_trading_sy.Book.Types.{OrderBook, Order, IndexSlot}
use c_low_latency_trading_sy.Book.Levels.{
  order_at, levels_for, set_next, link_back, unlink, note_level_filled, release_slot,
}
use c_low_latency_trading_sy.Book.Best.Calls.{link-IsBest, unlink-IsBest}
use c_low_latency_trading_sy.Book.Queue.{has}
use c_low_latency_trading_sy.Book.Queue.Link.{order_at-set, order_at-set_next}
use c_low_latency_trading_sy.Book.Sound.{Queues, IsHome, IsLoose, IsResting, with_queue}
use c_low_latency_trading_sy.Book.Sound.Frame.{IsFree, IsFree-frame, IsResting-frame, Chain-frame}
use c_low_latency_trading_sy.Book.Sound.Link.{linked_count}
use c_low_latency_trading_sy.Book.Sound.Unlink.{unlinked_count}
use c_low_latency_trading_sy.Book.Whole.{
  band_of, IsSound, IsWritten-IsStored, IsStored-rebest, note_level_filled-IsRebest,
}
use c_low_latency_trading_sy.Book.Whole.Moves.{link_back-IsStored, unlink-IsStored}

-- The pool, the free list and the index are written.
resound :
    (b : OrderBook) (queues : Queues) (free free' : List ℕ) (pool : List Order) (head : ℕ)
    (index : List IndexSlot) (live : ℕ)
    → IsSound b queues free
    → IsResting pool (levels_for b) (band_of b) queues
    → IsFree pool head queues free'
    → IsSound
        (record b { pool = pool; free_head = head; index = index; live_orders = live })
        queues
        free'
resound b queues free free' pool head index live s resting frees = record {
  stored =
      IsWritten-IsStored b b' pool head (levels_for b) queues free'
        (record { pool_same = refl; head_same = refl; levels_same = same; low = refl; high = refl })
        resting frees s.stored.covers;
  best = record {
    few_bids = s.best.few_bids;
    few_asks = s.best.few_asks;
    bid = s.best.bid;
    ask = s.best.ask;
  };
}
  where
    b' : OrderBook
    b' = record b { pool = pool; free_head = head; index = index; live_orders = live }

    same : (side : Side) → levels_for b' side ≡ levels_for b side
    same Side.buy = refl
    same Side.sell = refl

module _ (b : OrderBook) (queues : Queues) (free : List ℕ) (s : IsSound b queues free) where
  pub reindex-IsSound :
      (index : List IndexSlot) (live : ℕ)
      → IsSound (record b { index = index; live_orders = live }) queues free
  reindex-IsSound index live =
      resound b queues free free b.pool b.free_head index live s s.stored.resting s.stored.frees

  -- A slot that is neither in a queue nor free takes any order.
  pub write-IsSound :
      (slot : ℕ) (o : Order)
      → slot < length b.pool
      → IsLoose queues slot
      → has slot free ≡ false
      → IsSound (record b { pool = set b.pool slot o }) queues free
  write-IsSound slot o real loose taken =
      let pool' : List Order = set b.pool slot o in
      let size : length pool' ≡ length b.pool = length-set b.pool slot o in
      let other : (j : ℕ) → slot ≢ j → order_at pool' j ≡ order_at b.pool j =
        λ j ne. order_at-set b.pool slot j o real ∙ ground arith in
      resound b queues free free pool' b.free_head b.index b.live_orders s
        (IsResting-frame b.pool pool' (levels_for b) (band_of b) queues s.stored.resting size
          (λ side i j h.
            other j (λ e. cc (sym h ∙ ap (λ k. has k (queues side i)) (sym e) ∙ loose side i))))
        (IsFree-frame b.pool pool' b.free_head queues queues free s.stored.frees size
          (λ j h. other j (λ e. cc (sym h ∙ ap (λ k. has k free) (sym e) ∙ taken)))
          (λ j h out. out))

  pub release_slot-IsSound :
      (slot : ℕ)
      → slot < length b.pool
      → IsLoose queues slot
      → has slot free ≡ false
      → IsSound (release_slot b slot) queues (slot ∷ free)
  unfolding release_slot
  release_slot-IsSound slot real loose taken =
      let pool' : List Order = set_next b.pool slot b.free_head in
      let size : length pool' ≡ length b.pool =
        length-set b.pool slot (record (order_at b.pool slot) { next = b.free_head }) in
      let other : (j : ℕ) → slot ≢ j → order_at pool' j ≡ order_at b.pool j =
        λ j ne. order_at-set_next b.pool slot j b.free_head real ∙ ground arith in
      let head : (order_at pool' slot).next ≡ b.free_head =
        ap (λ o. o.next) (order_at-set_next b.pool slot slot b.free_head real) ∙ ground arith in
      let frees = s.stored.frees in
      resound b queues free (slot ∷ free) pool' slot b.index b.live_orders s
        (IsResting-frame b.pool pool' (levels_for b) (band_of b) queues s.stored.resting size
          (λ side i j h.
            other j (λ e. cc (sym h ∙ ap (λ k. has k (queues side i)) (sym e) ∙ loose side i))))
        (record {
          chain = (
            refl,
            rw head (
                Chain-frame (order_at b.pool) (order_at pool') b.free_head free
                  (λ j h.
                    ap (λ o. o.next)
                      (other j (λ e. cc (sym h ∙ ap (λ k. has k free) (sym e) ∙ taken))))
                  frees.chain),
          );
          inside = λ j h. elim (ℕ_discrete j slot) [
            | yes e ↦ omega (arith, size)
            | no ne ↦ omega (arith, size, frees.inside j (ground arith))
          ];
          distinct = (taken, frees.distinct);
          loose = λ j h. elim (ℕ_discrete j slot) [
            | yes e ↦ subst (λ k. IsLoose queues k) (sym e) loose
            | no ne ↦ frees.loose j (ground arith)
          ];
        })

  pub link-IsSound :
      (side : Side) (i slot : ℕ)
      → IsLoose queues slot
      → has slot free ≡ false
      → IsHome b.pool (band_of b) side i slot
      → i < length (levels_for b side)
      → IsSound
          (note_level_filled (link_back b i side slot) side i)
          (with_queue queues side i (queues side i ++ slot ∷ []))
          free
  link-IsSound side i slot loose taken here exists =
      let room =
        linked_count b.pool (levels_for b) (band_of b) queues s.stored.resting side i slot loose
          here exists in
      let full = s.stored.resting.few in
      record {
        stored =
            IsStored-rebest (link_back b i side slot)
              (note_level_filled (link_back b i side slot) side i)
              (with_queue queues side i (queues side i ++ slot ∷ [])) free
              (note_level_filled-IsRebest (link_back b i side slot) side i)
              (link_back-IsStored b queues free s.stored side i slot loose taken here exists);
        best =
            link-IsBest b side i slot s.best exists
              (omega (arith, room, full, (s.stored.resting.level side i exists).count));
      }

  pub unlink-IsSound :
      (side : Side) (i : ℕ) (xs : List ℕ) (slot : ℕ) (ys : List ℕ)
      → queues side i ≡ xs ++ slot ∷ ys
      → i < length (levels_for b side)
      → IsSound (unlink b i side slot) (with_queue queues side i (xs ++ ys)) free
  unlink-IsSound side i xs slot ys split exists =
      let count = (s.stored.resting.level side i exists).count in
      let size : length (queues side i) ≡ length xs + suc (length ys) =
        ap length split ∙ length-append xs (slot ∷ ys) in
      let room =
        unlinked_count b.pool (levels_for b) (band_of b) queues s.stored.resting side i xs slot ys
          split exists in
      let full = s.stored.resting.few in
      record {
        stored = unlink-IsStored b queues free s.stored side i xs slot ys split exists;
        best =
            unlink-IsBest b side i slot s.best exists (omega (arith, count, size))
              (omega (arith, count, ap length split, room, full));
      }

  -- The slot at the head of the free list is taken off it.
  pub acquire-IsSound :
      (slot : ℕ) (rest : List ℕ)
      → free ≡ slot ∷ rest
      → IsSound (record b { free_head = (order_at b.pool b.free_head).next }) queues rest
  acquire-IsSound slot rest e =
      let was : IsFree b.pool b.free_head queues (slot ∷ rest) =
        subst (λ f. IsFree b.pool b.free_head queues f) e s.stored.frees in
      resound b queues free rest b.pool (order_at b.pool b.free_head).next b.index b.live_orders s
        s.stored.resting
        (record {
          chain = rw was.chain.0 was.chain.1;
          inside = λ j h. was.inside j (ground arith);
          distinct = was.distinct.1;
          loose = λ j h. was.loose j (ground arith);
        })
