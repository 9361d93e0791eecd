-- ===== src/Book/Sound/Frame.antt =====
-- Writes of orderbook/order_book.cpp to a slot outside the queues, and the free list.
use c_low_latency_trading_sy.Prelude.{
  ℕ, ◌%◌, ◌<◌, ◌≡◌, sym, ap, ◌∙◌, arith, word64, true, List, [], ◌∷◌, length,
}
use c_low_latency_trading_sy.Message.{Side}
use c_low_latency_trading_sy.Book.Types.{Order, Level, null_order}
use c_low_latency_trading_sy.Book.Levels.{order_at, level_at}
use c_low_latency_trading_sy.Book.Queue.{has, IsDistinct, frame}
use c_low_latency_trading_sy.Book.Sound.{
  Queues, total_of-kept, IsLevel, Band, IsResting, IsLoose, IsHome-kept,
}

pub IsResting-frame :
    (pool pool' : List Order) (levels : Side → List Level) (band : Band) (queues : Queues)
    → IsResting pool levels band queues
    → length pool' ≡ length pool
    → ((side : Side) (i j : ℕ) → has j (queues side i) ≡ true → order_at pool' j ≡ order_at pool j)
    → IsResting pool' levels band queues
IsResting-frame pool pool' levels band queues sound size same = record {
  few = omega (arith, size, sound.few);
  level = λ side i inside.
      let was : IsLevel pool (level_at (levels side) i) (queues side i) =
        sound.level side i inside in
      record {
        queue =
            frame (order_at pool) (order_at pool') null_order (level_at (levels side) i).head
              (queues side i) (level_at (levels side) i).tail null_order
              (λ j h. let e = same side i j h in (ap (λ o. o.next) e, ap (λ o. o.prev) e))
              was.queue;
        count = was.count;
        total =
            was.total
            ∙ ap (λ n. n % word64)
                (sym (
                  total_of-kept pool pool' (queues side i)
                    (λ j h. ap (λ o. o.quantity) (same side i j h))));
      };
  home = λ side i j h.
      let e = same side i j h in
      IsHome-kept pool pool' band side i j size
        (record {
          id = ap (λ o. o.id) e;
          price = ap (λ o. o.price) e;
          quantity = ap (λ o. o.quantity) e;
          side = ap (λ o. o.side) e;
        })
        (sound.home side i j h);
  distinct = sound.distinct;
}

-- From `head`, the `next` links lead through the slots to the end.
abbrev pub Chain : (ℕ → Order) → ℕ → List ℕ → Type 0
Chain at head [] = head ≡ null_order
Chain at head (s ∷ ss) = (head ≡ s) × Chain at (at s).next ss

pub Chain-frame :
    (at at' : ℕ → Order) (head : ℕ) (ss : List ℕ)
    → ((j : ℕ) → has j ss ≡ true → (at' j).next ≡ (at j).next)
    → Chain at head ss
    → Chain at' head ss
Chain-frame at at' head [] same c = c
Chain-frame at at' head (s ∷ ss) same c = (
  c.0,
  rw (same s (ground arith)) (Chain-frame at at' (at s).next ss (λ j h. same j (ground arith)) c.1),
)

pub record IsFree (pool : List Order) (head : ℕ) (queues : Queues) (free : List ℕ) : Type 0 where
  pub chain : Chain (order_at pool) head free
  pub inside : (s : ℕ) → has s free ≡ true → s < length pool
  pub distinct : IsDistinct free
  pub loose : (s : ℕ) → has s free ≡ true → IsLoose queues s

pub IsFree-frame :
    (pool pool' : List Order) (head : ℕ) (queues queues' : Queues) (free : List ℕ)
    → IsFree pool head queues free
    → length pool' ≡ length pool
    → ((j : ℕ) → has j free ≡ true → order_at pool' j ≡ order_at pool j)
    → ((j : ℕ) → has j free ≡ true → IsLoose queues j → IsLoose queues' j)
    → IsFree pool' head queues' free
IsFree-frame pool pool' head queues queues' free f size same loose = record {
  chain =
      Chain-frame (order_at pool) (order_at pool') head free (λ j h. ap (λ o. o.next) (same j h))
        f.chain;
  inside = λ s h. omega (arith, size, f.inside s h);
  distinct = f.distinct;
  loose = λ s h. loose s h (f.loose s h);
}
