-- ===== src/Book/Sound/Unlink.antt =====
-- `unlink` of orderbook/order_book.cpp on the levels of a book.
use c_low_latency_trading_sy.Prelude.{
  ℕ, ◌+◌, ◌%◌, ◌≤◌, ◌<◌, ◌≡◌, ◌≢◌, sym, ap, subst, ◌∙◌, arith, word64, true, false, ◌&&◌, List, [],
  ◌∷◌, ◌++◌, ◌==◌, length, set, length-append, Bool-cases, inl, inr,
}
use c_low_latency_trading_sy.Message.{Side}
use c_low_latency_trading_sy.Book.Types.{Order, Level, null_order}
use c_low_latency_trading_sy.Book.Levels.{order_at, level_at, unlinked_pool, unlinked_level}
use c_low_latency_trading_sy.Book.Queue.{has, has-append, IsDistinct, frame, around}
use c_low_latency_trading_sy.Book.Queue.Link.{IsIn}
use c_low_latency_trading_sy.Book.Queue.Unlink.{
  joined, order_at-unlinked, unlink-IsQueue, length-unlinked_pool, prev_among, next_among,
}
use c_low_latency_trading_sy.Book.Sound.{
  Queues, same_side, with_queue, with_side, level_at-with_side, length-with_side, total_of,
  total_of-kept, IsLevel, IsLevel-split, Band, IsHome, IsResting, IsLoose, IsKept, elsewhere,
  IsDistinct-split, IsHome-kept, with_queue-IsHome,
}
use c_low_latency_trading_sy.Book.Sound.Count.{length-le}

pub total_of-around :
    (pool : List Order) (xs : List ℕ) (slot : ℕ) (ys : List ℕ)
    → total_of pool (xs ++ slot ∷ ys) ≡ total_of pool (xs ++ ys) + (order_at pool slot).quantity
total_of-around pool [] slot ys = omega arith
total_of-around pool (x ∷ xs) slot ys = omega (arith, total_of-around pool xs slot ys)

module _ (pool : List Order) (levels : Side → List Level) (band : Band) (queues : Queues)
    (sound : IsResting pool levels band queues) (side : Side) (i : ℕ) (xs : List ℕ) (slot : ℕ)
    (ys : List ℕ) (split : queues side i ≡ xs ++ slot ∷ ys)
    (exists : i < length (levels side)) where
  abbrev pub level : Level
  level = level_at (levels side) i

  abbrev order : Order
  order = order_at pool slot

  old : IsLevel pool level (xs ++ slot ∷ ys)
  old = subst (λ ss. IsLevel pool level ss) split (sound.level side i exists)

  homes : (j : ℕ) → has j (xs ++ slot ∷ ys) ≡ true → IsHome pool band side i j
  homes j h = sound.home side i j (ap (λ ss. has j ss) split ∙ h)

  pub slot-IsHome : IsHome pool band side i slot
  slot-IsHome = homes slot (ground (arith, has-append slot xs (slot ∷ ys)))

  is_in : IsIn pool (xs ++ slot ∷ ys)
  is_in = record {
    few = sound.few;
    inside = λ j h. (homes j h).0;
    distinct = subst (λ ss. IsDistinct ss) split (sound.distinct side i);
  }

  after :
      (j : ℕ)
      → j ≢ null_order
      → order_at (unlinked_pool pool slot) j ≡ joined (order_at pool) slot j
  after j ne = order_at-unlinked pool level.head level.tail xs slot ys is_in old.queue j ne

  pub unlinked-IsKept :
      (j : ℕ) → j ≢ null_order → IsKept (order_at pool) (order_at (unlinked_pool pool slot)) j
  unlinked-IsKept j ne =
      let e = after j ne in
      record {
        id = ap (λ o. o.id) e;
        price = ap (λ o. o.price) e;
        quantity = ap (λ o. o.quantity) e;
        side = ap (λ o. o.side) e;
      }

  pub unlinked_count : length (xs ++ slot ∷ ys) ≤ length pool
  unlinked_count = length-le (length pool) (xs ++ slot ∷ ys) is_in.distinct is_in.inside

  pool' : List Order
  pool' = unlinked_pool pool slot

  kept_real : (side' : Side) (i' j : ℕ) → has j (queues side' i') ≡ true → j ≢ null_order
  kept_real side' i' j h = omega (arith, (sound.home side' i' j h).0, sound.few)

  still_among : (j : ℕ) → has j (xs ++ ys) ≡ true → has j (xs ++ slot ∷ ys) ≡ true
  still_among j h = ground (arith, has-append j xs ys, has-append j xs (slot ∷ ys))

  untouched :
      (side' : Side) (i' : ℕ)
      → (same_side side side' && (i == i')) ≡ false
      → (j : ℕ) → has j (queues side' i') ≡ true
      → order_at pool' j ≡ order_at pool j
  unfolding pool'
  untouched side' i' apart j h =
      let real : j ≢ null_order = kept_real side' i' j h in
      let out = λ (k : ℕ) (m : has k (xs ++ slot ∷ ys) ≡ true) (e : k ≡ j).
        elsewhere pool levels band queues sound side side' i i' j apart h
          (ap (λ ss. has j ss) split ∙ subst (λ t. has t (xs ++ slot ∷ ys) ≡ true) e m) in
      let not_prev : order.prev ≢ j = λ e.
        out order.prev
          (prev_among pool level.head level.tail xs slot ys is_in old.queue (λ n. real (sym e ∙ n)))
          e in
      let not_next : order.next ≢ j = λ e.
        out order.next
          (next_among pool level.head level.tail xs slot ys is_in old.queue (λ n. real (sym e ∙ n)))
          e in
      after j real ∙ ground (arith, not_prev, not_next)

  unlinked-IsLevel : IsLevel pool' (unlinked_level order level) (xs ++ ys)
  unfolding pool'
  unlinked-IsLevel = record {
    queue = unlink-IsQueue pool level.head level.tail xs slot ys is_in old.queue;
    count = omega (
      arith,
      old.count,
      unlinked_count,
      sound.few,
      length-append xs ys,
      length-append xs (slot ∷ ys),
    );
    total =
        let same = total_of-kept pool pool' (xs ++ ys) (λ j h.
          (unlinked-IsKept j (omega (arith, (homes j (still_among j h)).0, sound.few))).quantity) in
        omega (arith, old.total, total_of-around pool xs slot ys, same, slot-IsHome.4);
  }

  other-IsLevel :
      (side' : Side) (i' : ℕ)
      → i' < length (levels side')
      → (same_side side side' && (i == i')) ≡ false
      → IsLevel pool' (level_at (levels side') i') (queues side' i')
  unfolding pool'
  other-IsLevel side' i' inside apart =
      let was : IsLevel pool (level_at (levels side') i') (queues side' i') =
        sound.level side' i' inside in
      record {
        queue =
            frame (order_at pool) (order_at pool') null_order (level_at (levels side') i').head
              (queues side' i') (level_at (levels side') i').tail null_order
              (λ j h.
                let e = untouched side' i' apart j h in (ap (λ o. o.next) e, ap (λ o. o.prev) e))
              was.queue;
        count = was.count;
        total =
            was.total
            ∙ ap (λ n. n % word64)
                (sym (
                  total_of-kept pool pool' (queues side' i')
                    (λ j h. (unlinked-IsKept j (kept_real side' i' j h)).quantity)));
      }

  abbrev pub unlinked_levels : Side → List Level
  unlinked_levels = with_side levels side (set (levels side) i (unlinked_level order level))

  abbrev pub unlinked_queues : Queues
  unlinked_queues = with_queue queues side i (xs ++ ys)

  pub unlink-IsResting : IsResting (unlinked_pool pool slot) unlinked_levels band unlinked_queues
  unfolding pool'
  unlink-IsResting = record {
    few = omega (arith, sound.few, length-unlinked_pool pool slot);
    level = λ side' i' inside.
        rw (level_at-with_side levels side side' i i' (unlinked_level order level) exists) (
          IsLevel-split pool' (same_side side side' && (i == i')) (unlinked_level order level)
            (level_at (levels side') i') (xs ++ ys) (queues side' i') unlinked-IsLevel
            (other-IsLevel side' i' (
              omega (
                arith,
                inside,
                length-with_side levels side side' i (unlinked_level order level),
              ))));
    home = λ side' i' j h.
        let was =
          with_queue-IsHome pool levels band queues sound side i (xs ++ ys)
            (λ k m. homes k (still_among k m)) side' i' j h in
        IsHome-kept pool pool' band side' i' j (length-unlinked_pool pool slot)
          (unlinked-IsKept j (omega (arith, was.0, sound.few))) was;
    distinct = λ side' i'.
        IsDistinct-split (same_side side side' && (i == i')) (xs ++ ys) (queues side' i')
          (around xs slot ys is_in.distinct).whole (sound.distinct side' i');
  }

  -- The slot that left is in no queue.
  pub unlinked-IsLoose : IsLoose unlinked_queues slot
  unlinked-IsLoose side' i' = elim (Bool-cases (same_side side side' && (i == i'))) [
    | inl same ↦
        let apart = around xs slot ys is_in.distinct in
        rw same (ground (arith, has-append slot xs ys, apart.not_in_front, apart.not_in_back))
    | inr apart ↦ rw apart (elim (Bool-cases (has slot (queues side' i'))) [
      | inl there ↦ absurd (
          elsewhere pool levels band queues sound side side' i i' slot apart there
            (ap (λ ss. has slot ss) split ∙ ground (arith, has-append slot xs (slot ∷ ys))))
      | inr gone ↦ gone
    ])
  ]

  -- Slots in no queue are left alone, and stay in none.
  pub unlinked_loose :
      (j : ℕ)
      → j < length pool
      → IsLoose queues j
      → order_at (unlinked_pool pool slot) j ≡ order_at pool j
  unlinked_loose j inside out =
      let real : j ≢ null_order = omega (arith, inside, sound.few) in
      let not_in : has j (xs ++ slot ∷ ys) ≡ false = ap (λ ss. has j ss) (sym split) ∙ out side i in
      let away : (k : ℕ) → has k (xs ++ slot ∷ ys) ≡ true → k ≡ j → ⊥ =
        λ k m e. cc (sym (subst (λ t. has t (xs ++ slot ∷ ys) ≡ true) e m) ∙ not_in) in
      let not_prev : order.prev ≢ j = λ e.
        away order.prev
          (prev_among pool level.head level.tail xs slot ys is_in old.queue (λ n. real (sym e ∙ n)))
          e in
      let not_next : order.next ≢ j = λ e.
        away order.next
          (next_among pool level.head level.tail xs slot ys is_in old.queue (λ n. real (sym e ∙ n)))
          e in
      after j real ∙ ground (arith, not_prev, not_next)

  pub unlinked_still-IsLoose : (j : ℕ) → IsLoose queues j → IsLoose unlinked_queues j
  unlinked_still-IsLoose j out side' i' = elim (Bool-cases (same_side side side' && (i == i'))) [
    | inl same ↦
        let not_in : has j (xs ++ slot ∷ ys) ≡ false =
          ap (λ ss. has j ss) (sym split) ∙ out side i in
        rw same (ground (arith, has-append j xs ys, has-append j xs (slot ∷ ys)))
    | inr other ↦ rw other (out side' i')
  ]
