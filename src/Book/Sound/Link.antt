-- ===== src/Book/Sound/Link.antt =====
-- `link_back` of orderbook/order_book.cpp on the levels of a book.
use c_low_latency_trading_sy.Prelude.{
  ℕ, ◌+◌, ◌%◌, ◌≤◌, ◌<◌, ◌≡◌, ◌≢◌, refl, sym, ap, subst, ◌∙◌, arith, word64, true, false, ◌&&◌,
  List, [], ◌∷◌, ◌++◌, ◌==◌, if◌then◌else◌, length, set, length-set, length-append, Bool-cases, inl,
  inr, ℕ_discrete,
}
use c_low_latency_trading_sy.Message.{Side}
use c_low_latency_trading_sy.Book.Types.{Order, Level, null_order}
use c_low_latency_trading_sy.Book.Levels.{order_at, level_at, linked_pool, linked_level}
use c_low_latency_trading_sy.Book.Queue.{has, has-append, has-last_real, IsDistinct, frame}
use c_low_latency_trading_sy.Book.Queue.Link.{IsIn, tail_inside, order_at-linked_pool, link-IsQueue}
use c_low_latency_trading_sy.Book.Sound.{
  Queues, same_side, with_queue, with_side, level_at-with_side, length-with_side, total_of,
  total_of-kept, IsLevel, IsLevel-split, Band, IsHome, IsResting, IsLoose, IsKept, elsewhere,
  IsDistinct-split, IsHome-kept, with_queue-IsHome,
}
use c_low_latency_trading_sy.Book.Sound.Count.{length-le}

pub length-linked_pool :
    (pool : List Order) (level : Level) (slot : ℕ)
    → length (linked_pool pool level slot) ≡ length pool
length-linked_pool pool level slot =
    let placed =
      set pool slot (record (order_at pool slot) { next = null_order; prev = level.tail }) in
    ground (
      arith,
      length-set pool slot (record (order_at pool slot) { next = null_order; prev = level.tail }),
      length-set placed level.tail (record (order_at placed level.tail) { next = slot }),
    )

pub snoc-IsDistinct :
    (ss : List ℕ) (slot : ℕ) → IsDistinct ss → has slot ss ≡ false → IsDistinct (ss ++ slot ∷ [])
snoc-IsDistinct [] slot d out = (refl, tt)
snoc-IsDistinct (s ∷ ss) slot d out =
    (ground (arith, has-append s ss (slot ∷ []), d.0), snoc-IsDistinct ss slot d.1 (ground arith))

total_of-snoc :
    (pool : List Order) (ss : List ℕ) (slot : ℕ)
    → total_of pool (ss ++ slot ∷ []) ≡ total_of pool ss + (order_at pool slot).quantity
total_of-snoc pool [] slot = omega arith
total_of-snoc pool (s ∷ ss) slot = omega (arith, total_of-snoc pool ss slot)

module _ (pool : List Order) (levels : Side → List Level) (band : Band) (queues : Queues)
    (sound : IsResting pool levels band queues) (side : Side) (i slot : ℕ)
    (loose : IsLoose queues slot) (here : IsHome pool band side i slot)
    (exists : i < length (levels side)) where
  abbrev pub level : Level
  level = level_at (levels side) i

  old : IsLevel pool level (queues side i)
  old = sound.level side i exists

  is_in : IsIn pool (queues side i)
  is_in = record {
    few = sound.few;
    inside = λ j h. (sound.home side i j h).0;
    distinct = sound.distinct side i;
  }

  after :
      (j : ℕ)
      → j ≢ null_order
      → order_at (linked_pool pool level slot) j ≡ (
          if slot == j
          then record (order_at pool slot) { next = null_order; prev = level.tail }
          else if level.tail == j
          then record (order_at pool j) { next = slot }
          else order_at pool j)
  after j ne =
      order_at-linked_pool pool level slot here.0 j
        (tail_inside pool level slot (queues side i) (loose side i) here.0 is_in old.queue) ne

  pub linked-IsKept :
      (j : ℕ) → j ≢ null_order → IsKept (order_at pool) (order_at (linked_pool pool level slot)) j
  linked-IsKept j ne = elim (ℕ_discrete slot j) [
    | yes e ↦ record {
      id = ground (arith, after j ne, ap (λ s. (order_at pool s).id) e);
      price = ground (arith, after j ne, ap (λ s. (order_at pool s).price) e);
      quantity = ground (arith, after j ne, ap (λ s. (order_at pool s).quantity) e);
      side = ground (arith, after j ne, ap (λ s. (order_at pool s).side) e);
    }
    | no apart ↦ record {
      id = ground (arith, after j ne);
      price = ground (arith, after j ne);
      quantity = ground (arith, after j ne);
      side = ground (arith, after j ne);
    }
  ]

  -- The room that is left for the count.
  pub linked_count : length (queues side i) + 1 ≤ length pool
  linked_count =
      let more =
        length-le (length pool) (queues side i ++ slot ∷ [])
          (snoc-IsDistinct (queues side i) slot (sound.distinct side i) (loose side i))
          (λ j h. elim (ℕ_discrete j slot) [
            | yes e ↦ omega (arith, here.0)
            | no ne ↦ is_in.inside j (ground (arith, has-append j (queues side i) (slot ∷ [])))
          ]) in
      omega (arith, more, length-append (queues side i) (slot ∷ []))

  pool' : List Order
  pool' = linked_pool pool level slot

  kept_real : (side' : Side) (i' j : ℕ) → has j (queues side' i') ≡ true → j ≢ null_order
  kept_real side' i' j h = omega (arith, (sound.home side' i' j h).0, sound.few)

  snoc_real : (j : ℕ) → has j (queues side i ++ slot ∷ []) ≡ true → j ≢ null_order
  snoc_real j h = elim (ℕ_discrete j slot) [
    | yes e ↦ omega (arith, here.0, sound.few)
    | no ne ↦ kept_real side i j (ground (arith, has-append j (queues side i) (slot ∷ [])))
  ]

  untouched :
      (side' : Side) (i' : ℕ)
      → (same_side side side' && (i == i')) ≡ false
      → (j : ℕ) → has j (queues side' i') ≡ true
      → order_at pool' j ≡ order_at pool j
  unfolding pool'
  untouched side' i' apart j h =
      let real : j ≢ null_order = kept_real side' i' j h in
      let not_slot : slot ≢ j =
        λ e. cc (sym h ∙ ap (λ t. has t (queues side' i')) (sym e) ∙ loose side' i') in
      let not_tail : level.tail ≢ j = λ e.
        elsewhere pool levels band queues sound side side' i i' j apart h (
          has-last_real (order_at pool) level.head (queues side i) level.tail null_order j old.queue
            e (omega (arith, (sound.home side' i' j h).0, sound.few))) in
      after j real ∙ ground (arith, not_slot, not_tail)

  linked-IsLevel : IsLevel pool' (linked_level pool level slot) (queues side i ++ slot ∷ [])
  unfolding pool'
  linked-IsLevel = record {
    queue = link-IsQueue pool level slot (queues side i) (loose side i) here.0 is_in old.queue;
    count =
        omega
          (arith, old.count, linked_count, sound.few, length-append (queues side i) (slot ∷ []));
    total =
        let same =
          total_of-kept pool pool' (queues side i ++ slot ∷ [])
            (λ j h. (linked-IsKept j (snoc_real j h)).quantity) in
        omega (arith, old.total, total_of-snoc pool (queues side i) slot, same);
  }

  other-IsLevel :
      (side' : Side) (i' : ℕ)
      → i' < length (levels side')
      → (same_side side side' && (i == i')) ≡ false
      → IsLevel pool' (level_at (levels side') i') (queues side' i')
  unfolding pool'
  other-IsLevel side' i' inside apart =
      let was : IsLevel pool (level_at (levels side') i') (queues side' i') =
        sound.level side' i' inside in
      record {
        queue =
            frame (order_at pool) (order_at pool') null_order (level_at (levels side') i').head
              (queues side' i') (level_at (levels side') i').tail null_order
              (λ j h.
                let e = untouched side' i' apart j h in (ap (λ o. o.next) e, ap (λ o. o.prev) e))
              was.queue;
        count = was.count;
        total =
            was.total
            ∙ ap (λ n. n % word64)
                (sym (
                  total_of-kept pool pool' (queues side' i')
                    (λ j h. (linked-IsKept j (kept_real side' i' j h)).quantity)));
      }

  abbrev pub linked_levels : Side → List Level
  linked_levels = with_side levels side (set (levels side) i (linked_level pool level slot))

  abbrev pub linked_queues : Queues
  linked_queues = with_queue queues side i (queues side i ++ slot ∷ [])

  snoc-IsHome : (j : ℕ) → has j (queues side i ++ slot ∷ []) ≡ true → IsHome pool band side i j
  snoc-IsHome j h = elim (ℕ_discrete j slot) [
    | yes e ↦ subst (λ t. IsHome pool band side i t) (sym e) here
    | no ne ↦ sound.home side i j (ground (arith, has-append j (queues side i) (slot ∷ [])))
  ]

  pub link-IsResting : IsResting (linked_pool pool level slot) linked_levels band linked_queues
  unfolding pool'
  link-IsResting = record {
    few = omega (arith, sound.few, length-linked_pool pool level slot);
    level = λ side' i' inside.
        rw (level_at-with_side levels side side' i i' (linked_level pool level slot) exists) (
          IsLevel-split pool' (same_side side side' && (i == i')) (linked_level pool level slot)
            (level_at (levels side') i') (queues side i ++ slot ∷ []) (queues side' i')
            linked-IsLevel
            (other-IsLevel side' i' (
              omega (
                arith,
                inside,
                length-with_side levels side side' i (linked_level pool level slot),
              ))));
    home = λ side' i' j h.
        let was =
          with_queue-IsHome pool levels band queues sound side i (queues side i ++ slot ∷ [])
            snoc-IsHome side' i' j h in
        IsHome-kept pool pool' band side' i' j (length-linked_pool pool level slot)
          (linked-IsKept j (omega (arith, was.0, sound.few))) was;
    distinct = λ side' i'.
        IsDistinct-split (same_side side side' && (i == i')) (queues side i ++ slot ∷ [])
          (queues side' i')
          (snoc-IsDistinct (queues side i) slot (sound.distinct side i) (loose side i))
          (sound.distinct side' i');
  }

  -- Slots in no queue are left alone, and stay in none.
  pub linked_loose :
      (j : ℕ)
      → j ≢ slot
      → j < length pool
      → IsLoose queues j
      → order_at (linked_pool pool level slot) j ≡ order_at pool j
  linked_loose j apart inside out =
      let not_tail : level.tail ≢ j = λ e. cc (
        sym (
          has-last_real (order_at pool) level.head (queues side i) level.tail null_order j old.queue
            e (omega (arith, inside, sound.few)))
        ∙ out side i) in
      let real : j ≢ null_order = omega (arith, inside, sound.few) in
      after j real ∙ ground (arith, not_tail, apart)

  pub linked-IsLoose : (j : ℕ) → j ≢ slot → IsLoose queues j → IsLoose linked_queues j
  linked-IsLoose j apart out side' i' = elim (Bool-cases (same_side side side' && (i == i'))) [
    | inl same ↦ rw same (ground (arith, has-append j (queues side i) (slot ∷ []), out side i))
    | inr other ↦ rw other (out side' i')
  ]
