-- ===== src/Book/Sound/Shrink.antt =====
-- The writes of orderbook/order_book.cpp that lower a quantity in place, on the levels of a book.
use c_low_latency_trading_sy.Prelude.{
  ℕ, ◌+◌, ◌-◌, ◌%◌, ◌≤◌, ◌<◌, ◌≡◌, ◌≢◌, sym, ap, ap₂, subst, ◌∙◌, arith, word64, sub64, true, false,
  ◌&&◌, List, ◌∷◌, ◌++◌, ◌==◌, if◌then◌else◌, length, set, length-set, Bool-cases, inl, inr,
  ℕ_discrete,
}
use c_low_latency_trading_sy.Message.{Side}
use c_low_latency_trading_sy.Book.Types.{Order, Level, null_order}
use c_low_latency_trading_sy.Book.Levels.{order_at, level_at}
use c_low_latency_trading_sy.Book.Queue.{has, has-append, IsDistinct, frame, around}
use c_low_latency_trading_sy.Book.Queue.Link.{order_at-set}
use c_low_latency_trading_sy.Book.Sound.{
  Queues, same_side, same_place, with_side, level_at-with_side, length-with_side, total_of,
  total_of-kept, IsLevel, Band, IsHome, IsResting, elsewhere,
}
use c_low_latency_trading_sy.Book.Sound.Unlink.{total_of-around}

module _ (pool : List Order) (levels : Side → List Level) (band : Band) (queues : Queues)
    (sound : IsResting pool levels band queues) (side : Side) (i : ℕ) (xs : List ℕ) (slot : ℕ)
    (ys : List ℕ) (split : queues side i ≡ xs ++ slot ∷ ys) (exists : i < length (levels side))
    (taken : ℕ) (less : taken ≤ (order_at pool slot).quantity) where
  abbrev order : Order
  order = order_at pool slot

  abbrev pub shrunk_pool : List Order
  shrunk_pool = set pool slot (record order { quantity = order.quantity - taken })

  abbrev pub shrunk_level : Level
  shrunk_level =
      let level = level_at (levels side) i in
      record level { total_quantity = sub64 level.total_quantity taken }

  among : has slot (queues side i) ≡ true
  among = ap (λ ss. has slot ss) split ∙ ground (arith, has-append slot xs (slot ∷ ys))

  home : IsHome pool band side i slot
  home = sound.home side i slot among

  after :
      (j : ℕ)
      → order_at shrunk_pool j ≡ (
          if slot == j then record order { quantity = order.quantity - taken } else order_at pool j)
  after j = order_at-set pool slot j (record order { quantity = order.quantity - taken }) home.0

  -- All but the quantity of the one order is as before.
  pub shrunk_rest :
      (j : ℕ)
      → ((order_at shrunk_pool j).id ≡ (order_at pool j).id)
        × ((order_at shrunk_pool j).side ≡ (order_at pool j).side)
        × ((order_at shrunk_pool j).price ≡ (order_at pool j).price)
        × ((order_at shrunk_pool j).next ≡ (order_at pool j).next)
        × ((order_at shrunk_pool j).prev ≡ (order_at pool j).prev)
        × ((order_at shrunk_pool j).quantity ≤ (order_at pool j).quantity)
  shrunk_rest j = elim (ℕ_discrete slot j) [
    | yes e ↦
        subst
          (λ k.
            ((order_at shrunk_pool k).id ≡ (order_at pool k).id)
            × ((order_at shrunk_pool k).side ≡ (order_at pool k).side)
            × ((order_at shrunk_pool k).price ≡ (order_at pool k).price)
            × ((order_at shrunk_pool k).next ≡ (order_at pool k).next)
            × ((order_at shrunk_pool k).prev ≡ (order_at pool k).prev)
            × ((order_at shrunk_pool k).quantity ≤ (order_at pool k).quantity))
          e
          (let same : order_at shrunk_pool slot
                ≡ record order { quantity = order.quantity - taken } =
              after slot ∙ ground arith in
            (
              ap (λ o. o.id) same,
              ap (λ o. o.side) same,
              ap (λ o. o.price) same,
              ap (λ o. o.next) same,
              ap (λ o. o.prev) same,
              omega (arith, ap (λ o. o.quantity) same),
            ))
    | no ne ↦
        let same : order_at shrunk_pool j ≡ order_at pool j = after j ∙ ground arith in
        (
          ap (λ o. o.id) same,
          ap (λ o. o.side) same,
          ap (λ o. o.price) same,
          ap (λ o. o.next) same,
          ap (λ o. o.prev) same,
          omega (arith, ap (λ o. o.quantity) same),
        )
  ]

  pub shrunk_other : (j : ℕ) → slot ≢ j → order_at shrunk_pool j ≡ order_at pool j
  shrunk_other j ne = after j ∙ ground arith

  pub shrunk_quantity : (order_at shrunk_pool slot).quantity ≡ order.quantity - taken
  shrunk_quantity = ap (λ o. o.quantity) (after slot) ∙ ground arith

  total_less : total_of pool (queues side i) ≡ total_of shrunk_pool (queues side i) + taken
  total_less =
      let apart = around xs slot ys (subst (λ ss. IsDistinct ss) split (sound.distinct side i)) in
      let out : has slot (xs ++ ys) ≡ false =
        ground (arith, has-append slot xs ys, apart.not_in_front, apart.not_in_back) in
      let same = total_of-kept pool shrunk_pool (xs ++ ys) (λ j h.
        ap (λ o. o.quantity)
          (shrunk_other j (λ e. cc (sym h ∙ ap (λ k. has k (xs ++ ys)) (sym e) ∙ out)))) in
      omega (
        arith,
        ap (total_of pool) split,
        ap (total_of shrunk_pool) split,
        total_of-around pool xs slot ys,
        total_of-around shrunk_pool xs slot ys,
        same,
        shrunk_quantity,
      )

  shrunk-IsLevel : IsLevel shrunk_pool shrunk_level (queues side i)
  shrunk-IsLevel =
      let was : IsLevel pool (level_at (levels side) i) (queues side i) =
        sound.level side i exists in
      record {
        queue =
            frame (order_at pool) (order_at shrunk_pool) null_order (level_at (levels side) i).head
              (queues side i) (level_at (levels side) i).tail null_order
              (λ j h. ((shrunk_rest j).3, (shrunk_rest j).4)) was.queue;
        count = was.count;
        total = omega (arith, was.total, total_less, home.4);
      }

  other-IsLevel :
      (side' : Side) (i' : ℕ)
      → i' < length (levels side')
      → (same_side side side' && (i == i')) ≡ false
      → IsLevel shrunk_pool (level_at (levels side') i') (queues side' i')
  other-IsLevel side' i' inside apart =
      let was : IsLevel pool (level_at (levels side') i') (queues side' i') =
        sound.level side' i' inside in
      record {
        queue =
            frame (order_at pool) (order_at shrunk_pool) null_order
              (level_at (levels side') i').head (queues side' i') (level_at (levels side') i').tail
              null_order (λ j h. ((shrunk_rest j).3, (shrunk_rest j).4)) was.queue;
        count = was.count;
        total =
            was.total
            ∙ ap (λ n. n % word64)
                (sym (
                  total_of-kept pool shrunk_pool (queues side' i') (λ j h.
                    ap (λ o. o.quantity)
                      (shrunk_other j (λ e.
                        elsewhere pool levels band queues sound side side' i i' slot apart
                          (ap (λ k. has k (queues side' i')) e ∙ h) among)))));
      }

  pub shrink-IsResting :
      IsResting shrunk_pool (with_side levels side (set (levels side) i shrunk_level)) band queues
  shrink-IsResting = record {
    few = omega (
      arith,
      sound.few,
      length-set pool slot (record order { quantity = order.quantity - taken }),
    );
    level = λ side' i' inside. rw (level_at-with_side levels side side' i i' shrunk_level exists) (
        by_place side' i'
          (omega (arith, inside, length-with_side levels side side' i shrunk_level)));
    home = λ side' i' j h.
        let was = sound.home side' i' j h in
        let rest = shrunk_rest j in
        (
          omega (
            arith,
            was.0,
            length-set pool slot (record order { quantity = order.quantity - taken }),
          ),
          rest.1 ∙ was.1,
          ap band.level_of rest.2 ∙ was.2,
          ap band.is_inside rest.2 ∙ was.3,
          omega (arith, rest.5, was.4),
        );
    distinct = sound.distinct;
  }
    where
      by_place :
          (side' : Side) (i' : ℕ)
          → i' < length (levels side')
          → IsLevel shrunk_pool
              (if same_side side side' && (i == i')
                then shrunk_level
                else level_at (levels side') i')
              (queues side' i')
      by_place side' i' inside = elim (Bool-cases (same_side side side' && (i == i'))) [
        | inl same ↦
            let place = same_place side side' i i' same in
            rw same (
              subst (λ ss. IsLevel shrunk_pool shrunk_level ss) (ap₂ queues place.0 place.1)
                shrunk-IsLevel)
        | inr apart ↦ rw apart (other-IsLevel side' i' inside apart)
      ]
