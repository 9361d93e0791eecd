-- ===== src/Book/Whole/View/Round.antt =====
-- `add` of orderbook/order_book.cpp, followed by `cancel` of the same order.
use mathlib.Core.Path.{fun_ext}
use mathlib.Core.List.{append-nil, map-append}
use c_low_latency_trading_sy.Prelude.{
  ℕ, ◌-◌, ◌^◌, ◌<◌, ◌≡◌, ◌≢◌, refl, sym, ap, ap₂, subst, ◌∙◌, arith, true, ◌&&◌, List, [], ◌∷◌,
  ◌++◌, map, ◌==◌, if◌then◌else◌, length, get_or, set, Bool-cases, inl, inr,
}
use c_low_latency_trading_sy.Prelude.Int.{ℤ}
use c_low_latency_trading_sy.Message.{Side}
use c_low_latency_trading_sy.Book.Types.{
  OrderBook, Order, ok, no_level, empty_key, empty_slot, level_index,
}
use c_low_latency_trading_sy.Book.Table.{find_index, index_insert, key_at}
use c_low_latency_trading_sy.Book.Probe.{find_index-index_insert}
use c_low_latency_trading_sy.Book.Levels.{order_at, link_back, note_level_filled}
use c_low_latency_trading_sy.Book.Orders.{add, cancel, slot_at}
use c_low_latency_trading_sy.Book.Queue.{has, has-append}
use c_low_latency_trading_sy.Book.Sound.{Queues, with_queue, same_side, same_side_of_eq, same_place}
use c_low_latency_trading_sy.Book.Whole.{note_level_filled-IsRebest}
use c_low_latency_trading_sy.Book.Whole.View.{entry_at, View, with_entries, Shows}
use c_low_latency_trading_sy.Book.Whole.View.Add.{add_taken, add-Shows}
use c_low_latency_trading_sy.Book.Whole.View.Remove.{
  side_of, level_of, cancel-Shows, queues_without,
}

module _ {ℓ} {A : Type ℓ} where
  abbrev front : List A → List A
  front [] = []
  front (x ∷ []) = []
  front (x ∷ y ∷ xs) = x ∷ front (y ∷ xs)

  front-snoc : (xs : List A) (x : A) → front (xs ++ x ∷ []) ≡ xs
  front-snoc [] x = refl
  front-snoc (y ∷ []) x = refl
  front-snoc (y ∷ z ∷ xs) x = ap (λ t. y ∷ t) (front-snoc (z ∷ xs) x)

index-link :
    (b : OrderBook) (side : Side) (i slot : ℕ)
    → ((note_level_filled (link_back b i side slot) side i).index ≡ b.index)
      × ((note_level_filled (link_back b i side slot) side i).index_mask ≡ b.index_mask)
unfolding link_back
index-link b Side.buy i slot =
    let e = (note_level_filled-IsRebest (link_back b i Side.buy slot) Side.buy i).same in
    (ap (λ c. c.index) e, ap (λ c. c.index_mask) e)
index-link b Side.sell i slot =
    let e = (note_level_filled-IsRebest (link_back b i Side.sell slot) Side.sell i).same in
    (ap (λ c. c.index) e, ap (λ c. c.index_mask) e)

-- A place that is written twice is as it was, if the second write puts back what was there.
put_back :
    {A : Type 0} (f : Side → ℕ → A) (side side1 : Side) (i i1 : ℕ) (x y : A)
    → side1 ≡ side
    → i1 ≡ i
    → y ≡ f side i
    → (λ (side' : Side) (i' : ℕ).
        if same_side side1 side' && (i1 == i')
        then y
        else (if same_side side side' && (i == i') then x else f side' i'))
      ≡ f
put_back f side side1 i i1 x y e d back = fun_ext λ side'. fun_ext λ i'.
    elim (Bool-cases (same_side side side' && (i == i'))) [
      | inl same ↦
          let place = same_place side side' i i' same in
          rw (e, d, same) (back ∙ ap₂ f place.0 place.1)
      | inr apart ↦ rw (e, d, apart) refl
    ]

module _ (b : OrderBook) (queues : Queues) (slot : ℕ) (free : List ℕ) (view : View) (order_id : ℕ)
    (side : Side) (price : ℤ) (quantity : ℕ) (shows : Shows b queues (slot ∷ free) view)
    (small : quantity < 2 ^ 32) (done : (add b order_id side price quantity).1 ≡ ok) (k q : ℕ)
    (few : 2 ^ k < no_level) (mask : b.index_mask ≡ 2 ^ k - 1) (size : length b.index ≡ 2 ^ k)
    (inside : q < 2 ^ k) (bare : key_at b.index q ≡ empty_key) where
  abbrev out : OrderBook
  out = (add b order_id side price quantity).0

  abbrev i : ℕ
  i = level_index b price

  named_new : (order_id ≢ empty_key) × (find_index b.index_mask b.index order_id ≡ no_level)
  unfolding add
  named_new = (ground (arith, done), ground (arith, done))

  -- What the index of the new book is.
  indexed :
      (out.index ≡ index_insert (2 ^ k - 1) b.index order_id slot) × (out.index_mask ≡ 2 ^ k - 1)
  indexed =
      let taken = (add_taken b order_id side price quantity done).2 in
      let head : b.free_head ≡ slot = shows.sound.stored.frees.chain.0 in
      let b1 : OrderBook = record b { free_head = (order_at b.pool b.free_head).next } in
      let o : Order = record (order_at b.pool b.free_head) {
        id = order_id;
        price = price;
        quantity = quantity;
        side = side;
      } in
      let linked =
        index-link (record b1 { pool = set b.pool b.free_head o }) side (level_index b1 price)
          b.free_head in
      (
        ap (λ c. c.index) taken
            ∙ ap₂ (λ m t. index_insert m t order_id b.free_head) (linked.1 ∙ mask) linked.0
            ∙ ap (index_insert (2 ^ k - 1) b.index order_id) head,
        ap (λ c. c.index_mask) taken ∙ linked.1 ∙ mask,
      )

  abbrev queues_with : Queues
  queues_with = with_queue queues side i (queues side i ++ slot ∷ [])

  abbrev view_with : View
  view_with =
      with_entries view side i (view side i ++ record { id = order_id; quantity = quantity } ∷ [])

  shown : Shows out queues_with free view_with
  shown = add-Shows b queues slot free view order_id side price quantity shows small done

  here : (same_side side side && (i == i)) ≡ true
  here = ground (arith, same_side_of_eq side side refl)

  own_queue : queues_with side i ≡ queues side i ++ slot ∷ []
  own_queue = rw here refl

  rests : (side_of out slot ≡ side) × (level_of out slot ≡ i)
  unfolding level_index
  rests =
      let among : has slot (queues_with side i) ≡ true =
        ap (has slot) own_queue ∙ ground (arith, has-append slot (queues side i) (slot ∷ [])) in
      let home = shown.sound.stored.resting.home side i slot among in (home.1, home.2)

  split : queues_with (side_of out slot) (level_of out slot) ≡ queues side i ++ slot ∷ []
  split = ap₂ queues_with rests.0 rests.1 ∙ own_queue

  entries_back : map (entry_at out.pool) (queues side i) ++ [] ≡ view side i
  entries_back =
      let seen : map (entry_at out.pool) (queues side i ++ slot ∷ [])
          ≡ view side i ++ record { id = order_id; quantity = quantity } ∷ [] =
        ap (map (entry_at out.pool)) (sym own_queue) ∙ shown.seen side i ∙ rw here refl in
      append-nil (map (entry_at out.pool) (queues side i))
      ∙ sym (front-snoc (map (entry_at out.pool) (queues side i)) (entry_at out.pool slot))
      ∙ ap front (sym (map-append (entry_at out.pool) (queues side i) (slot ∷ [])) ∙ seen)
      ∙ front-snoc (view side i) (record { id = order_id; quantity = quantity })

  -- An order that `add` has taken can be cancelled at once, where the index has 2 ^ k slots and one of them
  -- free: `cancel` answers ok, and the book shows the orders, has the queues and the free slots that it had.
  pub add-cancel-Shows :
      ((cancel (add b order_id side price quantity).0 order_id).1 ≡ ok)
      × Shows (cancel (add b order_id side price quantity).0 order_id).0 queues (slot ∷ free) view
  add-cancel-Shows =
      let found =
        find_index-index_insert k b.index order_id slot q few size named_new.0 inside bare
          (subst (λ m. find_index m b.index order_id ≡ no_level) mask named_new.1) in
      let position : ℕ = find_index out.index_mask out.index order_id in
      let same : position
          ≡ find_index (2 ^ k - 1) (index_insert (2 ^ k - 1) b.index order_id slot) order_id =
        ap₂ (λ m t. find_index m t order_id) indexed.1 indexed.0 in
      let at : slot_at out position ≡ slot =
        ap₂ (λ t p. (get_or t p empty_slot).value) indexed.0 same ∙ found.2 in
      let cancelled =
        cancel-Shows out queues_with free view_with shown (queues side i) slot [] split order_id
          position refl (omega (arith, same, found.0)) at in
      (
        cancelled.0,
        subst (λ qs. Shows (cancel out order_id).0 qs (slot ∷ free) view)
            (put_back queues side (side_of out slot) i (level_of out slot)
              (queues side i ++ slot ∷ []) (queues side i ++ []) rests.0 rests.1
              (append-nil (queues side i)))
            (subst
              (λ v.
                Shows (cancel out order_id).0
                  (queues_without out queues_with free view_with shown (queues side i) slot []
                    split)
                  (slot ∷ free) v)
              (put_back view side (side_of out slot) i (level_of out slot)
                (view side i ++ record { id = order_id; quantity = quantity } ∷ [])
                (map (entry_at out.pool) (queues side i) ++ []) rests.0 rests.1 entries_back)
              cancelled.1),
      )
