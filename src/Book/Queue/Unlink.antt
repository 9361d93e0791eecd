-- ===== src/Book/Queue/Unlink.antt =====
-- `unlink` of orderbook/order_book.cpp on the queue of one level.
use c_low_latency_trading_sy.Prelude.{
  ℕ, ◌<◌, ◌≡◌, ◌≢◌, sym, ap, ◌∙◌, arith, true, false, List, ◌∷◌, ◌++◌, ◌==◌, if◌then◌else◌, length,
  length-set, ℕ_discrete,
}
use c_low_latency_trading_sy.Book.Types.{Order, null_order}
use c_low_latency_trading_sy.Book.Levels.{order_at, set_next, set_prev, unlinked_pool}
use c_low_latency_trading_sy.Book.Queue.{
  has, has-lt, has-append, IsDistinct, is_nil, IsQueue, has-tail, has-head, append, cut, retarget,
  reenter, last_null, head_null, has-first_real, has-last_real, around,
}
use c_low_latency_trading_sy.Book.Queue.Link.{IsIn, order_at-set_next, order_at-set_prev}

-- The links of a slot once its neighbours at `slot` are joined.
abbrev pub joined : (ℕ → Order) → ℕ → ℕ → Order
joined at slot j = record (at j) {
  next = if (at slot).prev == j then (at slot).next else (at j).next;
  prev = if (at slot).next == j then (at slot).prev else (at j).prev;
}

unlink_on :
    (at at' : ℕ → Order) (head tail : ℕ) (xs : List ℕ) (slot : ℕ) (ys : List ℕ)
    → IsQueue at head (xs ++ slot ∷ ys) tail
    → IsDistinct (xs ++ slot ∷ ys)
    → ((j : ℕ) → j ≢ null_order → at' j ≡ joined at slot j)
    → IsQueue at'
        (if (at slot).prev == null_order then (at slot).next else head)
        (xs ++ ys)
        (if (at slot).next == null_order then (at slot).prev else tail)
unlink_on at at' head tail xs slot ys queue distinct after =
    let parts = cut at null_order head xs (slot ∷ ys) tail null_order queue in
    let apart = around xs slot ys distinct in
    let back = parts.back in
    let q : ℕ = parts.middle in
    let n : ℕ = (at slot).next in
    let before : (at slot).prev ≡ q = back.2 in
    let no_front : (q == null_order) ≡ is_nil xs = last_null at head q xs parts.turn parts.front in
    let no_back : (n == null_order) ≡ is_nil ys = head_null at slot n tail ys back.3 in
    let in_front =
      λ (j : ℕ) (h : has j xs ≡ true). has-lt at null_order head xs q parts.turn j parts.front h in
    let in_back = λ (j : ℕ) (h : has j ys ≡ true). has-lt at slot n ys tail null_order j back.3 h in
    let next_out = λ (j : ℕ) (h : has j xs ≡ true) (e : n ≡ j).
      has-first_real at slot n ys tail j back.3 e (in_front j h) in
    let prev_out = λ (j : ℕ) (h : has j ys ≡ true) (e : q ≡ j).
      has-last_real at head xs q parts.turn j parts.front e (in_back j h) in
    rw (before, no_front, no_back)
      (append at' null_order (if is_nil xs then n else head) xs q n ys
        (if is_nil ys then q else tail) null_order
        (retarget at at' null_order head xs q parts.turn n apart.front
          (λ j h. ground (arith, after j, in_front j h, next_out j h, apart.apart j h))
          (λ j h ne. ground (arith, after j, in_front j h, before))
          (λ e.
            ground (
              arith,
              after q,
              (has-tail at null_order head xs q parts.turn parts.front e).1,
              before,
            ))
          parts.front)
        (reenter at at' slot q n ys tail null_order apart.back
          (λ j h. ground (arith, after j, in_back j h, prev_out j h, apart.apart j, before))
          (λ j h ne. ground (arith, after j, in_back j h))
          (λ e. ground (arith, after n, no_back, before)) back.3))

-- The two writes, each where there is a neighbour on that side.
abbrev join_next : List Order → Order → List Order
join_next pool o = if o.prev == null_order then pool else set_next pool o.prev o.next

abbrev join_prev : List Order → Order → List Order
join_prev pool o = if o.next == null_order then pool else set_prev pool o.next o.prev

order_at-join_next :
    (pool : List Order) (o : Order) (j : ℕ)
    → (o.prev ≢ null_order → o.prev < length pool)
    → j ≢ null_order
    → order_at (join_next pool o) j
      ≡ record (order_at pool j) { next = if o.prev == j then o.next else (order_at pool j).next }
order_at-join_next pool o j inside ne = elim (ℕ_discrete o.prev null_order) [
  | yes e ↦
      let first : (o.prev == null_order) ≡ true = ground arith in
      let other : (o.prev == j) ≡ false = ground arith in rw (first, other)
  | no more ↦
      let some_prev : (o.prev == null_order) ≡ false = ground arith in
      rw some_prev (order_at-set_next pool o.prev j o.next (inside more) ∙ ground arith)
]

order_at-join_prev :
    (pool : List Order) (o : Order) (j : ℕ)
    → (o.next ≢ null_order → o.next < length pool)
    → j ≢ null_order
    → order_at (join_prev pool o) j
      ≡ record (order_at pool j) { prev = if o.next == j then o.prev else (order_at pool j).prev }
order_at-join_prev pool o j inside ne = elim (ℕ_discrete o.next null_order) [
  | yes e ↦
      let last : (o.next == null_order) ≡ true = ground arith in
      let other : (o.next == j) ≡ false = ground arith in rw (last, other)
  | no more ↦
      let some_next : (o.next == null_order) ≡ false = ground arith in
      rw some_next (order_at-set_prev pool o.next j o.prev (inside more) ∙ ground arith)
]

length-join_next : (pool : List Order) (o : Order) → length (join_next pool o) ≡ length pool
length-join_next pool o =
    ground (arith, length-set pool o.prev (record (order_at pool o.prev) { next = o.next }))

length-join_prev : (pool : List Order) (o : Order) → length (join_prev pool o) ≡ length pool
length-join_prev pool o =
    ground (arith, length-set pool o.next (record (order_at pool o.next) { prev = o.prev }))

-- A neighbour, where there is one: in the pool, and another slot.
abbrev pub IsNeighbour : List Order → ℕ → ℕ → Type 0
IsNeighbour pool slot n = n ≢ null_order → (n < length pool) × (n ≢ slot)

module _ (pool : List Order) (slot : ℕ) where
  pub length-unlinked_pool : length (unlinked_pool pool slot) ≡ length pool
  length-unlinked_pool =
      let before : List Order = join_next pool (order_at pool slot) in
      length-join_prev before (order_at before slot) ∙ length-join_next pool (order_at pool slot)

  pub order_at-unlinked_pool :
      slot ≢ null_order
      → IsNeighbour pool slot (order_at pool slot).prev
      → IsNeighbour pool slot (order_at pool slot).next
      → (j : ℕ) → j ≢ null_order
      → order_at (unlinked_pool pool slot) j ≡ joined (order_at pool) slot j
  order_at-unlinked_pool real prev_in next_in j ne =
      let o : Order = order_at pool slot in
      let before : List Order = join_next pool o in
      let at_before =
        λ (i : ℕ) (h : i ≢ null_order). order_at-join_next pool o i (λ m. (prev_in m).0) h in
      let here : order_at before slot ≡ o = at_before slot real ∙ ground arith in
      let fits : o.next ≢ null_order → o.next < length before =
        λ m. omega (arith, (next_in m).0, length-join_next pool o) in
      rw here (order_at-join_prev before o j fits ne ∙ rw (at_before j ne))

module _ (pool : List Order) (head tail : ℕ) (xs : List ℕ) (slot : ℕ) (ys : List ℕ)
    (is_in : IsIn pool (xs ++ slot ∷ ys))
    (queue : IsQueue (order_at pool) head (xs ++ slot ∷ ys) tail) where
  pub real_slot : slot < length pool
  real_slot = is_in.inside slot (ground (arith, has-append slot xs (slot ∷ ys)))

  -- Both neighbours, where there are any, are in the queue beside the slot.
  prev_in : (order_at pool slot).prev ≢ null_order → has (order_at pool slot).prev xs ≡ true
  prev_in some_prev =
      let parts = cut (order_at pool) null_order head xs (slot ∷ ys) tail null_order queue in
      let same : (order_at pool slot).prev ≡ parts.middle = parts.back.2 in
      let bare = last_null (order_at pool) head parts.middle xs parts.turn parts.front in
      rw same
        (has-tail (order_at pool) null_order head xs parts.middle parts.turn parts.front
          (ground (arith, bare, same))).0

  next_in : (order_at pool slot).next ≢ null_order → has (order_at pool slot).next ys ≡ true
  next_in some_next =
      let parts = cut (order_at pool) null_order head xs (slot ∷ ys) tail null_order queue in
      let n : ℕ = (order_at pool slot).next in
      let bare = head_null (order_at pool) slot n tail ys parts.back.3 in
      has-head (order_at pool) slot n ys tail null_order parts.back.3 (ground (arith, bare))

  pub prev_among :
      (order_at pool slot).prev ≢ null_order
      → has (order_at pool slot).prev (xs ++ slot ∷ ys) ≡ true
  prev_among m = ground (arith, has-append (order_at pool slot).prev xs (slot ∷ ys), prev_in m)

  pub next_among :
      (order_at pool slot).next ≢ null_order
      → has (order_at pool slot).next (xs ++ slot ∷ ys) ≡ true
  next_among m = ground (arith, has-append (order_at pool slot).next xs (slot ∷ ys), next_in m)

  prev-IsNeighbour : IsNeighbour pool slot (order_at pool slot).prev
  prev-IsNeighbour m = (
    is_in.inside (order_at pool slot).prev (prev_among m),
    λ e.
        cc (
          sym (prev_in m) ∙ ap (λ j. has j xs) e ∙ (around xs slot ys is_in.distinct).not_in_front),
  )

  next-IsNeighbour : IsNeighbour pool slot (order_at pool slot).next
  next-IsNeighbour m = (
    is_in.inside (order_at pool slot).next (next_among m),
    λ e.
        cc
          (sym (next_in m) ∙ ap (λ j. has j ys) e ∙ (around xs slot ys is_in.distinct).not_in_back),
  )

  pub order_at-unlinked :
      (j : ℕ)
      → j ≢ null_order
      → order_at (unlinked_pool pool slot) j ≡ joined (order_at pool) slot j
  order_at-unlinked j ne =
      order_at-unlinked_pool pool slot (omega (arith, real_slot, is_in.few)) prev-IsNeighbour
        next-IsNeighbour j ne

  -- The slot is out, and the others follow one another as before.
  pub unlink-IsQueue :
      IsQueue
        (order_at (unlinked_pool pool slot))
        (if (order_at pool slot).prev == null_order then (order_at pool slot).next else head)
        (xs ++ ys)
        (if (order_at pool slot).next == null_order then (order_at pool slot).prev else tail)
  unlink-IsQueue =
      unlink_on (order_at pool) (order_at (unlinked_pool pool slot)) head tail xs slot ys queue
        is_in.distinct order_at-unlinked
