-- ===== src/Book/Queue/Link.antt =====
-- `link_back` of orderbook/order_book.cpp on the queue of one level.
use c_low_latency_trading_sy.Prelude.{
  ℕ, ◌≤◌, ◌<◌, ◌≡◌, ◌≢◌, refl, sym, ap, ◌∙◌, arith, true, false, List, [], ◌∷◌, ◌++◌, ◌==◌,
  if◌then◌else◌, length, set, length-set, get_or-set_self, get_or-set_ne, ℕ_discrete,
}
use c_low_latency_trading_sy.Book.Types.{Order, Level, null_order, blank_order}
use c_low_latency_trading_sy.Book.Levels.{order_at, set_next, set_prev, linked_pool}
use c_low_latency_trading_sy.Book.Queue.{
  has, has-lt, IsDistinct, is_nil, IsQueue, has-last, has-tail, append, retarget, last_null,
}

pub order_at-set :
    (pool : List Order) (i j : ℕ) (o : Order)
    → i < length pool
    → order_at (set pool i o) j ≡ (if i == j then o else order_at pool j)
order_at-set pool i j o h = elim (ℕ_discrete i j) [
  | yes e ↦ ground (arith, get_or-set_self pool i o blank_order h)
  | no ne ↦ ground (arith, get_or-set_ne pool i j o blank_order ne)
]

pub order_at-set_next :
    (pool : List Order) (i j n : ℕ)
    → i < length pool
    → order_at (set_next pool i n) j
      ≡ (if i == j then record (order_at pool j) { next = n } else order_at pool j)
order_at-set_next pool i j n h =
    order_at-set pool i j (record (order_at pool i) { next = n }) h
    ∙ elim (ℕ_discrete i j) [ yes e ↦ rw e | no ne ↦ ground arith ]

pub order_at-set_prev :
    (pool : List Order) (i j p : ℕ)
    → i < length pool
    → order_at (set_prev pool i p) j
      ≡ (if i == j then record (order_at pool j) { prev = p } else order_at pool j)
order_at-set_prev pool i j p h =
    order_at-set pool i j (record (order_at pool i) { prev = p }) h
    ∙ elim (ℕ_discrete i j) [ yes e ↦ rw e | no ne ↦ ground arith ]

-- What the queue at `level` needs of the pool.
pub record IsIn (pool : List Order) (ss : List ℕ) : Type 0 where
  pub few : length pool ≤ null_order
  pub inside : (j : ℕ) → has j ss ≡ true → j < length pool
  pub distinct : IsDistinct ss

module _ (pool : List Order) (level : Level) (slot : ℕ) (real : slot < length pool) where
  -- The order at each slot, after.
  pub order_at-linked_pool :
      (j : ℕ)
      → (level.tail ≢ null_order → (level.tail < length pool) × (level.tail ≢ slot))
      → j ≢ null_order
      → order_at (linked_pool pool level slot) j ≡ (
          if slot == j
          then record (order_at pool slot) { next = null_order; prev = level.tail }
          else if level.tail == j
          then record (order_at pool j) { next = slot }
          else order_at pool j)
  order_at-linked_pool j inside ne =
      let order : Order = record (order_at pool slot) { next = null_order; prev = level.tail } in
      let placed : List Order = set pool slot order in
      let one : order_at placed j ≡ (if slot == j then order else order_at pool j) =
        order_at-set pool slot j order real in
      elim (ℕ_discrete level.tail null_order) [
        | yes e ↦
            let bare : (level.tail == null_order) ≡ true = ground arith in
            let other : (level.tail == j) ≡ false = ground arith in rw (bare, other) one
        | no some_tail ↦
            let ok = inside some_tail in
            let more : (level.tail == null_order) ≡ false = ground arith in
            let two =
              order_at-set_next placed level.tail j slot
                (omega (arith, ok.0, length-set pool slot order)) in
            rw more (two ∙ rw one (ground (arith, ok.1)))
      ]

link_on :
    (at at' : ℕ → Order) (head tail slot : ℕ) (ss : List ℕ)
    → IsQueue at head ss tail
    → IsDistinct ss
    → has slot ss ≡ false
    → slot < null_order
    → ((j : ℕ)
        → j ≢ null_order
        → at' j ≡ (
            if slot == j
            then record (at slot) { next = null_order; prev = tail }
            else if tail == j
            then record (at j) { next = slot }
            else at j))
    → IsQueue at' (if tail == null_order then slot else head) (ss ++ slot ∷ []) slot
link_on at at' head tail slot ss queue distinct free real after =
    let here : at' slot ≡ record (at slot) { next = null_order; prev = tail } =
      after slot (omega arith) ∙ ground arith in
    let there =
      λ (j : ℕ) (h : has j ss ≡ true). has-lt at null_order head ss tail null_order j queue h in
    rw (last_null at head tail ss null_order queue) (
      append at' null_order (if is_nil ss then slot else head) ss tail slot (slot ∷ []) slot
        null_order
        (retarget at at' null_order head ss tail null_order slot distinct
          (λ j h. ground (arith, after j, there j h, ap (λ x. has x ss)))
          (λ j h ne. ground (arith, after j, there j h, ap (λ x. has x ss)))
          (λ e.
            let last = has-tail at null_order head ss tail null_order queue e in
            ground (arith, after tail, last.0, last.1, ap (λ x. has x ss)))
          queue)
        (refl, real, ap (λ o. o.prev) here, (refl, sym (ap (λ o. o.next) here))))

module _ (pool : List Order) (level : Level) (slot : ℕ) (ss : List ℕ) (free : has slot ss ≡ false)
    (real : slot < length pool) (is_in : IsIn pool ss)
    (queue : IsQueue (order_at pool) level.head ss level.tail) where
  pub tail_inside : level.tail ≢ null_order → (level.tail < length pool) × (level.tail ≢ slot)
  tail_inside ne = by_slots ss queue is_in.inside free
    where
      by_slots :
          (ss' : List ℕ)
          → IsQueue (order_at pool) level.head ss' level.tail
          → ((j : ℕ) → has j ss' ≡ true → j < length pool)
          → has slot ss' ≡ false
          → (level.tail < length pool) × (level.tail ≢ slot)
      by_slots [] q inside out = absurd (ne q.0)
      by_slots (s ∷ ss') q inside out =
          let there =
            (has-last (order_at pool) null_order level.head s ss' level.tail null_order q).0 in
          (inside level.tail there, λ e. cc (sym there ∙ ap (λ t. has t (s ∷ ss')) e ∙ out))

  -- The slot is last, and the links of the others are as before.
  pub link-IsQueue :
      IsQueue
        (order_at (linked_pool pool level slot))
        (if level.tail == null_order then slot else level.head)
        (ss ++ slot ∷ [])
        slot
  link-IsQueue =
      link_on (order_at pool) (order_at (linked_pool pool level slot)) level.head level.tail slot ss
        queue is_in.distinct free (omega (arith, is_in.few))
        (λ j ne. order_at-linked_pool pool level slot real j tail_inside ne)
