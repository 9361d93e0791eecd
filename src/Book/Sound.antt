-- ===== src/Book/Sound.antt =====
-- The levels and the pool of orderbook/order_book.cpp: each level with the queue of its orders.
pub mod Count
pub mod Frame
pub mod Link
pub mod Shrink
pub mod Unlink
use c_low_latency_trading_sy.Prelude.{
  ℕ, zero, suc, ◌+◌, ◌^◌, ◌%◌, ◌≤◌, ◌<◌, ◌≡◌, ◌≢◌, refl, arith, word64, Bool, true, false, ◌&&◌,
  List, [], ◌∷◌, ◌++◌, ◌==◌, if◌then◌else◌, length, length-set, set, get_or-set_self, get_or-set_ne,
  ℕ_discrete, Bool-cases, inl, inr, sym, ap, ◌∙◌,
}
use c_low_latency_trading_sy.Prelude.Int.{ℤ}
use c_low_latency_trading_sy.Message.{Side}
use c_low_latency_trading_sy.Book.Types.{Order, Level, OrderBook, null_order, empty_level}
use c_low_latency_trading_sy.Book.Levels.{order_at, level_at}
use c_low_latency_trading_sy.Book.Queue.{has, IsDistinct, IsQueue}

-- The slots at each level, those that came first in front.
abbrev pub Queues : Type 0
Queues = Side → ℕ → List ℕ

abbrev pub same_side : Side → Side → Bool
same_side Side.buy Side.buy = true
same_side Side.buy Side.sell = false
same_side Side.sell Side.buy = false
same_side Side.sell Side.sell = true

abbrev pub with_queue : Queues → Side → ℕ → List ℕ → Queues
with_queue queues side i ss side' i' =
    if same_side side side' && (i == i') then ss else queues side' i'

level_at-set :
    (levels : List Level) (i i' : ℕ) (l : Level)
    → i < length levels
    → level_at (set levels i l) i' ≡ (if i == i' then l else level_at levels i')
level_at-set levels i i' l h = elim (ℕ_discrete i i') [
  | yes e ↦ ground (arith, get_or-set_self levels i l empty_level h)
  | no ne ↦ ground (arith, get_or-set_ne levels i i' l empty_level ne)
]

abbrev pub with_side : (Side → List Level) → Side → List Level → Side → List Level
with_side levels side ls side' = if same_side side side' then ls else levels side'

pub same_side_of_eq : (a b : Side) → a ≡ b → same_side a b ≡ true
same_side_of_eq Side.buy Side.buy e = refl
same_side_of_eq Side.buy Side.sell e = ground arith
same_side_of_eq Side.sell Side.buy e = ground arith
same_side_of_eq Side.sell Side.sell e = refl

-- One level is written.
pub level_at-with_side :
    (levels : Side → List Level) (side side' : Side) (i i' : ℕ) (l : Level)
    → i < length (levels side)
    → level_at (with_side levels side (set (levels side) i l) side') i'
      ≡ (if same_side side side' && (i == i') then l else level_at (levels side') i')
level_at-with_side levels Side.buy Side.buy i i' l h = level_at-set (levels Side.buy) i i' l h
level_at-with_side levels Side.buy Side.sell i i' l h = refl
level_at-with_side levels Side.sell Side.buy i i' l h = refl
level_at-with_side levels Side.sell Side.sell i i' l h = level_at-set (levels Side.sell) i i' l h

pub length-with_side :
    (levels : Side → List Level) (side side' : Side) (i : ℕ) (l : Level)
    → length (with_side levels side (set (levels side) i l) side') ≡ length (levels side')
length-with_side levels Side.buy Side.buy i l = length-set (levels Side.buy) i l
length-with_side levels Side.buy Side.sell i l = refl
length-with_side levels Side.sell Side.buy i l = refl
length-with_side levels Side.sell Side.sell i l = length-set (levels Side.sell) i l

-- The quantity of some slots.
abbrev pub total_of : List Order → List ℕ → ℕ
total_of pool [] = 0
total_of pool (s ∷ ss) = (order_at pool s).quantity + total_of pool ss

pub record IsLevel (pool : List Order) (level : Level) (ss : List ℕ) : Type 0 where
  pub queue : IsQueue (order_at pool) level.head ss level.tail
  pub count : level.order_count ≡ length ss
  pub total : level.total_quantity ≡ total_of pool ss % word64

-- The bounds of a book: `level_of` numbers the prices for which `is_inside` holds.
pub record Band : Type 0 where
  pub level_of : ℤ → ℕ
  pub is_inside : ℤ → Bool

-- An order that rests at a level says so.
abbrev pub IsHome : List Order → Band → Side → ℕ → ℕ → Type 0
IsHome pool band side i s =
    (s < length pool)
    × ((order_at pool s).side ≡ side)
    × (band.level_of (order_at pool s).price ≡ i)
    × (band.is_inside (order_at pool s).price ≡ true)
    × ((order_at pool s).quantity < 2 ^ 32)

pub record IsResting (pool : List Order) (levels : Side → List Level) (band : Band)
    (queues : Queues) : Type 0 where
  pub few : length pool ≤ null_order
  pub level :
      (side : Side) (i : ℕ)
      → i < length (levels side)
      → IsLevel pool (level_at (levels side) i) (queues side i)
  pub home : (side : Side) (i s : ℕ) → has s (queues side i) ≡ true → IsHome pool band side i s
  pub distinct : (side : Side) (i : ℕ) → IsDistinct (queues side i)

-- In no queue.
abbrev pub IsLoose : Queues → ℕ → Type 0
IsLoose queues s = (side : Side) (i : ℕ) → has s (queues side i) ≡ false

-- What the orders carry besides their links.
pub record IsKept (at at' : ℕ → Order) (s : ℕ) : Type 0 where
  pub id : (at' s).id ≡ (at s).id
  pub price : (at' s).price ≡ (at s).price
  pub quantity : (at' s).quantity ≡ (at s).quantity
  pub side : (at' s).side ≡ (at s).side

pub total_of-kept :
    (pool pool' : List Order) (ss : List ℕ)
    → ((j : ℕ) → has j ss ≡ true → (order_at pool' j).quantity ≡ (order_at pool j).quantity)
    → total_of pool' ss ≡ total_of pool ss
total_of-kept pool pool' [] kept = refl
total_of-kept pool pool' (s ∷ ss) kept =
    omega (arith, kept s (ground arith), total_of-kept pool pool' ss (λ j h. kept j (ground arith)))

-- A slot of one queue is in no other.
pub elsewhere :
    (pool : List Order) (levels : Side → List Level) (band : Band) (queues : Queues)
    → IsResting pool levels band queues
    → (side side' : Side) (i i' j : ℕ) → (same_side side side' && (i == i')) ≡ false
    → has j (queues side' i') ≡ true
    → has j (queues side i) ≡ true
    → ⊥
elsewhere pool levels band queues sound side side' i i' j apart there here =
    let h = sound.home side i j here in
    let h' = sound.home side' i' j there in
    ground (arith, same_side_of_eq side side' (sym h.1 ∙ h'.1), h.2, h'.2)

pub IsLevel-split :
    (pool : List Order) (c : Bool) (l l' : Level) (ss ss' : List ℕ)
    → IsLevel pool l ss
    → (c ≡ false → IsLevel pool l' ss')
    → IsLevel pool (if c then l else l') (if c then ss else ss')
IsLevel-split pool true l l' ss ss' here other = here
IsLevel-split pool false l l' ss ss' here other = other refl

pub IsDistinct-split :
    (c : Bool) (ss ss' : List ℕ)
    → IsDistinct ss
    → IsDistinct ss'
    → IsDistinct (if c then ss else ss')
IsDistinct-split true ss ss' d d' = d
IsDistinct-split false ss ss' d d' = d'

eq_of_same_side : (a b : Side) → same_side a b ≡ true → a ≡ b
eq_of_same_side Side.buy Side.buy e = refl
eq_of_same_side Side.buy Side.sell e = cc
eq_of_same_side Side.sell Side.buy e = cc
eq_of_same_side Side.sell Side.sell e = refl

pub same_place : (a b : Side) (i j : ℕ) → (same_side a b && (i == j)) ≡ true → (a ≡ b) × (i ≡ j)
same_place a b i j e = (eq_of_same_side a b (ground arith), ground arith)

pub IsHome-kept :
    (pool pool' : List Order) (band : Band) (side : Side) (i s : ℕ)
    → length pool' ≡ length pool
    → IsKept (order_at pool) (order_at pool') s
    → IsHome pool band side i s
    → IsHome pool' band side i s
IsHome-kept pool pool' band side i s size kept home = (
  omega (arith, size, home.0),
  kept.side ∙ home.1,
  ap band.level_of kept.price ∙ home.2,
  ap band.is_inside kept.price ∙ home.3,
  omega (arith, kept.quantity, home.4),
)

-- A slot of the queues, one of which is replaced, is at home if it is in the new queue or the others.
pub with_queue-IsHome :
    (pool : List Order) (levels : Side → List Level) (band : Band) (queues : Queues)
    → IsResting pool levels band queues
    → (side : Side) (i : ℕ) (ss : List ℕ) → ((j : ℕ) → has j ss ≡ true → IsHome pool band side i j)
    → (side' : Side) (i' j : ℕ) → has j (with_queue queues side i ss side' i') ≡ true
    → IsHome pool band side' i' j
with_queue-IsHome pool levels band queues sound side i ss homes side' i' j h =
    elim (Bool-cases (same_side side side' && (i == i'))) [
      | inl same ↦
          let place = same_place side side' i i' same in
          let home = homes j (rw same at h) in
          (home.0, home.1 ∙ place.0, home.2 ∙ place.1, home.3, home.4)
      | inr apart ↦ sound.home side' i' j (rw apart at h)
    ]
