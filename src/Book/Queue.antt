-- ===== src/Book/Queue.antt =====
-- The queue of a price level: what the `next` and `prev` links of the pool lead through.
pub mod Link
pub mod Unlink
use c_low_latency_trading_sy.Prelude.{
  ℕ, zero, suc, ◌≤◌, ◌<◌, ◌≡◌, ◌≢◌, refl, sym, ap, subst, ◌∙◌, arith, Bool, true, false, ◌||◌, List,
  [], ◌∷◌, ◌++◌, ◌==◌, if◌then◌else◌, length, ℕ_discrete,
}
use c_low_latency_trading_sy.Book.Types.{Order, null_order}

abbrev pub has : ℕ → List ℕ → Bool
has s [] = false
has s (x ∷ xs) = (s == x) || has s xs

-- No slot stands twice.
abbrev pub IsDistinct : List ℕ → Type 0
IsDistinct [] = Unit {0}
IsDistinct (s ∷ ss) = (has s ss ≡ false) × IsDistinct ss

abbrev pub is_nil : List ℕ → Bool
is_nil [] = true
is_nil (s ∷ ss) = false

-- Entered at `head` from `before`, the links of the pool `at` lead through the slots and leave the last of
-- them, `last`, for `after`. With no slots, `last` is `before` and `after` is `head`.
abbrev pub Seg : (ℕ → Order) → ℕ → ℕ → List ℕ → ℕ → ℕ → Type 0
Seg at before head [] last after = (last ≡ before) × (after ≡ head)
Seg at before head (s ∷ ss) last after =
    (head ≡ s) × (s < null_order) × ((at s).prev ≡ before) × Seg at s (at s).next ss last after

pub has-append : (s : ℕ) (xs ys : List ℕ) → has s (xs ++ ys) ≡ (has s xs || has s ys)
has-append s [] ys = refl
has-append s (x ∷ xs) ys = ground (arith, has-append s xs ys)

-- The links of the slots decide.
pub frame :
    (at at' : ℕ → Order) (before head : ℕ) (ss : List ℕ) (last after : ℕ)
    → ((j : ℕ) → has j ss ≡ true → ((at' j).next ≡ (at j).next) × ((at' j).prev ≡ (at j).prev))
    → Seg at before head ss last after
    → Seg at' before head ss last after
frame at at' before head [] last after same seg = seg
frame at at' before head (s ∷ ss) last after same seg =
    let here = same s (ground arith) in
    (
      seg.0,
      seg.1,
      here.1 ∙ seg.2,
      rw here.0 (frame at at' s (at s).next ss last after (λ j h. same j (ground arith)) seg.3),
    )

pub append :
    (at : ℕ → Order) (before head : ℕ) (xs : List ℕ) (middle turn : ℕ) (ys : List ℕ)
    (last after : ℕ)
    → Seg at before head xs middle turn
    → Seg at middle turn ys last after
    → Seg at before head (xs ++ ys) last after
append at before head [] middle turn ys last after (e, f) rest = rw (← e, ← f) rest
append at before head (s ∷ xs) middle turn ys last after seg rest =
    (seg.0, seg.1, seg.2, append at s (at s).next xs middle turn ys last after seg.3 rest)

-- The parts before and after a point of a segment.
pub record Cut (at : ℕ → Order) (before head : ℕ) (xs ys : List ℕ) (last after : ℕ) : Type 0 where
  pub middle : ℕ
  pub turn : ℕ
  pub front : Seg at before head xs middle turn
  pub back : Seg at middle turn ys last after

pub cut :
    (at : ℕ → Order) (before head : ℕ) (xs ys : List ℕ) (last after : ℕ)
    → Seg at before head (xs ++ ys) last after
    → Cut at before head xs ys last after
cut at before head [] ys last after seg = record {
  middle = before;
  turn = head;
  front = (refl, refl);
  back = seg;
}
cut at before head (s ∷ xs) ys last after seg =
    let rest = cut at s (at s).next xs ys last after seg.3 in
    record {
      middle = rest.middle;
      turn = rest.turn;
      front = (seg.0, seg.1, seg.2, rest.front);
      back = rest.back;
    }

-- The last slot is one of them, and a real slot.
pub has-last :
    (at : ℕ → Order) (before head : ℕ) (s : ℕ) (ss : List ℕ) (last after : ℕ)
    → Seg at before head (s ∷ ss) last after
    → (has last (s ∷ ss) ≡ true) × (last < null_order)
has-last at before head s [] last after seg = (ground arith, omega (arith, seg.1, seg.3.0))
has-last at before head s (s' ∷ ss) last after seg =
    let rest = has-last at s (at s).next s' ss last after seg.3 in (ground arith, rest.1)

pub has-lt :
    (at : ℕ → Order) (before head : ℕ) (ss : List ℕ) (last after j : ℕ)
    → Seg at before head ss last after
    → has j ss ≡ true
    → j < null_order
has-lt at before head [] last after j seg h = cc
has-lt at before head (s ∷ ss) last after j seg h = elim (ℕ_discrete j s) [
  | yes e ↦ omega (arith, seg.1)
  | no ne ↦ has-lt at s (at s).next ss last after j seg.3 (ground arith)
]

-- A new way out of the last slot, or in place of an empty segment.
pub retarget :
    (at at' : ℕ → Order) (before head : ℕ) (ss : List ℕ) (last after after' : ℕ)
    → IsDistinct ss
    → ((j : ℕ) → has j ss ≡ true → (at' j).prev ≡ (at j).prev)
    → ((j : ℕ) → has j ss ≡ true → j ≢ last → (at' j).next ≡ (at j).next)
    → (is_nil ss ≡ false → (at' last).next ≡ after')
    → Seg at before head ss last after
    → Seg at' before (if is_nil ss then after' else head) ss last after'
retarget at at' before head [] last after after' distinct prevs nexts out seg = (seg.0, refl)
retarget at at' before head (s ∷ []) last after after' distinct prevs nexts out seg = (
  seg.0,
  seg.1,
  prevs s (ground arith) ∙ seg.2,
  (seg.3.0, sym (ap (λ j. (at' j).next) (sym seg.3.0) ∙ out refl)),
)
retarget at at' before head (s ∷ s' ∷ ss) last after after' distinct prevs nexts out seg =
    let there = has-last at s (at s).next s' ss last after seg.3 in
    let apart : s ≢ last = ground arith in
    (
      seg.0,
      seg.1,
      prevs s (ground arith) ∙ seg.2,
      rw (nexts s (ground arith) apart) (
          retarget at at' s (at s).next (s' ∷ ss) last after after' distinct.1
            (λ j h. prevs j (ground arith)) (λ j h. nexts j (ground arith)) (λ e. out refl) seg.3),
    )

-- A new way into the first slot, or past an empty segment.
pub reenter :
    (at at' : ℕ → Order) (before before' head : ℕ) (ss : List ℕ) (last after : ℕ)
    → IsDistinct ss
    → ((j : ℕ) → has j ss ≡ true → (at' j).next ≡ (at j).next)
    → ((j : ℕ) → has j ss ≡ true → j ≢ head → (at' j).prev ≡ (at j).prev)
    → (is_nil ss ≡ false → (at' head).prev ≡ before')
    → Seg at before head ss last after
    → Seg at' before' head ss (if is_nil ss then before' else last) after
reenter at at' before before' head [] last after distinct nexts prevs into seg = (refl, seg.1)
reenter at at' before before' head (s ∷ ss) last after distinct nexts prevs into seg = (
  seg.0,
  seg.1,
  ap (λ j. (at' j).prev) (sym seg.0) ∙ into refl,
  rw (nexts s (ground arith)) (
      frame at at' s (at s).next ss last after
        (λ j h. (nexts j (ground arith), prevs j (ground arith) (ground (arith, seg.0)))) seg.3),
)

-- The queue of a level, from its `head` to its `tail`.
abbrev pub IsQueue : (ℕ → Order) → ℕ → List ℕ → ℕ → Type 0
IsQueue at head ss tail = Seg at null_order head ss tail null_order

pub last_null :
    (at : ℕ → Order) (head tail : ℕ) (ss : List ℕ) (after : ℕ)
    → Seg at null_order head ss tail after
    → (tail == null_order) ≡ is_nil ss
last_null at head tail [] after q = ground (arith, q.0)
last_null at head tail (s ∷ ss) after q =
    ground (arith, (has-last at null_order head s ss tail after q).1)

pub head_null :
    (at : ℕ → Order) (before head last : ℕ) (ss : List ℕ)
    → Seg at before head ss last null_order
    → (head == null_order) ≡ is_nil ss
head_null at before head last [] q = ground (arith, q.1)
head_null at before head last (s ∷ ss) q = ground (arith, q.0, q.1)

pub has-tail :
    (at : ℕ → Order) (before head : ℕ) (ss : List ℕ) (last after : ℕ)
    → Seg at before head ss last after
    → is_nil ss ≡ false
    → (has last ss ≡ true) × (last < null_order)
has-tail at before head [] last after q e = cc
has-tail at before head (s ∷ ss) last after q e = has-last at before head s ss last after q

pub has-head :
    (at : ℕ → Order) (before head : ℕ) (ss : List ℕ) (last after : ℕ)
    → Seg at before head ss last after
    → is_nil ss ≡ false
    → has head ss ≡ true
has-head at before head [] last after q e = cc
has-head at before head (s ∷ ss) last after q e = ground (arith, q.0)

-- A real slot at which a segment starts, or ends, is one of its slots.
pub has-first_real :
    (at : ℕ → Order) (before head : ℕ) (ss : List ℕ) (last j : ℕ)
    → Seg at before head ss last null_order
    → head ≡ j
    → j < null_order
    → has j ss ≡ true
has-first_real at before head [] last j q e h = absurd (omega (arith, q.1))
has-first_real at before head (s ∷ ss) last j q e h = ground (arith, q.0)

pub has-last_real :
    (at : ℕ → Order) (head : ℕ) (ss : List ℕ) (last after j : ℕ)
    → Seg at null_order head ss last after
    → last ≡ j
    → j < null_order
    → has j ss ≡ true
has-last_real at head [] last after j q e h = absurd (omega (arith, q.0))
has-last_real at head (s ∷ ss) last after j q e h =
    subst (λ t. has t (s ∷ ss) ≡ true) e (has-last at null_order head s ss last after q).0

-- What a list of slots without repetition gives at one of them.
pub record Around (xs : List ℕ) (slot : ℕ) (ys : List ℕ) : Type 0 where
  pub front : IsDistinct xs
  pub back : IsDistinct ys
  pub whole : IsDistinct (xs ++ ys)
  pub not_in_front : has slot xs ≡ false
  pub not_in_back : has slot ys ≡ false
  pub apart : (j : ℕ) → has j xs ≡ true → has j ys ≡ false

pub around :
    (xs : List ℕ) (slot : ℕ) (ys : List ℕ) → IsDistinct (xs ++ slot ∷ ys) → Around xs slot ys
around [] slot ys d = record {
  front = tt;
  back = d.1;
  whole = d.1;
  not_in_front = refl;
  not_in_back = d.0;
  apart = λ j h. cc;
}
around (x ∷ xs) slot ys d =
    let rest = around xs slot ys d.1 in
    let out : has x (xs ++ slot ∷ ys) ≡ false = d.0 in
    record {
      front = (ground (arith, has-append x xs (slot ∷ ys)), rest.front);
      back = rest.back;
      whole = (ground (arith, has-append x xs (slot ∷ ys), has-append x xs ys), rest.whole);
      not_in_front = ground (arith, has-append x xs (slot ∷ ys), rest.not_in_front);
      not_in_back = rest.not_in_back;
      apart = λ j h. elim (ℕ_discrete j x) [
        | yes e ↦ rw e (ground (arith, has-append x xs (slot ∷ ys)))
        | no ne ↦ rest.apart j (ground arith)
      ];
    }
