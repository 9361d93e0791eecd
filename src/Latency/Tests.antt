-- ===== src/Latency/Tests.antt =====
-- The samples at a small capacity, and a summary with an insertion sort.
use c_low_latency_trading_sy.Prelude.{
  ℕ, zero, suc, ◌+◌, ◌-◌, ◌*◌, ◌/◌, ◌%◌, ◌≤◌, ◌<◌, ◌≡◌, refl, arith, ap, ◌∙◌, List, [], ◌∷◌, word64,
  length, get_or, take, leb, leb→le, leb→gt, Bool-cases, inl, inr, if◌then◌else◌,
}
use c_low_latency_trading_sy.Latency.{LatencySamples, reserved, summarize}
use c_low_latency_trading_sy.Latency.Facts.{
  add_all, add_all_keeps, IsOrdered, IsAscending, summarize-IsAscending,
}

abbrev three : List ℕ
three = 9 ∷ 4 ∷ 6 ∷ []

add_all_keeps_example :
    ((add_all (reserved 2) three).samples ≡ take 2 three)
    × ((add_all (reserved 2) three).dropped ≡ (length three - 2) % word64)
add_all_keeps_example = add_all_keeps 2 three

-- Insertion sort stands for `std::sort` here.
abbrev insert : ℕ → List ℕ → List ℕ
insert x [] = x ∷ []
insert x (y ∷ ys) = if leb x y then x ∷ y ∷ ys else y ∷ insert x ys

abbrev insertion_sort : List ℕ → List ℕ
insertion_sort [] = []
insertion_sort (x ∷ xs) = insert x (insertion_sort xs)

length-insert : (x : ℕ) (xs : List ℕ) → length (insert x xs) ≡ suc (length xs)
length-insert x [] = refl
length-insert x (y ∷ ys) = elim (Bool-cases (leb x y)) [
  | inl le ↦ rw (insert, le) refl
  | inr gt ↦ rw (insert, gt) (ap suc (length-insert x ys))
]

length-insertion_sort : (xs : List ℕ) → length (insertion_sort xs) ≡ length xs
length-insertion_sort [] = refl
length-insertion_sort (x ∷ xs) =
    length-insert x (insertion_sort xs) ∙ ap suc (length-insertion_sort xs)

abbrev IsBelow : ℕ → List ℕ → Type 0
IsBelow m xs = (j : ℕ) → j < length xs → m ≤ get_or xs j 0

cons-IsBelow : (m x : ℕ) (xs : List ℕ) → m ≤ x → IsBelow m xs → IsBelow m (x ∷ xs)
cons-IsBelow m x xs h all zero lt = h
cons-IsBelow m x xs h all (suc j) lt = all j (omega arith)

cons-IsOrdered : (x : ℕ) (xs : List ℕ) → IsBelow x xs → IsOrdered xs → IsOrdered (x ∷ xs)
cons-IsOrdered x xs low ord zero zero le lt = omega arith
cons-IsOrdered x xs low ord zero (suc j) le lt = low j (omega arith)
cons-IsOrdered x xs low ord (suc i) zero le lt = absurd (omega arith)
cons-IsOrdered x xs low ord (suc i) (suc j) le lt = ord i j (omega arith) (omega arith)

insert-IsBelow : (m x : ℕ) (xs : List ℕ) → m ≤ x → IsBelow m xs → IsBelow m (insert x xs)
insert-IsBelow m x [] h all = cons-IsBelow m x [] h all
insert-IsBelow m x (y ∷ ys) h all = elim (Bool-cases (leb x y)) [
  | inl le ↦ rw (insert, le) (cons-IsBelow m x (y ∷ ys) h all)
  | inr gt ↦
      rw (insert, gt)
        (cons-IsBelow m y (insert x ys) (all 0 (omega arith))
          (insert-IsBelow m x ys h (λ j lt. all (suc j) (omega arith))))
]

insert-IsOrdered : (x : ℕ) (xs : List ℕ) → IsOrdered xs → IsOrdered (insert x xs)
insert-IsOrdered x [] ord = cons-IsOrdered x [] (λ j lt. absurd (omega arith)) ord
insert-IsOrdered x (y ∷ ys) ord =
    let below : IsBelow y ys = λ j lt. ord 0 (suc j) (omega arith) (omega arith) in
    let rest : IsOrdered ys = λ i j le lt. ord (suc i) (suc j) (omega arith) (omega arith) in
    elim (Bool-cases (leb x y)) [
      | inl le ↦
          rw (insert, le)
            (cons-IsOrdered x (y ∷ ys)
              (cons-IsBelow x y ys (leb→le x y le)
                (λ j lt. omega (arith, below j lt, leb→le x y le)))
              ord)
      | inr gt ↦
          rw (insert, gt)
            (cons-IsOrdered y (insert x ys)
              (insert-IsBelow y x ys (omega (arith, leb→gt x y gt)) below)
              (insert-IsOrdered x ys rest))
    ]

insertion_sort-IsOrdered : (xs : List ℕ) → IsOrdered (insertion_sort xs)
insertion_sort-IsOrdered [] i j le lt = absurd (omega arith)
insertion_sort-IsOrdered (x ∷ xs) i j le lt =
    insert-IsOrdered x (insertion_sort xs) (insertion_sort-IsOrdered xs) i j le lt

-- The rounding in thousandths.
abbrev round_position : ℕ → ℕ → ℕ
round_position fraction last = (fraction * last + 500) / 1000

round_position_mono : (f g last : ℕ) → f ≤ g → round_position f last ≤ round_position g last
round_position_mono f g last h = grind arith

abbrev measured : LatencySamples
measured = record { samples = three; capacity = 4; dropped = 0 }

summarize-IsAscending_example : IsAscending (summarize insertion_sort round_position measured).0
summarize-IsAscending_example =
    summarize-IsAscending insertion_sort round_position insertion_sort-IsOrdered
      length-insertion_sort round_position_mono measured
