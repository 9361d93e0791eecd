-- ===== src/Book/Sound/Count.antt =====
-- The size of a queue and the size of the pool of orderbook/order_book.cpp.
use c_low_latency_trading_sy.Prelude.{
  ℕ, zero, suc, ◌≤◌, ◌<◌, ◌≡◌, refl, ap, sym, ◌∙◌, arith, true, false, List, [], ◌∷◌, ◌==◌,
  if◌then◌else◌, length, ℕ_discrete, Bool-cases, inl, inr,
}
use c_low_latency_trading_sy.Book.Queue.{has, IsDistinct}

without : ℕ → List ℕ → List ℕ
without n [] = []
without n (s ∷ ss) = if s == n then ss else s ∷ without n ss

has-without : (n j : ℕ) (ss : List ℕ) → has j (without n ss) ≡ true → has j ss ≡ true
unfolding without
has-without n j [] h = h
has-without n j (s ∷ ss) h = ground (arith, has-without n j ss)

without_gone : (n : ℕ) (ss : List ℕ) → IsDistinct ss → has n (without n ss) ≡ false
unfolding without
without_gone n [] d = refl
without_gone n (s ∷ ss) d = elim (ℕ_discrete s n) [
  | yes e ↦ rw (← e) (ground (arith, d.0))
  | no ne ↦ ground (arith, without_gone n ss d.1)
]

without-IsDistinct : (n : ℕ) (ss : List ℕ) → IsDistinct ss → IsDistinct (without n ss)
unfolding without
without-IsDistinct n [] d = tt
without-IsDistinct n (s ∷ ss) d = elim (Bool-cases (s == n)) [
  | inl e ↦ rw (without, e) d.1
  | inr ne ↦
      rw (without, ne)
        (
          elim (Bool-cases (has s (without n ss))) [
            | inl there ↦ cc (sym (has-without n s ss there) ∙ d.0)
            | inr gone ↦ gone
          ],
          without-IsDistinct n ss d.1,
        )
]

length-without : (n : ℕ) (ss : List ℕ) → length ss ≤ suc (length (without n ss))
unfolding without
length-without n [] = omega arith
length-without n (s ∷ ss) = ground (arith, length-without n ss)

pub length-le :
    (n : ℕ) (ss : List ℕ) → IsDistinct ss → ((j : ℕ) → has j ss ≡ true → j < n) → length ss ≤ n
length-le zero [] d inside = omega arith
length-le zero (s ∷ ss) d inside = absurd (omega (arith, inside s (ground arith)))
length-le (suc n) ss d inside =
    let rest = length-le n (without n ss) (without-IsDistinct n ss d) (λ j h.
      elim (ℕ_discrete j n) [
        | yes e ↦ cc (sym h ∙ ap (λ k. has k (without n ss)) e ∙ without_gone n ss d)
        | no ne ↦ omega (arith, inside j (has-without n j ss h))
      ]) in
    omega (arith, length-without n ss, rest)
