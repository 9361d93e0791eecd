-- ===== src/Book/Best/Bid.antt =====
-- The best bid of orderbook/order_book.cpp, as the levels of the bids change.
use c_low_latency_trading_sy.Prelude.{
  ℕ, ◌<◌, ◌≡◌, subst, ◌∙◌, ◌||◌, List, arith, ltb, ltb→lt, ltb→ge, ◌==◌, if◌then◌else◌, length,
  length-set, set, inl, inr, Bool-cases, ℕ_discrete, dec_lt,
}
use c_low_latency_trading_sy.Book.Types.{Level, no_level}
use c_low_latency_trading_sy.Book.Levels.{scan_down}
use c_low_latency_trading_sy.Book.Best.{
  count_at, IsBestBid, count-set_self, count-set_ne, scan_down_lem,
}

-- One side, its level `i` replaced by `l`.
module _ (levels : List Level) (best i : ℕ) (l : Level) (few : length levels < no_level)
    (inside : i < length levels) where
  same_size : length (set levels i l) ≡ length levels
  same_size = length-set levels i l

  pub link-IsBestBid :
      0 < l.order_count
      → IsBestBid levels best
      → IsBestBid (set levels i l) (if best == no_level || ltb best i then i else best)
  link-IsBestBid filled (inl (e, none_other)) = rw (e) (
      inr (
        omega (arith, same_size),
        rw (count-set_self levels i l inside) filled,
        λ j lo. count-set_ne levels i j l (omega arith) ∙ none_other j,
      ))
  link-IsBestBid filled (inr (lt, pos, above)) = elim (Bool-cases (ltb best i)) [
    | inl higher ↦
        let pick : (if best == no_level || ltb best i then i else best) ≡ i = ground arith in
        rw pick (
          inr (
            omega (arith, same_size),
            rw (count-set_self levels i l inside) filled,
            λ j lo.
                count-set_ne levels i j l (omega arith)
                ∙ above j (omega (arith, ltb→lt best i higher)),
          ))
    | inr lower ↦
        let pick : (if best == no_level || ltb best i then i else best) ≡ best = ground arith in
        rw pick (
          inr (
            omega (arith, same_size),
            elim (ℕ_discrete i best) [
              | yes e ↦
                  subst (λ u. 0 < count_at (set levels i l) u) e
                    (rw (count-set_self levels i l inside) filled)
              | no ne ↦ rw (count-set_ne levels i best l ne) pos
            ],
            λ j lo. count-set_ne levels i j l (omega (arith, ltb→ge best i lower)) ∙ above j lo,
          ))
  ]

  -- A level that keeps some order keeps the best.
  pub keep-IsBestBid :
      0 < count_at levels i
      → 0 < l.order_count
      → IsBestBid levels best
      → IsBestBid (set levels i l) best
  keep-IsBestBid was filled (inl (e, none_other)) = absurd (omega (arith, none_other i))
  keep-IsBestBid was filled (inr (lt, pos, above)) = inr (
    omega (arith, same_size),
    elim (ℕ_discrete i best) [
      | yes e ↦
          subst (λ u. 0 < count_at (set levels i l) u) e
            (rw (count-set_self levels i l inside) filled)
      | no ne ↦ rw (count-set_ne levels i best l ne) pos
    ],
    λ j lo. count-set_ne levels i j l (λ e. omega (arith, above i (omega arith))) ∙ above j lo,
  )

  -- A level that loses its last order hands over to the next one below.
  pub empty-IsBestBid :
      0 < count_at levels i
      → l.order_count ≡ 0
      → IsBestBid levels best
      → IsBestBid (set levels i l) (if i == best then scan_down (set levels i l) i else best)
  empty-IsBestBid was bare (inl (e, none_other)) = absurd (omega (arith, none_other i))
  empty-IsBestBid was bare (inr (lt, pos, above)) = elim (ℕ_discrete i best) [
    | no ne ↦
        let pick : (if i == best then scan_down (set levels i l) i else best) ≡ best =
          ground arith in
        rw pick (
          inr (
            omega (arith, same_size),
            rw (count-set_ne levels i best l ne) pos,
            λ j lo. elim (ℕ_discrete i j) [
              | yes e ↦
                  subst (λ u. count_at (set levels i l) u ≡ 0) e
                    (count-set_self levels i l inside ∙ bare)
              | no ne' ↦ count-set_ne levels i j l ne' ∙ above j lo
            ],
          ))
    | yes e ↦
        let after : (j : ℕ) → best < j → count_at (set levels i l) j ≡ 0 =
          λ j lo. count-set_ne levels i j l (omega arith) ∙ above j lo in
        let here : count_at (set levels i l) i ≡ 0 = count-set_self levels i l inside ∙ bare in
        let pick : (if i == best then scan_down (set levels i l) i else best)
            ≡ scan_down (set levels i l) i =
          ground arith in
        rw pick (elim (scan_down_lem (set levels i l) i) [
          | inl (gone, below) ↦ inl (
            gone,
            λ j. elim (ℕ_discrete i j) [
              | yes at ↦ subst (λ u. count_at (set levels i l) u ≡ 0) at here
              | no ne ↦ elim (dec_lt j i) [
                | yes low ↦ below j low
                | no high ↦ after j (omega arith)
              ]
            ],
          )
          | inr (lt', pos', below) ↦ inr (
            omega (arith, same_size),
            pos',
            λ j lo. elim (ℕ_discrete i j) [
              | yes at ↦ subst (λ u. count_at (set levels i l) u ≡ 0) at here
              | no ne ↦ elim (dec_lt j i) [
                | yes low ↦ below j lo low
                | no high ↦ after j (omega arith)
              ]
            ],
          )
        ])
  ]
