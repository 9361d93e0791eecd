-- ===== src/Book/Best.antt =====
-- `note_level_filled` and `note_level_emptied` of orderbook/order_book.cpp: the best levels.
pub mod Bid
pub mod Ask
pub mod Calls
use c_low_latency_trading_sy.Prelude.{
  ℕ, zero, suc, ◌+◌, ◌-◌, ◌%◌, ◌^◌, ◌≤◌, ◌<◌, ◌≡◌, ◌≢◌, refl, ap, sym, subst, ◌∙◌, Bool, true,
  false, ◌||◌, List, arith, ltb, ltb→lt, ltb→ge, lt→ltb, ◌==◌, if◌then◌else◌, length, length-set,
  get_or, set, get_or-past, get_or-set_self, get_or-set_ne, ◌⊎◌, inl, inr, Bool-cases, ℕ_discrete,
  dec_lt, ==_iff,
}
use c_low_latency_trading_sy.Message.{Side}
use c_low_latency_trading_sy.Book.Types.{OrderBook, Level, no_level, empty_level}
use c_low_latency_trading_sy.Book.Levels.{
  level_at, levels_for, with_levels, scan_down, scan_up, on_level_emptied, note_level_filled,
  link_back, unlink, linked_level, unlinked_level, order_at, inc32, dec32,
}

abbrev pub count_at : List Level → ℕ → ℕ
count_at levels i = (level_at levels i).order_count

-- The highest level of the bids that has orders, or `kNoLevel`.
abbrev pub IsBestBid : List Level → ℕ → Type 0
IsBestBid levels best =
    ((best ≡ no_level) × ((j : ℕ) → count_at levels j ≡ 0))
    ⊎ ((best < length levels)
        × (0 < count_at levels best)
        × ((j : ℕ) → best < j → count_at levels j ≡ 0))

-- The lowest level of the asks that has orders, or `kNoLevel`.
abbrev pub IsBestAsk : List Level → ℕ → Type 0
IsBestAsk levels best =
    ((best ≡ no_level) × ((j : ℕ) → count_at levels j ≡ 0))
    ⊎ ((best < length levels)
        × (0 < count_at levels best)
        × ((j : ℕ) → j < best → count_at levels j ≡ 0))

pub record IsBest (b : OrderBook) : Type 0 where
  pub few_bids : length b.bid_levels < no_level
  pub few_asks : length b.ask_levels < no_level
  pub bid : IsBestBid b.bid_levels b.best_bid_level
  pub ask : IsBestAsk b.ask_levels b.best_ask_level

pub past_end : (levels : List Level) (j : ℕ) → length levels ≤ j → count_at levels j ≡ 0
past_end levels j h = ap (λ l. l.order_count) (get_or-past levels j empty_level h)

pub count-set_self :
    (levels : List Level) (i : ℕ) (l : Level)
    → i < length levels
    → count_at (set levels i l) i ≡ l.order_count
count-set_self levels i l h = ap (λ x. x.order_count) (get_or-set_self levels i l empty_level h)

pub count-set_ne :
    (levels : List Level) (i j : ℕ) (l : Level)
    → i ≢ j
    → count_at (set levels i l) j ≡ count_at levels j
count-set_ne levels i j l ne = ap (λ x. x.order_count) (get_or-set_ne levels i j l empty_level ne)

-- What the scans find.
pub scan_down_lem :
    (levels : List Level) (n : ℕ)
    → ((scan_down levels n ≡ no_level) × ((j : ℕ) → j < n → count_at levels j ≡ 0))
      ⊎ ((scan_down levels n < n)
          × (0 < count_at levels (scan_down levels n))
          × ((j : ℕ) → scan_down levels n < j → j < n → count_at levels j ≡ 0))
unfolding scan_down
scan_down_lem levels zero = inl (refl, λ j h. absurd (omega arith))
scan_down_lem levels (suc n) = elim (Bool-cases (ltb 0 (count_at levels n))) [
  | inl found ↦ rw found (inr (omega arith, ltb→lt 0 _ found, λ j lo hi. absurd (omega arith)))
  | inr bare ↦
      let none_here : count_at levels n ≡ 0 = omega (arith, ltb→ge 0 (count_at levels n) bare) in
      rw bare (elim (scan_down_lem levels n) [
        | inl (e, all) ↦ inl (
          e,
          λ j h. elim (ℕ_discrete n j) [
            | yes at ↦ subst (λ u. count_at levels u ≡ 0) at none_here
            | no ne ↦ all j (omega arith)
          ],
        )
        | inr (lt, pos, all) ↦ inr (
          omega arith,
          pos,
          λ j lo h. elim (ℕ_discrete n j) [
            | yes at ↦ subst (λ u. count_at levels u ≡ 0) at none_here
            | no ne ↦ all j lo (omega arith)
          ],
        )
      ])
]

pub scan_up_lem :
    (levels : List Level) (scan n : ℕ)
    → ((scan_up levels scan n ≡ no_level)
        × ((j : ℕ) → scan ≤ j → j < scan + n → count_at levels j ≡ 0))
      ⊎ ((scan_up levels scan n < scan + n)
          × (0 < count_at levels (scan_up levels scan n))
          × (scan ≤ scan_up levels scan n)
          × ((j : ℕ) → scan ≤ j → j < scan_up levels scan n → count_at levels j ≡ 0))
unfolding scan_up
scan_up_lem levels scan zero = inl (refl, λ j lo h. absurd (omega arith))
scan_up_lem levels scan (suc n) = elim (Bool-cases (ltb 0 (count_at levels scan))) [
  | inl found ↦
      rw found (inr (omega arith, ltb→lt 0 _ found, omega arith, λ j lo hi. absurd (omega arith)))
  | inr bare ↦
      let none_here : count_at levels scan ≡ 0 =
        omega (arith, ltb→ge 0 (count_at levels scan) bare) in
      rw bare (elim (scan_up_lem levels (scan + 1) n) [
        | inl (e, all) ↦ inl (
          e,
          λ j lo h. elim (ℕ_discrete scan j) [
            | yes at ↦ subst (λ u. count_at levels u ≡ 0) at none_here
            | no ne ↦ all j (omega arith) (omega arith)
          ],
        )
        | inr (lt, pos, from, all) ↦ inr (
          omega arith,
          pos,
          omega arith,
          λ j lo h. elim (ℕ_discrete scan j) [
            | yes at ↦ subst (λ u. count_at levels u ≡ 0) at none_here
            | no ne ↦ all j (omega arith) h
          ],
        )
      ])
]
