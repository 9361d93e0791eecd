-- ===== src/History/Fetch.antt =====
-- `HistoryStore::fetch` of exchange/recovery_server.cpp.
use c_low_latency_trading_sy.Prelude.{
  ℕ, zero, suc, ◌+◌, ◌-◌, ◌%◌, ◌≤◌, ◌<◌, min, max, ◌≡◌, ◌⊎◌, inl, inr, refl, ap, sym, ◌∙◌, false,
  List, [], ◌∷◌, map, arith, word64, add64, length, get_or, take, interval, some, dec_lt, dec_le,
  gt→leb,
}
use mathlib.Core.Option
use c_low_latency_trading_sy.Message.{MarketMessage}
use c_low_latency_trading_sy.History.{HistoryStore, zeroed, fetch_from, fetch}
use c_low_latency_trading_sy.History.Window.{Holds}

-- One round of the loop.
module _ (fuel : ℕ) (h : HistoryStore) (sequence to count max_messages : ℕ) where
  fetch_from-stop :
      (to < sequence) ⊎ (max_messages ≤ count)
      → fetch_from (suc fuel) h sequence to count max_messages ≡ some []
  unfolding fetch_from
  fetch_from-stop (inl past) = rw (gt→leb sequence to past)
  fetch_from-stop (inr full) = ground arith

  fetch_from-skip :
      sequence ≤ to
      → count < max_messages
      → (sequence < h.oldest_sequence) ⊎ (h.newest_sequence < sequence)
      → fetch_from (suc fuel) h sequence to count max_messages
        ≡ fetch_from fuel h (add64 sequence 1) to count max_messages
  unfolding fetch_from
  fetch_from-skip going room gone = ground arith

  fetch_from-keep :
      sequence ≤ to
      → count < max_messages
      → h.oldest_sequence ≤ sequence
      → sequence ≤ h.newest_sequence
      → fetch_from (suc fuel) h sequence to count max_messages
        ≡ Option.map
            (◌∷◌ (get_or h.ring (sequence % length h.ring) zeroed))
            (fetch_from fuel h (add64 sequence 1) to (count + 1) max_messages)
  unfolding fetch_from
  fetch_from-keep going room low high = ground arith

fetch-started :
    (fuel : ℕ) (h : HistoryStore) (from to max_messages : ℕ)
    → h.is_empty ≡ false
    → fetch fuel h from to max_messages ≡ fetch_from fuel h from to 0 max_messages
unfolding fetch
fetch-started fuel h from to max_messages e = ground arith

gone_or_kept :
    (h : HistoryStore) (s : ℕ)
    → ((s < h.oldest_sequence) ⊎ (h.newest_sequence < s))
      ⊎ ((h.oldest_sequence ≤ s) × (s ≤ h.newest_sequence))
gone_or_kept h s = omega arith

take-nil : {A : Type 0} (n : ℕ) → take {A = A} n [] ≡ []
take-nil zero = refl
take-nil (suc n) = refl

module _ (published : ℕ → MarketMessage) where
  -- The messages of the numbers from `from` to `to` that lie in the window, lowest first.
  abbrev pub retained : HistoryStore → ℕ → ℕ → List MarketMessage
  retained h from to =
      let lo = max from h.oldest_sequence in
      map published (interval lo (suc (min to h.newest_sequence) - lo))

  retained-gone :
      (h : HistoryStore) (from to : ℕ)
      → (from < h.oldest_sequence) ⊎ (h.newest_sequence < from)
      → retained h from to ≡ retained h (suc from) to
  retained-gone h from to (inl low) =
      let e : max from h.oldest_sequence ≡ max (suc from) h.oldest_sequence = omega arith in rw e
  retained-gone h from to (inr high) =
      let e : suc (min to h.newest_sequence) - max from h.oldest_sequence ≡ 0 = omega arith in
      let e' : suc (min to h.newest_sequence) - max (suc from) h.oldest_sequence ≡ 0 =
        omega arith in
      rw (e, e')

  retained-cons :
      (h : HistoryStore) (from to : ℕ)
      → h.oldest_sequence ≤ from
      → from ≤ h.newest_sequence
      → from ≤ to
      → retained h from to ≡ published from ∷ retained h (suc from) to
  retained-cons h from to low high le =
      let e1 : max from h.oldest_sequence ≡ from = omega arith in
      let e2 : suc (min to h.newest_sequence) - from
          ≡ suc (suc (min to h.newest_sequence) - max (suc from) h.oldest_sequence) =
        omega arith in
      let e3 : from + 1 ≡ max (suc from) h.oldest_sequence = omega arith in rw (e1, e2, e3)

  retained-past : (h : HistoryStore) (from to : ℕ) → to < from → retained h from to ≡ []
  retained-past h from to lt =
      let e : suc (min to h.newest_sequence) - max from h.oldest_sequence ≡ 0 = omega arith in rw e

  fetch_from-eq :
      (fuel first : ℕ) (h : HistoryStore) (sequence to count max_messages : ℕ)
      → Holds published first h
      → suc to < word64
      → sequence ≤ suc to
      → suc to < sequence + fuel
      → fetch_from fuel h sequence to count max_messages
        ≡ some (take (max_messages - count) (retained h sequence to))
  fetch_from-eq zero first h sequence to count max_messages v word le enough = absurd (omega arith)
  fetch_from-eq (suc fuel) first h sequence to count max_messages v word le enough =
      elim (dec_lt to sequence) [
        | yes past ↦
            fetch_from-stop fuel h sequence to count max_messages (inl past)
            ∙ ap some (
                sym (
                  ap (take (max_messages - count)) (retained-past h sequence to past) ∙ take-nil _))
        | no going ↦ elim (dec_le max_messages count) [
          | yes full ↦
              let none_left : max_messages - count ≡ 0 = omega arith in
              rw none_left (fetch_from-stop fuel h sequence to count max_messages (inr full))
          | no room ↦ elim (gone_or_kept h sequence) [
            | inl gone ↦
                let next : (sequence + 1) % word64 ≡ suc sequence = omega arith in
                fetch_from-skip fuel h sequence to count max_messages (omega arith) (omega arith)
                  gone
                ∙ rw (next, retained-gone h sequence to gone)
                    (fetch_from-eq fuel first h (suc sequence) to count max_messages v word
                      (omega arith) (omega arith))
            | inr (low, high) ↦
                let next : (sequence + 1) % word64 ≡ suc sequence = omega arith in
                let more_left : max_messages - count ≡ suc (max_messages - (count + 1)) =
                  omega arith in
                fetch_from-keep fuel h sequence to count max_messages (omega arith) (omega arith)
                  low high
                ∙ rw
                    (
                      next,
                      v.kept sequence low high,
                      retained-cons h sequence to low high (omega arith),
                      more_left,
                    )
                    (ap (Option.map (◌∷◌ (published sequence))) (
                      fetch_from-eq fuel first h (suc sequence) to (count + 1) max_messages v word
                        (omega arith) (omega arith)))
          ]
        ]
      ]

  -- On a history that holds the feed from `first` on, and for a range that ends below 2 ^ 64 - 1,
  -- `fetch` writes exactly the messages of the range that the ring still has, in order and at most
  -- `max_messages` of them.
  pub fetch-eq :
      (fuel first : ℕ) (h : HistoryStore) (from to max_messages : ℕ)
      → Holds published first h
      → suc to < word64
      → from ≤ suc to
      → suc to < from + fuel
      → fetch fuel h from to max_messages ≡ some (take max_messages (retained h from to))
  fetch-eq fuel first h from to max_messages v word le enough =
      let all_left : max_messages - 0 ≡ max_messages = omega arith in
      fetch-started fuel h from to max_messages v.started
      ∙ fetch_from-eq fuel first h from to 0 max_messages v word le enough
      ∙ rw all_left

-- From a number below the window, with no end to the range, the loop runs up to the oldest message.
fetch_from-oldest :
    (published : ℕ → MarketMessage) (fuel first : ℕ) (h : HistoryStore) (sequence : ℕ)
    → Holds published first h
    → suc h.newest_sequence < word64
    → sequence ≤ h.oldest_sequence
    → h.oldest_sequence + 2 ≤ fuel + sequence
    → fetch_from fuel h sequence (word64 - 1) 0 1 ≡ some (published h.oldest_sequence ∷ [])
fetch_from-oldest published zero first h sequence v word le enough = absurd (omega arith)
fetch_from-oldest published (suc zero) first h sequence v word le enough = absurd (omega arith)
fetch_from-oldest published (suc (suc fuel)) first h sequence v word le enough =
    let next : (sequence + 1) % word64 ≡ suc sequence = omega (arith, v.oldest, v.begun, v.slots) in
    let in_range : h.oldest_sequence ≤ h.newest_sequence =
      omega (arith, v.oldest, v.begun, v.slots) in
    elim (dec_lt sequence h.oldest_sequence) [
      | yes low ↦
          fetch_from-skip (suc fuel) h sequence (word64 - 1) 0 1 (omega arith) (omega arith)
            (inl low)
          ∙ rw next (
              fetch_from-oldest published (suc fuel) first h (suc sequence) v word (omega arith)
                (omega arith))
      | no here ↦
          let e : sequence ≡ h.oldest_sequence = omega arith in
          fetch_from-keep (suc fuel) h sequence (word64 - 1) 0 1 (omega arith) (omega arith)
            (omega arith) (omega arith)
          ∙ ap (Option.map (◌∷◌ (get_or h.ring (sequence % length h.ring) zeroed)))
              (fetch_from-stop fuel h (add64 sequence 1) (word64 - 1) (0 + 1) 1 (inr (omega arith)))
          ∙ ap (λ m. some (m ∷ [])) (v.kept sequence (omega arith) (omega arith) ∙ ap published e)
    ]

-- A request for the number 2 ^ 64 - 1 alone is answered with the oldest message that the ring has,
-- on every history that ends before that number: `sequence <= to` cannot fail there, so the loop
-- wraps and runs on from 0.
pub fetch_last_number :
    (published : ℕ → MarketMessage) (fuel first : ℕ) (h : HistoryStore)
    → Holds published first h
    → suc h.newest_sequence < word64
    → h.oldest_sequence + 3 ≤ fuel
    → fetch fuel h (word64 - 1) (word64 - 1) 1 ≡ some (published h.oldest_sequence ∷ [])
fetch_last_number published zero first h v word enough = absurd (omega arith)
fetch_last_number published (suc fuel) first h v word enough =
    fetch-started (suc fuel) h (word64 - 1) (word64 - 1) 1 v.started
    ∙ fetch_from-skip fuel h (word64 - 1) (word64 - 1) 0 1 (omega arith) (omega arith)
        (inr (omega arith))
    ∙ fetch_from-oldest published fuel first h 0 v word (omega arith) (omega arith)
