-- ===== src/Latency/Facts.antt =====
-- `add` and `summarize` of include/llte/latency_stats.hpp.
use c_low_latency_trading_sy.Prelude.{
  ℕ, zero, suc, sym, ◌∙◌, true, false, append-nil, append_assoc, ◌+◌, ◌-◌, ◌%◌, ◌≤◌, ◌<◌, ◌≡◌,
  arith, List, [], ◌∷◌, ◌++◌, word64, add64, length, get_or, length-append, ltb, take,
}
use c_low_latency_trading_sy.Latency.{
  LatencySamples, Summary, reserved, add, summarize, summarize_on, percentile,
}

-- A run of samples, in turn.
abbrev pub add_all : LatencySamples → List ℕ → LatencySamples
add_all l [] = l
add_all l (x ∷ xs) = add_all (add l x) xs

abbrev pub IsOrdered : List ℕ → Type 0
IsOrdered xs = (i j : ℕ) → i ≤ j → j < length xs → get_or xs i 0 ≤ get_or xs j 0

-- What the summary of some samples promises.
pub record IsAscending (s : Summary) : Type 0 where
  pub min_p50 : s.min ≤ s.p50
  pub p50_p90 : s.p50 ≤ s.p90
  pub p90_p95 : s.p90 ≤ s.p95
  pub p95_p99 : s.p95 ≤ s.p99
  pub p99_p999 : s.p99 ≤ s.p999
  pub p999_max : s.p999 ≤ s.max

add_all_from :
    (room : ℕ) (l : LatencySamples) (xs : List ℕ)
    → l.capacity ≡ length l.samples + room
    → l.dropped < word64
    → ((add_all l xs).samples ≡ l.samples ++ take room xs)
      × ((add_all l xs).dropped ≡ (l.dropped + (length xs - room)) % word64)
unfolding add
add_all_from zero l [] e word = (sym (append-nil l.samples), omega arith)
add_all_from (suc room) l [] e word = (sym (append-nil l.samples), omega arith)
add_all_from zero l (x ∷ xs) e word =
    let full : ltb (length l.samples) l.capacity ≡ false = ground arith in
    let later = add_all_from zero (record l { dropped = add64 l.dropped 1 }) xs e (omega arith) in
    rw (add_all, full) (later.0, later.1 ∙ omega arith)
add_all_from (suc room) l (x ∷ xs) e word =
    let free : ltb (length l.samples) l.capacity ≡ true = ground arith in
    let later =
      add_all_from room (record l { samples = l.samples ++ x ∷ [] }) xs
        (omega (arith, length-append l.samples (x ∷ []))) word in
    rw (add_all, free)
      (later.0 ∙ append_assoc l.samples (x ∷ []) (take room xs), later.1 ∙ omega arith)

-- Of a run of samples the buffer keeps the first ones up to its capacity, in order, and every other
-- one is counted in `dropped`, modulo 2 ^ 64.
pub add_all_keeps :
    (capacity : ℕ) (xs : List ℕ)
    → ((add_all (reserved capacity) xs).samples ≡ take capacity xs)
      × ((add_all (reserved capacity) xs).dropped ≡ (length xs - capacity) % word64)
add_all_keeps capacity xs =
    let all = add_all_from capacity (reserved capacity) xs (omega arith) (omega arith) in
    (all.0, all.1 ∙ omega arith)

module _ (sort : List ℕ → List ℕ) (index_for : ℕ → ℕ → ℕ)
    (sort-IsOrdered : (xs : List ℕ) → IsOrdered (sort xs))
    (length-sort : (xs : List ℕ) → length (sort xs) ≡ length xs)
    (index_for_mono : (f g last : ℕ) → f ≤ g → index_for f last ≤ index_for g last) where
  percentile_mono :
      (f g x : ℕ) (xs : List ℕ)
      → f ≤ g
      → percentile sort index_for f (sort (x ∷ xs)) ≤ percentile sort index_for g (sort (x ∷ xs))
  percentile_mono f g x xs h =
      sort-IsOrdered (x ∷ xs) _ _ (omega (arith, index_for_mono f g (length (sort (x ∷ xs)) - 1) h))
        (omega (arith, length-sort (x ∷ xs)))

  summarize_on-IsAscending :
      (l : LatencySamples) (xs : List ℕ) → IsAscending (summarize_on sort index_for l xs).0
  summarize_on-IsAscending l [] = record {
    min_p50 = omega arith;
    p50_p90 = omega arith;
    p90_p95 = omega arith;
    p95_p99 = omega arith;
    p99_p999 = omega arith;
    p999_max = omega arith;
  }
  summarize_on-IsAscending l (x ∷ xs) = record {
    min_p50 = sort-IsOrdered (x ∷ xs) 0 _ (omega arith) (omega (arith, length-sort (x ∷ xs)));
    p50_p90 = percentile_mono 500 900 x xs (omega arith);
    p90_p95 = percentile_mono 900 950 x xs (omega arith);
    p95_p99 = percentile_mono 950 990 x xs (omega arith);
    p99_p999 = percentile_mono 990 999 x xs (omega arith);
    p999_max = sort-IsOrdered (x ∷ xs) _ _ (omega arith) (omega (arith, length-sort (x ∷ xs)));
  }

  -- Whatever the samples, the least, the five percentiles and the greatest that `summarize` reports
  -- ascend, if the sort sorts and keeps the length and the rounded position rises with the fraction.
  pub summarize-IsAscending : (l : LatencySamples) → IsAscending (summarize sort index_for l).0
  unfolding summarize
  summarize-IsAscending l = summarize_on-IsAscending l l.samples
