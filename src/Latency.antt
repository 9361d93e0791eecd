-- ===== src/Latency.antt =====
-- include/llte/latency_stats.hpp: the latency samples of a stage and their summary.
-- `std::sort` and the rounding of `fraction * last + 0.5` in doubles are parameters; the mean, a
-- `double` that is only printed, is left out.
pub mod Facts
mod Tests
use c_low_latency_trading_sy.Prelude.{
  ℕ, ◌+◌, ◌-◌, List, [], ◌∷◌, ◌++◌, add64, ltb, if◌then◌else◌, length, get_or, min,
}

pub record LatencySamples : Type 0 where
  pub samples : List ℕ
  pub capacity : ℕ
  pub dropped : ℕ

-- After `reserve`, with the capacity that the vector then has.
abbrev pub reserved : ℕ → LatencySamples
reserved capacity = record { samples = []; capacity = capacity; dropped = 0 }

unfoldable pub add : LatencySamples → ℕ → LatencySamples
add l nanoseconds =
    if ltb (length l.samples) l.capacity
    then record l { samples = l.samples ++ nanoseconds ∷ [] }
    else record l { dropped = add64 l.dropped 1 }

pub record Summary : Type 0 where
  pub count : ℕ
  pub min : ℕ
  pub p50 : ℕ
  pub p90 : ℕ
  pub p95 : ℕ
  pub p99 : ℕ
  pub p999 : ℕ
  pub max : ℕ

abbrev pub no_summary : Summary
no_summary = record { count = 0; min = 0; p50 = 0; p90 = 0; p95 = 0; p99 = 0; p999 = 0; max = 0 }

-- `index_for f last` is `(size_t) (fraction * last + 0.5)` for the fraction of `f` thousandths.
module _ (sort : List ℕ → List ℕ) (index_for : ℕ → ℕ → ℕ) where
  abbrev pub percentile : ℕ → List ℕ → ℕ
  percentile fraction sorted =
      get_or sorted (min (index_for fraction (length sorted - 1)) (length sorted - 1)) 0

  abbrev pub summary_of : List ℕ → Summary
  summary_of sorted = record {
    count = length sorted;
    min = get_or sorted 0 0;
    p50 = percentile 500 sorted;
    p90 = percentile 900 sorted;
    p95 = percentile 950 sorted;
    p99 = percentile 990 sorted;
    p999 = percentile 999 sorted;
    max = get_or sorted (length sorted - 1) 0;
  }

  -- The samples stay sorted in the buffer.
  abbrev pub summarize_on : LatencySamples → List ℕ → Summary × LatencySamples
  summarize_on l [] = (no_summary, l)
  summarize_on l (x ∷ xs) = (summary_of (sort (x ∷ xs)), record l { samples = sort (x ∷ xs) })

  unfoldable pub summarize : LatencySamples → Summary × LatencySamples
  summarize l = summarize_on l l.samples
