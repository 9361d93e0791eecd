-- ===== src/Spsc.antt =====
-- include/llte/spsc_queue.hpp: the lock-free ring for one producer and one consumer, its calls made
-- whole. `Spsc.Steps` splits them at their memory accesses.
-- `size_t` is a number below 2 ^ 64. `Capacity` is 2 ^ k, which is what its static_assert says.
-- A slot that is read out of range would give the value-initialised `T`.
pub mod Window
pub mod Inv
pub mod Refine
pub mod Steps
pub mod Safety
mod Tests
use c_low_latency_trading_sy.Prelude.{
  ℕ, ◌+◌, ◌-◌, ◌^◌, Bool, true, false, List, Option, none, some, bit_and, add64, sub64, leb, ◌==◌,
  if◌then◌else◌, get_or, set, replicate,
}

pub record Queue {ℓ} (A : Type ℓ) : Type ℓ where
  pub write_idx : ℕ
  pub cached_read_idx : ℕ
  pub read_idx : ℕ
  pub cached_write_idx : ℕ
  pub buffer : List A

module _ {ℓ} {A : Type ℓ} (k : ℕ) (zeroed : A) where
  abbrev pub init : Queue A
  init = record {
    write_idx = 0;
    cached_read_idx = 0;
    read_idx = 0;
    cached_write_idx = 0;
    buffer = replicate (2 ^ k) zeroed;
  }

  -- `buffer_[read & kMask]`
  abbrev pub read_slot : List A → ℕ → A
  read_slot buf i = get_or buf (bit_and i (2 ^ k - 1)) zeroed

module _ {ℓ} {A : Type ℓ} (k : ℕ) where
  -- `buffer_[write & kMask] = value`
  abbrev pub write_slot : List A → ℕ → A → List A
  write_slot buf i value = set buf (bit_and i (2 ^ k - 1)) value

  -- `write - cached_read_idx_ >= Capacity`
  abbrev pub looks_full : Queue A → Bool
  looks_full q = leb (2 ^ k) (sub64 q.write_idx q.cached_read_idx)

  -- The store into the slot and the release of the index.
  abbrev pub publish : Queue A → A → Queue A
  publish q value = record q {
    buffer = write_slot q.buffer q.write_idx value;
    write_idx = add64 q.write_idx 1;
  }

  abbrev pub push_reloaded : Queue A → A → Bool × Queue A
  push_reloaded q value = if looks_full q then (false, q) else (true, publish q value)

  unfoldable pub try_push : Queue A → A → Bool × Queue A
  try_push q value =
      if looks_full q
      then push_reloaded (record q { cached_read_idx = q.read_idx }) value
      else (true, publish q value)

module _ {ℓ} {A : Type ℓ} where
  -- `read == cached_write_idx_`
  abbrev pub looks_empty : Queue A → Bool
  looks_empty q = q.read_idx == q.cached_write_idx

  pub empty : Queue A → Bool
  empty q = q.read_idx == q.write_idx

  pub size : Queue A → ℕ
  size q = sub64 q.write_idx q.read_idx

module _ {ℓ} {A : Type ℓ} (k : ℕ) (zeroed : A) where
  -- The copy out of the slot and the release of the index.
  abbrev pub consume : Queue A → Option A × Queue A
  consume q =
      (some (read_slot k zeroed q.buffer q.read_idx), record q { read_idx = add64 q.read_idx 1 })

  abbrev pub pop_reloaded : Queue A → Option A × Queue A
  pop_reloaded q = if looks_empty q then (none, q) else consume q

  -- The option is `out`, where the call returns true.
  unfoldable pub try_pop : Queue A → Option A × Queue A
  try_pop q =
      if looks_empty q
      then pop_reloaded (record q { cached_write_idx = q.write_idx })
      else consume q
