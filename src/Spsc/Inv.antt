-- ===== src/Spsc/Inv.antt =====
-- The indices of include/llte/spsc_queue.hpp and their cached copies.
use c_low_latency_trading_sy.Prelude.{
  ℕ, ◌-◌, ◌^◌, ◌≤◌, ◌<◌, ◌≡◌, arith, add64, sub64, word64, length, length-set, length-replicate,
  bit_and, pow-le-pow, pow_pos,
}
use c_low_latency_trading_sy.Spsc.{Queue, init, try_push, try_pop, write_slot}

-- `k` is the logarithm of the capacity.
pub record Inv {ℓ} {A : Type ℓ} (k : ℕ) (q : Queue A) : Type ℓ where
  pub few : k ≤ 63
  pub write_word : q.write_idx < word64
  pub read_word : q.read_idx < word64
  pub cached_read_word : q.cached_read_idx < word64
  pub cached_write_word : q.cached_write_idx < word64
  pub slots : length q.buffer ≡ 2 ^ k
  pub behind : sub64 q.write_idx q.read_idx ≤ sub64 q.write_idx q.cached_read_idx
  pub bounded : sub64 q.write_idx q.cached_read_idx ≤ 2 ^ k
  pub ahead : sub64 q.cached_write_idx q.read_idx ≤ sub64 q.write_idx q.read_idx

module _ {ℓ} {A : Type ℓ} (k : ℕ) (zeroed : A) where
  pub init-Inv : k ≤ 63 → Inv k (init k zeroed)
  init-Inv h = record {
    few = h;
    write_word = omega arith;
    read_word = omega arith;
    cached_read_word = omega arith;
    cached_write_word = omega arith;
    slots = length-replicate (2 ^ k) zeroed;
    behind = omega arith;
    bounded = omega (arith, pow_pos k);
    ahead = omega arith;
  }

module _ {ℓ} {A : Type ℓ} (k : ℕ) where
  pub store-Inv :
      (q : Queue A) (v : A)
      → Inv k q
      → Inv k (record q { buffer = write_slot k q.buffer q.write_idx v })
  store-Inv q v h = ground (arith, length-set q.buffer (bit_and q.write_idx (2 ^ k - 1)) v)

  -- Releasing an index keeps the invariant, if the side that does so has seen room, or an entry.
  pub release_write-Inv :
      (q : Queue A)
      → Inv k q
      → sub64 q.write_idx q.cached_read_idx < 2 ^ k
      → Inv k (record q { write_idx = add64 q.write_idx 1 })
  release_write-Inv q h room = ground (arith, pow-le-pow k 63 h.few)

  pub release_read-Inv :
      (q : Queue A)
      → Inv k q
      → 0 < sub64 q.cached_write_idx q.read_idx
      → Inv k (record q { read_idx = add64 q.read_idx 1 })
  release_read-Inv q h left = ground arith

  -- Each side may take a fresh copy of the other's index at any time.
  pub reload_read-Inv : (q : Queue A) → Inv k q → Inv k (record q { cached_read_idx = q.read_idx })
  reload_read-Inv q h = ground (arith, h.bounded, h.behind)

  pub reload_write-Inv :
      (q : Queue A) → Inv k q → Inv k (record q { cached_write_idx = q.write_idx })
  reload_write-Inv q h = ground arith

  -- Nor does a load that gives an older index, if this side has not seen a newer one.
  pub see_read-Inv :
      (q : Queue A) (r : ℕ)
      → Inv k q
      → r < word64
      → sub64 q.read_idx r ≤ sub64 q.read_idx q.cached_read_idx
      → Inv k (record q { cached_read_idx = r })
  see_read-Inv q r h word seen = ground arith

  pub see_write-Inv :
      (q : Queue A) (w : ℕ)
      → Inv k q
      → w < word64
      → sub64 q.write_idx w ≤ sub64 q.write_idx q.cached_write_idx
      → Inv k (record q { cached_write_idx = w })
  see_write-Inv q w h word seen = ground arith

  -- A push keeps the invariant, whether or not it finds room.
  pub try_push-Inv : (q : Queue A) (v : A) → Inv k q → Inv k (try_push k q v).1
  unfolding try_push
  try_push-Inv q v h =
      ground (arith, length-set q.buffer (bit_and q.write_idx (2 ^ k - 1)) v, pow-le-pow k 63 h.few)

  -- So does a pop.
  pub try_pop-Inv : (zeroed : A) (q : Queue A) → Inv k q → Inv k (try_pop k zeroed q).1
  unfolding try_pop
  try_pop-Inv zeroed q h = ground arith
