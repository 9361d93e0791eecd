-- ===== src/Spsc/Refine.antt =====
-- The calls of include/llte/spsc_queue.hpp, made in turn, and a queue of entries.
use c_low_latency_trading_sy.Prelude.{
  ℕ, suc, ◌+◌, ◌-◌, ◌%◌, ◌^◌, ◌≤◌, ◌<◌, ◌≡◌, refl, sym, ap₂, ◌∙◌, Bool, true, false, List, [], ◌∷◌,
  ◌++◌, arith, add64, sub64, word64, length, pow-le-pow, ltb, ◌==◌, if◌then◌else◌, Bool-cases,
  lt→ltb, le→ltb, leb→le, leb→gt, ==_iff, inl, inr, Option, none, some,
}
use c_low_latency_trading_sy.Spsc.{
  Queue, try_push, try_pop, size, empty, publish, read_slot, write_slot, looks_full, looks_empty,
}
use c_low_latency_trading_sy.Spsc.Window.{
  window, length-window, window-suc, window-write_slot, read_slot-write_slot,
}
use c_low_latency_trading_sy.Spsc.Inv.{
  Inv, store-Inv, try_push-Inv, try_pop-Inv, reload_read-Inv, reload_write-Inv,
}

pub sub64_pos : (a b : ℕ) → a < word64 → b < word64 → (b == a) ≡ false → 0 < sub64 a b
sub64_pos a b ha hb ne = ground arith

-- The specification: a list of at most `cap` entries, oldest first.
module _ {ℓ} {A : Type ℓ} where
  unfoldable pub enqueue : ℕ → List A → A → Bool × List A
  enqueue cap xs v = if ltb (length xs) cap then (true, xs ++ v ∷ []) else (false, xs)

  unfoldable pub dequeue : List A → Option A × List A
  dequeue [] = (none, [])
  dequeue (x ∷ xs) = (some x, xs)

module _ {ℓ} {A : Type ℓ} (k : ℕ) (zeroed : A) where
  -- The entries that the ring holds.
  abbrev pub contents : Queue A → List A
  contents q = window k zeroed q.buffer q.read_idx (sub64 q.write_idx q.read_idx)

  pub length-contents : (q : Queue A) → length (contents q) ≡ sub64 q.write_idx q.read_idx
  length-contents q = length-window k zeroed q.buffer q.read_idx (sub64 q.write_idx q.read_idx)

  one_more :
      (q : Queue A)
      → Inv k q
      → sub64 q.write_idx q.read_idx < 2 ^ k
      → sub64 (add64 q.write_idx 1) q.read_idx ≡ suc (sub64 q.write_idx q.read_idx)
  one_more q h room = omega (arith, h.write_word, h.read_word, room, pow-le-pow k 63 h.few)

  -- The value in the slot past the entries comes last once the index is released.
  pub contents-release :
      (q : Queue A)
      → Inv k q
      → sub64 q.write_idx q.read_idx < 2 ^ k
      → contents (record q { write_idx = add64 q.write_idx 1 })
        ≡ contents q ++ read_slot k zeroed q.buffer q.write_idx ∷ []
  contents-release q h room =
      let e : (q.read_idx + sub64 q.write_idx q.read_idx) % word64 ≡ q.write_idx =
        omega (arith, h.write_word, h.read_word) in
      rw (
        one_more q h room,
        window-suc k zeroed q.buffer q.read_idx (sub64 q.write_idx q.read_idx) h.read_word,
        e,
      )

  -- A store into that slot leaves the entries alone.
  pub contents-store :
      (q : Queue A) (v : A)
      → Inv k q
      → sub64 q.write_idx q.read_idx < 2 ^ k
      → contents (record q { buffer = write_slot k q.buffer q.write_idx v }) ≡ contents q
  contents-store q v h room =
      window-write_slot k zeroed q.buffer q.read_idx (sub64 q.write_idx q.read_idx) q.write_idx v
        (omega (arith, h.few)) h.read_word room (omega (arith, h.write_word, h.read_word))

  -- A publication with room left appends its value.
  pub contents-publish :
      (q : Queue A) (v : A)
      → Inv k q
      → sub64 q.write_idx q.read_idx < 2 ^ k
      → contents (publish k q v) ≡ contents q ++ v ∷ []
  contents-publish q v h room =
      contents-release (record q { buffer = write_slot k q.buffer q.write_idx v })
        (store-Inv k q v h) room
      ∙ ap₂ (λ xs x. xs ++ x ∷ []) (contents-store q v h room)
          (read_slot-write_slot k zeroed q.buffer q.write_idx v h.slots)

  -- Where the window is not empty, it is the oldest slot and the window of the rest.
  pub contents-consume :
      (q : Queue A)
      → Inv k q
      → 0 < sub64 q.write_idx q.read_idx
      → contents q
        ≡ read_slot k zeroed q.buffer q.read_idx
          ∷ contents (record q { read_idx = add64 q.read_idx 1 })
  contents-consume q h some_left = rw (one_less, rest)
    where
      rest : sub64 q.write_idx (add64 q.read_idx 1) ≡ sub64 q.write_idx q.read_idx - 1
      rest = omega (arith, h.write_word, h.read_word, some_left)

      one_less : sub64 q.write_idx q.read_idx ≡ suc (sub64 q.write_idx q.read_idx - 1)
      one_less = omega (arith, some_left)

  enqueue_room :
      (q : Queue A) (v : A)
      → Inv k q
      → sub64 q.write_idx q.read_idx < 2 ^ k
      → (true, contents (publish k q v)) ≡ enqueue (2 ^ k) (contents q) v
  unfolding enqueue
  enqueue_room q v h room = rw (
    contents-publish q v h room,
    lt→ltb (length (contents q)) (2 ^ k) (omega (arith, length-contents q)),
  )

  enqueue_full :
      (q : Queue A) (v : A)
      → 2 ^ k ≤ sub64 q.write_idx q.read_idx
      → (false, contents q) ≡ enqueue (2 ^ k) (contents q) v
  unfolding enqueue
  enqueue_full q v full =
      rw (le→ltb (length (contents q)) (2 ^ k) (omega (arith, length-contents q)))

  -- `try_push` answers, and leaves the ring holding, what a queue of at most `Capacity` entries does.
  pub try_push_refines :
      (q : Queue A) (v : A)
      → Inv k q
      → let (ok, q') = try_push k q v in (ok, contents q') ≡ enqueue (2 ^ k) (contents q) v
  unfolding try_push
  try_push_refines q v h = elim (Bool-cases (looks_full k q)) [
    | inl stale ↦
        rw stale (elim (Bool-cases (looks_full k (record q { cached_read_idx = q.read_idx }))) [
          | inl full ↦ rw full (enqueue_full q v (leb→le (2 ^ k) _ full))
          | inr room ↦ rw room (
              enqueue_room (record q { cached_read_idx = q.read_idx }) v (reload_read-Inv k q h)
                (leb→gt (2 ^ k) _ room))
        ])
    | inr room ↦ rw room (enqueue_room q v h (omega (arith, leb→gt (2 ^ k) _ room, h.behind)))
  ]

  dequeue-some :
      (q : Queue A)
      → Inv k q
      → 0 < sub64 q.write_idx q.read_idx
      → (
        some (read_slot k zeroed q.buffer q.read_idx),
        contents (record q { read_idx = add64 q.read_idx 1 }),
      )
        ≡ dequeue (contents q)
  unfolding dequeue
  dequeue-some q h left = rw (contents-consume q h left)

  dequeue-none :
      (q : Queue A) → sub64 q.write_idx q.read_idx ≡ 0 → (none, contents q) ≡ dequeue (contents q)
  unfolding dequeue
  dequeue-none q e = rw e

  -- `try_pop` returns the oldest entry and keeps the rest, or returns false on an empty ring.
  pub try_pop_refines :
      (q : Queue A)
      → Inv k q
      → let (out, q') = try_pop k zeroed q in (out, contents q') ≡ dequeue (contents q)
  unfolding try_pop
  try_pop_refines q h = elim (Bool-cases (looks_empty q)) [
    | inl stale ↦
        rw stale (elim (Bool-cases (looks_empty (record q { cached_write_idx = q.write_idx }))) [
          | inl drained ↦
              rw drained (dequeue-none q (omega (arith, (==_iff _ _).0 drained, h.write_word)))
          | inr more ↦ rw more (
              dequeue-some (record q { cached_write_idx = q.write_idx }) (reload_write-Inv k q h)
                (sub64_pos _ _ h.write_word h.read_word more))
        ])
    | inr more ↦ rw more (
        dequeue-some q h
          (omega (arith, sub64_pos _ _ h.cached_write_word h.read_word more, h.ahead)))
  ]

  -- The observers agree with the entries.
  pub size-eq-length :
      (q : Queue A) → Inv k q → (size q ≡ length (contents q)) × (empty q ≡ (size q == 0))
  unfolding size empty
  size-eq-length q h = (sym (length-contents q), ground (arith, h.write_word, h.read_word))

-- The calls that the two processes make, and what each returns: whether a push found room, and the
-- entry that a pop gave.
pub data Call {ℓ} (A : Type ℓ) : Type ℓ where
  pushes : A → Call A
  pops : Call A

module _ {ℓ} {A : Type ℓ} (k : ℕ) (zeroed : A) where
  pub run : Queue A → List (Call A) → List (Bool × Option A)
  run q [] = []
  run q (pushes v ∷ cs) = let (ok, q') = try_push k q v in (ok, none) ∷ run q' cs
  run q (pops ∷ cs) = let (out, q') = try_pop k zeroed q in (true, out) ∷ run q' cs

module _ {ℓ} {A : Type ℓ} (cap : ℕ) where
  unfoldable pub run_queue : List A → List (Call A) → List (Bool × Option A)
  run_queue xs [] = []
  run_queue xs (pushes v ∷ cs) = let (ok, xs') = enqueue cap xs v in (ok, none) ∷ run_queue xs' cs
  run_queue xs (pops ∷ cs) = let (out, xs') = dequeue xs in (true, out) ∷ run_queue xs' cs

module _ {ℓ} {A : Type ℓ} (k : ℕ) (zeroed : A) where
  -- No sequence of calls, of any length and so across every wrap of the indices, tells a valid ring
  -- from the bounded queue of its entries.
  pub run_refines :
      (q : Queue A) (cs : List (Call A))
      → Inv k q
      → run k zeroed q cs ≡ run_queue (2 ^ k) (contents k zeroed q) cs
  unfolding run run_queue
  run_refines q [] h = refl
  run_refines q (pushes v ∷ cs) h =
      rw (
        run_refines (try_push k q v).1 cs (try_push-Inv k q v h),
        ← try_push_refines k zeroed q v h,
      )
  run_refines q (pops ∷ cs) h = rw (
    run_refines (try_pop k zeroed q).1 cs (try_pop-Inv k zeroed q h),
    ← try_pop_refines k zeroed q h,
  )
