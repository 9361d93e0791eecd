-- ===== src/Recovery/SocketIo/Exact.antt =====
-- `read_exact` and `write_exact` of include/llte/socket_io.hpp over a socket that behaves.
use c_low_latency_trading_sy.Prelude.{
  ℕ, zero, suc, ◌+◌, ◌-◌, ◌≤◌, ◌<◌, ◌≡◌, refl, sym, ap, ◌∙◌, arith, Bool, true, false, List, [],
  ◌∷◌, ◌++◌, append-nil, append_assoc, Option, none, some, ◌==◌, length, length-append, take, drop,
  take-append-drop, length-drop, subst, ==_iff, Bool-cases, inl, inr,
}
use mathlib.Core.Option
use c_low_latency_trading_sy.Recovery.SocketIo.{
  Received, got, closed, Sent, moved, Socket, prepend, read_exact, read_on, write_exact, write_on,
}
use c_low_latency_trading_sy.Recovery.SocketIo.Laws.{over, refused, IsSocket}

-- The loop of `read_exact` returned: with `n` bytes taken off what was incoming and no failed call, or
-- with false, after one call that found the connection over and fewer bytes than `n`.
pub data HasRead {W : Type 0} (incoming outgoing : W → List ℕ) (patience failures : W → ℕ) (w : W)
    (n : ℕ) : Option (Option (List ℕ) × W) → Type 0 where
  whole :
      (bytes : List ℕ) (w' : W)
      → length bytes ≡ n
      → bytes ++ incoming w' ≡ incoming w
      → outgoing w' ≡ outgoing w
      → patience w' ≤ patience w
      → failures w' ≡ failures w
      → HasRead incoming outgoing patience failures w n (some (some bytes, w'))
  broken :
      (bytes : List ℕ) (w' : W)
      → length bytes < n
      → bytes ++ incoming w' ≡ incoming w
      → outgoing w' ≡ outgoing w
      → failures w' ≡ suc (failures w)
      → HasRead incoming outgoing patience failures w n (some (none, w'))

-- The loop of `write_exact` returned: with the bytes added to what is outgoing and no failed call, or
-- with false, after one call that failed, a part of the bytes added.
pub data HasWritten {W : Type 0} (incoming outgoing : W → List ℕ) (patience failures : W → ℕ)
    (w : W) (bytes : List ℕ) : Option (Bool × W) → Type 0 where
  whole :
      (w' : W)
      → outgoing w' ≡ outgoing w ++ bytes
      → incoming w' ≡ incoming w
      → patience w' ≤ patience w
      → failures w' ≡ failures w
      → HasWritten incoming outgoing patience failures w bytes (some (true, w'))
  broken :
      (front back : List ℕ) (w' : W)
      → front ++ back ≡ bytes
      → 0 < length back
      → outgoing w' ≡ outgoing w ++ front
      → incoming w' ≡ incoming w
      → failures w' ≡ suc (failures w)
      → HasWritten incoming outgoing patience failures w bytes (some (false, w'))

module _ {W : Type 0} (socket : Socket W) (incoming outgoing : W → List ℕ)
    (patience failures : W → ℕ) where
  HasRead-prepend :
      (w w' : W) (n : ℕ) (bytes : List ℕ) (r : Option (Option (List ℕ) × W))
      → bytes ++ incoming w' ≡ incoming w
      → length bytes ≤ n
      → outgoing w' ≡ outgoing w
      → patience w' ≤ patience w
      → failures w' ≡ failures w
      → HasRead incoming outgoing patience failures w' (n - length bytes) r
      → HasRead incoming outgoing patience failures w n (Option.map (prepend socket bytes) r)
  HasRead-prepend w w' n bytes _ e fits out calm ok
        (HasRead.whole more w'' len split out' calm' ok') =
      HasRead.whole (bytes ++ more) w'' (omega (arith, length-append bytes more))
        (append_assoc bytes more (incoming w'') ∙ ap (λ xs. bytes ++ xs) split ∙ e) (out' ∙ out)
        (omega arith) (ok' ∙ ok)
  HasRead-prepend w w' n bytes _ e fits out calm ok (HasRead.broken more w'' len split out' bad) =
      HasRead.broken (bytes ++ more) w'' (omega (arith, length-append bytes more))
        (append_assoc bytes more (incoming w'') ∙ ap (λ xs. bytes ++ xs) split ∙ e) (out' ∙ out)
        (bad ∙ ap suc ok)

  HasRead-retry :
      (w w' : W) (n : ℕ) (r : Option (Option (List ℕ) × W))
      → incoming w' ≡ incoming w
      → outgoing w' ≡ outgoing w
      → patience w' ≤ patience w
      → failures w' ≡ failures w
      → HasRead incoming outgoing patience failures w' n r
      → HasRead incoming outgoing patience failures w n r
  HasRead-retry w w' n _ e out calm ok (HasRead.whole bytes w'' len split out' calm' ok') =
      HasRead.whole bytes w'' len (split ∙ e) (out' ∙ out) (omega arith) (ok' ∙ ok)
  HasRead-retry w w' n _ e out calm ok (HasRead.broken bytes w'' len split out' bad) =
      HasRead.broken bytes w'' len (split ∙ e) (out' ∙ out) (bad ∙ ap suc ok)

  HasWritten-after :
      (w w' : W) (before after : List ℕ) (r : Option (Bool × W))
      → outgoing w' ≡ outgoing w ++ before
      → incoming w' ≡ incoming w
      → patience w' ≤ patience w
      → failures w' ≡ failures w
      → HasWritten incoming outgoing patience failures w' after r
      → HasWritten incoming outgoing patience failures w (before ++ after) r
  HasWritten-after w w' before after _ e inc calm ok (HasWritten.whole w'' out inc' calm' ok') =
      HasWritten.whole w'' (out ∙ ap (λ xs. xs ++ after) e ∙ append_assoc (outgoing w) before after)
        (inc' ∙ inc) (omega arith) (ok' ∙ ok)
  HasWritten-after w w' before after _ e inc calm ok
        (HasWritten.broken front back w'' split left out inc' bad) =
      HasWritten.broken (before ++ front) back w''
        (append_assoc before front back ∙ ap (λ xs. before ++ xs) split) left
        (out ∙ ap (λ xs. xs ++ front) e ∙ append_assoc (outgoing w) before front) (inc' ∙ inc)
        (bad ∙ ap suc ok)

module _ {W : Type 0} (socket : Socket W) (incoming outgoing : W → List ℕ)
    (patience failures : W → ℕ) (laws : IsSocket socket incoming outgoing patience failures) where
  -- `read_exact` returns, given more rounds than bytes and interruptions: either with exactly the next
  -- `n` incoming bytes, in order, and no call that found the connection over, or with false, after
  -- exactly one such call and fewer than `n` bytes. An interruption is no such call.
  pub read_exact-HasRead :
      (fuel : ℕ) (w : W) (n : ℕ)
      → n + patience w < fuel
      → HasRead incoming outgoing patience failures w n (read_exact socket fuel w n)
  unfolding read_exact
  read_exact-HasRead zero w n enough = absurd (omega arith)
  read_exact-HasRead (suc fuel) w n enough = elim (Bool-cases (n == 0)) [
    | inl done ↦
        rw done
          (HasRead.whole [] w (omega (arith, (==_iff n 0).0 done)) refl refl (omega arith) refl)
    | inr more ↦
        rw more (on_result (read_exact-HasRead fuel) (socket.recv w n).0 refl (ground arith))
  ]
    where
      ends :
          over (socket.recv w n).0 ≡ 1
          → 0 < n
          → HasRead incoming outgoing patience failures w n (some (none, (socket.recv w n).1))
      ends e pos =
          HasRead.broken [] (socket.recv w n).1 pos (laws.recv_over w n e) (laws.recv_outgoing w n)
            (omega (arith, laws.recv_failures w n, e))

      on_result :
          ((v : W) (k : ℕ)
            → k + patience v < fuel
            → HasRead incoming outgoing patience failures v k (read_exact socket fuel v k))
          → (r : Received) → (socket.recv w n).0 ≡ r
          → 0 < n
          → HasRead incoming outgoing patience failures w n
              (read_on socket (read_exact socket fuel) n r (socket.recv w n).1)
      on_result again (got bytes) e pos =
          let law = laws.recv_got w n bytes e in
          let w' : W = (socket.recv w n).1 in
          let some_bytes : 0 < length bytes = law.1 pos in
          HasRead-prepend socket incoming outgoing patience failures w w' n bytes
            (read_exact socket fuel w' (n - length bytes)) law.0 law.2 (laws.recv_outgoing w n)
            (laws.recv_patience w n)
            (laws.recv_failures w n ∙ ap (λ r. failures w + over r) e ∙ omega arith)
            (again w' (n - length bytes) (omega (arith, law.2, laws.recv_patience w n, some_bytes)))
      on_result again closed e pos = ends (ap over e) pos
      on_result again Received.interrupted e pos =
          let law = laws.recv_interrupted w n e in
          let w' : W = (socket.recv w n).1 in
          HasRead-retry socket incoming outgoing patience failures w w' n
            (read_exact socket fuel w' n) law.0 (laws.recv_outgoing w n) (laws.recv_patience w n)
            (laws.recv_failures w n ∙ ap (λ r. failures w + over r) e ∙ omega arith)
            (again w' n (omega (arith, law.1)))
      on_result again Received.failed e pos = ends (ap over e) pos

  -- `write_exact` returns, given more rounds than bytes and interruptions: either it has added exactly
  -- the bytes, in order, to what the peer is given, and no call failed, or it returns false, after
  -- exactly one call that failed and with a part of the bytes, from the first on, added. An interruption
  -- is no such call.
  pub write_exact-HasWritten :
      (fuel : ℕ) (w : W) (bytes : List ℕ)
      → length bytes + patience w < fuel
      → HasWritten incoming outgoing patience failures w bytes (write_exact socket fuel w bytes)
  unfolding write_exact
  write_exact-HasWritten zero w bytes enough = absurd (omega arith)
  write_exact-HasWritten (suc fuel) w [] enough =
      HasWritten.whole w (sym (append-nil (outgoing w))) refl (omega arith) refl
  write_exact-HasWritten (suc fuel) w (x ∷ xs) enough =
      let more : (suc (length xs) == 0) ≡ false = ground arith in
      rw more (on_result (write_exact-HasWritten fuel) (socket.send w (x ∷ xs)).0 refl)
    where
      w' : W
      w' = (socket.send w (x ∷ xs)).1

      on_result :
          ((v : W) (out : List ℕ)
            → length out + patience v < fuel
            → HasWritten incoming outgoing patience failures v out (write_exact socket fuel v out))
          → (r : Sent) → (socket.send w (x ∷ xs)).0 ≡ r
          → HasWritten incoming outgoing patience failures w
              (x ∷ xs)
              (write_on socket (write_exact socket fuel) (x ∷ xs) r w')
      on_result again (moved n) e =
          let law = laws.send_moved w (x ∷ xs) n e in
          subst
            (λ all.
              HasWritten incoming outgoing patience failures w all
                (write_exact socket fuel w' (drop n (x ∷ xs))))
            (take-append-drop n (x ∷ xs))
            (HasWritten-after socket incoming outgoing patience failures w w' (take n (x ∷ xs))
              (drop n (x ∷ xs)) (write_exact socket fuel w' (drop n (x ∷ xs))) law.0
              (laws.send_incoming w (x ∷ xs)) (laws.send_patience w (x ∷ xs))
              (laws.send_failures w (x ∷ xs) ∙ ap (λ r. failures w + refused r) e ∙ omega arith)
              (again w' (drop n (x ∷ xs)) (
                omega
                  (arith, law.1, law.2, laws.send_patience w (x ∷ xs), length-drop n (x ∷ xs)))))
      on_result again Sent.interrupted e =
          let law = laws.send_interrupted w (x ∷ xs) e in
          HasWritten-after socket incoming outgoing patience failures w w' [] (x ∷ xs)
            (write_exact socket fuel w' (x ∷ xs)) (law.0 ∙ sym (append-nil (outgoing w)))
            (laws.send_incoming w (x ∷ xs)) (laws.send_patience w (x ∷ xs))
            (laws.send_failures w (x ∷ xs) ∙ ap (λ r. failures w + refused r) e ∙ omega arith)
            (again w' (x ∷ xs) (omega (arith, law.1)))
      on_result again Sent.failed e =
          HasWritten.broken [] (x ∷ xs) w' refl (omega arith)
            (laws.send_refused w (x ∷ xs) e ∙ sym (append-nil (outgoing w)))
            (laws.send_incoming w (x ∷ xs))
            (laws.send_failures w (x ∷ xs) ∙ ap (λ r. failures w + refused r) e ∙ omega arith)
