-- ===== src/Sequencer/Stream.antt =====
-- Calls of `accept` and `next_deliverable` of market_data/sequence_manager.cpp in any order.
use c_low_latency_trading_sy.Prelude.{
  ℕ, suc, ◌+◌, ◌*◌, ◌≤◌, ◌<◌, ◌≡◌, subst, Bool, true, List, [], ◌∷◌, arith, length, none, some,
  word64,
}
use c_low_latency_trading_sy.Message.{FeedMessage}
use c_low_latency_trading_sy.Sequencer.{SequenceManager, World, accept, next_deliverable}
use c_low_latency_trading_sy.Sequencer.Recover.{IsTyped}
use c_low_latency_trading_sy.Sequencer.Deliver.{Delivers, next_deliverable-Delivers}
use c_low_latency_trading_sy.Sequencer.Accept.{IsReady, accept-IsReady}

-- Numbers that rise from `lo` on, none of them twice.
abbrev pub Ascends : ℕ → List ℕ → Type 0
Ascends lo [] = Unit
Ascends lo (x ∷ xs) = (lo ≤ x) × Ascends (suc x) xs

Ascends-mono : (a b : ℕ) (xs : List ℕ) → a ≤ b → Ascends b xs → Ascends a xs
Ascends-mono a b [] le h = tt
Ascends-mono a b (x ∷ xs) le h = (omega arith, h.1)

-- The calls of one run, with the numbers of the messages delivered. The bounds keep the numbers
-- clear of the wrap at 2 ^ 64.
module _ {W : Type 0} (world : World W) (client : Bool) where
  pub data Trace : SequenceManager → W → List ℕ → Type 0 where
    stop : (m : SequenceManager) (w : W) → Trace m w []
    arrives :
        (incoming : FeedMessage) (m : SequenceManager) (w : W) {out : List ℕ}
        → incoming.message.sequence_number + length m.buffer < word64
        → Trace (accept world client incoming (m, w)).0 (accept world client incoming (m, w)).1 out
        → Trace m w out
    waits :
        (m n : SequenceManager) (w : W) {out : List ℕ}
        → m.started ≡ true
        → m.expected + 2 * length m.buffer + 1 < word64
        → next_deliverable m ≡ some (none, n)
        → Trace n w out
        → Trace m w out
    delivers :
        (m n : SequenceManager) (w : W) (p : FeedMessage) {out : List ℕ}
        → m.started ≡ true
        → m.expected + 2 * length m.buffer + 1 < word64
        → next_deliverable m ≡ some (some p, n)
        → Trace n w out
        → Trace m w (p.message.sequence_number ∷ out)

  -- Whatever arrives, in whatever order, is lost, duplicated or recovered, and whenever the manager is
  -- drained: the delivered sequence numbers rise strictly, from the expected one on.
  pub Trace-Ascends :
      {m : SequenceManager} {w : W} {out : List ℕ}
      → IsTyped world
      → IsReady m
      → Trace m w out
      → Ascends m.expected out
  Trace-Ascends typed r (stop m w) = tt
  Trace-Ascends typed r (arrives incoming m w {out} word rest) =
      let (r', le, on) = accept-IsReady world typed client incoming m w r word in
      Ascends-mono m.expected _ out le (Trace-Ascends typed r' rest)
  Trace-Ascends typed r (waits m n w {out} on word e rest) =
      let d : Delivers m (some (none, n)) =
        subst (Delivers m) e (next_deliverable-Delivers m r.sound on word) in
      Ascends-mono m.expected n.expected out d.1.from_expected (
        Trace-Ascends typed
          (record {
            sound = d.0;
            vacant = λ off. cc (d.3, on, off);
            fresh = λ off. cc (d.3, on, off);
          })
          rest)
  Trace-Ascends typed r (delivers m n w p {out} on word e rest) =
      let d : Delivers m (some (some p, n)) =
        subst (Delivers m) e (next_deliverable-Delivers m r.sound on word) in
      (
        d.1.from_expected,
        subst (λ t. Ascends t out) d.4
            (Trace-Ascends typed
              (record {
                sound = d.0;
                vacant = λ off. cc (d.5, on, off);
                fresh = λ off. cc (d.5, on, off);
              })
              rest),
      )
