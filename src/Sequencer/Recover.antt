-- ===== src/Sequencer/Recover.antt =====
-- `recover_range` of market_data/sequence_manager.cpp.
use c_low_latency_trading_sy.Prelude.{
  ℕ, zero, suc, ◌+◌, ◌-◌, ◌≤◌, ◌<◌, ◌≡◌, refl, Bool, true, false, List, [], ◌∷◌, arith, length, inl,
  inr, Option, none, some, Bool-cases, word64, add64, leb,
}
use c_low_latency_trading_sy.Message.{MarketMessage}
use c_low_latency_trading_sy.Sequencer.{
  SequenceManager, World, take_recovered, take_all, absorb, ask, request_range, recover_range,
}
use c_low_latency_trading_sy.Sequencer.Grow.{
  IsSound, Grows, Grows-trans, Grows-stats, Covered, skip_range-Grows, take_recovered-Grows,
}

-- Sequence numbers are of 64 bits.
abbrev pub AreWords : List MarketMessage → Type 0
AreWords [] = Unit
AreWords (m ∷ ms) = (m.sequence_number < word64) × AreWords ms

-- What the type `uint64_t` says of the messages that a request returns.
abbrev pub IsTyped : {W : Type 0} → World W → Type 0
IsTyped {W} world =
    (w : W) (from to : ℕ) (ms : List MarketMessage)
    → (world.request w from to).0 ≡ some ms
    → AreWords ms

module _ {W : Type 0} (world : World W) where
  take_all-Grows :
      (arrived : ℕ) (messages : List MarketMessage) (m : SequenceManager) (w : W)
      → IsSound m
      → AreWords messages
      → Grows m (take_all world arrived messages (m, w)).0
  unfolding take_all
  take_all-Grows arrived [] m w v h = Grows-stats m m.stats v
  take_all-Grows arrived (message ∷ messages) m w v h =
      let g : Grows m (take_recovered world arrived message (m, w)).0 =
        take_recovered-Grows world arrived message m w v h.0 in
      Grows-trans g (take_all-Grows arrived messages _ _ g.sound h.1)

  absorb-Grows :
      (m : SequenceManager) (reply : Option (List MarketMessage)) (w : W)
      → IsSound m
      → ((ms : List MarketMessage) → reply ≡ some ms → AreWords ms)
      → Grows m (absorb world m reply w).1.0
  unfolding absorb
  absorb-Grows m none w v words = Grows-stats m m.stats v
  absorb-Grows m (some ms) w v words = take_all-Grows (world.now_ns w).0 ms m _ v (words ms refl)

  module _ (typed : IsTyped world) where
    ask-Grows :
        (start to : ℕ) (m : SequenceManager) (w : W)
        → IsSound m
        → Grows m (ask world start to (m, w)).1.0
    unfolding ask
    ask-Grows start to m w v =
        let counted : Grows m _ =
          Grows-stats m (record m.stats { recovery_requests = add64 m.stats.recovery_requests 1 })
            v in
        Grows-trans counted (absorb-Grows _ _ _ counted.sound (typed w start _))

    request_range-Grows :
        (fuel start to : ℕ) (m : SequenceManager) (w : W)
        → IsSound m
        → Grows m (request_range world fuel start to (m, w)).0
    unfolding request_range
    request_range-Grows zero start to m w v = Grows-stats m m.stats v
    request_range-Grows (suc fuel) start to m w v =
        let g : Grows m (ask world start to (m, w)).1.0 = ask-Grows start to m w v in
        elim (Bool-cases (leb start to)) [
          | inr done ↦ rw done (Grows-stats m m.stats v)
          | inl more ↦ rw more (elim (Bool-cases (ask world start to (m, w)).0) [
            | inr failed ↦ rw failed g
            | inl answered ↦ rw answered (Grows-trans g (request_range-Grows fuel _ to _ _ g.sound))
          ])
        ]

    -- Recovery of a gap inside the window leaves none of its slots empty, whatever the client
    -- answers or fails to answer, and whether or not there is one.
    pub recover_range-Grows :
        (client : Bool) (from to : ℕ) (m : SequenceManager) (w : W)
        → IsSound m
        → m.expected ≤ from
        → from ≤ suc to
        → suc to ≤ m.expected + length m.buffer
        → let n = (recover_range world client from to (m, w)).0 in
          Grows m n × Covered from (suc to - from) n
    unfolding recover_range
    recover_range-Grows true from to m w v lo le hi =
        let noted : Grows m _ = Grows-stats m _ v in
        let asked : Grows m _ =
          Grows-trans noted (request_range-Grows (length m.buffer) from to _ w noted.sound) in
        let (skipped, covered) =
          skip_range-Grows (suc to - from) from _ asked.sound (omega (arith, asked.expected))
            (omega (arith, asked.expected, asked.size)) in
        (Grows-trans asked skipped, covered)
    recover_range-Grows false from to m w v lo le hi =
        let noted : Grows m _ = Grows-stats m _ v in
        let (skipped, covered) = skip_range-Grows (suc to - from) from _ noted.sound lo span in
        (Grows-trans noted skipped, covered)
      where
        span : from + (suc to - from) ≤ m.expected + length m.buffer
        span = omega arith
