-- ===== src/Handler/Handed.antt =====
-- What the steps of market_data/market_data_handler.cpp hand on: pushes, pops and deliveries.
use c_low_latency_trading_sy.Prelude.{
  ℕ, suc, ◌+◌, ◌*◌, ◌≤◌, ◌<◌, ◌≡◌, refl, ap, subst, ◌∙◌, arith, true, false, List, [], ◌∷◌, ◌++◌,
  append_assoc, none, some, word64, length, Bool-cases, inl, inr,
}
use c_low_latency_trading_sy.Message.{FeedMessage, PipelineEvent}
use c_low_latency_trading_sy.Sequencer.{SequenceManager, next_deliverable}
use c_low_latency_trading_sy.Sequencer.Deliver.{
  Delivers, next_deliverable-Delivers, next_deliverable_unstarted,
}
use c_low_latency_trading_sy.Sequencer.Accept.{IsReady}
use c_low_latency_trading_sy.Spsc.{Queue, try_push, try_pop}
use c_low_latency_trading_sy.Spsc.Inv.{Inv}
use c_low_latency_trading_sy.Spsc.Refine.{
  contents, try_push_refines, try_pop_refines, enqueue, dequeue,
}
use c_low_latency_trading_sy.Handler.Steps.{Phase, System, taken}

-- The sequence numbers rise strictly, all from `lo` on and below `hi`.
abbrev pub Rises : ℕ → List PipelineEvent → ℕ → Type 0
Rises lo [] hi = lo ≤ hi
Rises lo (e ∷ es) hi = (lo ≤ e.msg.sequence_number) × Rises (suc e.msg.sequence_number) es hi

pub Rises-mono : (lo a b : ℕ) (es : List PipelineEvent) → a ≤ b → Rises lo es a → Rises lo es b
Rises-mono lo a b [] le h = omega arith
Rises-mono lo a b (e ∷ es) le h = (h.0, Rises-mono (suc e.msg.sequence_number) a b es le h.1)

pub Rises-snoc :
    (lo hi : ℕ) (es : List PipelineEvent) (e : PipelineEvent)
    → Rises lo es e.msg.sequence_number
    → e.msg.sequence_number < hi
    → Rises lo (es ++ e ∷ []) hi
Rises-snoc lo hi [] e h lt = (h, lt)
Rises-snoc lo hi (x ∷ es) e h lt = (h.0, Rises-snoc (suc x.msg.sequence_number) hi es e h.1 lt)

-- What has gone into the ring, in order.
abbrev pub handed_on : {W : Type 0} → ℕ → PipelineEvent → System W → List PipelineEvent
handed_on k zeroed s = s.popped ++ contents k zeroed s.queue

-- With an event in hand, the bound is its number.
abbrev pub InHand : Phase → List PipelineEvent → ℕ → Type 0
InHand (Phase.pushing e) es hi = Rises 0 es e.msg.sequence_number × (e.msg.sequence_number < hi)
InHand Phase.receiving es hi = Rises 0 es hi
InHand Phase.draining es hi = Rises 0 es hi
InHand Phase.closing es hi = Rises 0 es hi
InHand Phase.closed es hi = Rises 0 es hi
InHand (Phase.accepting t0 t1 ms) es hi = Rises 0 es hi

module _ (k : ℕ) (zeroed : PipelineEvent) where
  pub push_took :
      (q : Queue PipelineEvent) (e : PipelineEvent)
      → Inv k q
      → (try_push k q e).0 ≡ true
      → contents k zeroed (try_push k q e).1 ≡ contents k zeroed q ++ e ∷ []
  unfolding enqueue
  push_took q e h ok =
      let r = try_push_refines k zeroed q e h in
      ground (arith, ok, ap (λ x. x.0) r, ap (λ x. x.1) r)

  pub push_refused :
      (q : Queue PipelineEvent) (e : PipelineEvent)
      → Inv k q
      → (try_push k q e).0 ≡ false
      → contents k zeroed (try_push k q e).1 ≡ contents k zeroed q
  unfolding enqueue
  push_refused q e h full =
      let r = try_push_refines k zeroed q e h in
      ground (arith, full, ap (λ x. x.0) r, ap (λ x. x.1) r)

  -- A pop moves the oldest entry to the consumer.
  pub pop_moves :
      (q : Queue PipelineEvent) (events : List PipelineEvent)
      → Inv k q
      → taken events (try_pop k zeroed q).0 ++ contents k zeroed (try_pop k zeroed q).1
        ≡ events ++ contents k zeroed q
  unfolding dequeue
  pop_moves q events h = by_contents (contents k zeroed q) refl
    where
      by_contents :
          (es : List PipelineEvent)
          → contents k zeroed q ≡ es
          → taken events (try_pop k zeroed q).0 ++ contents k zeroed (try_pop k zeroed q).1
            ≡ events ++ contents k zeroed q
      by_contents [] e =
          let r = try_pop_refines k zeroed q h ∙ ap dequeue e in
          rw (ap (λ x. x.0) r, ap (λ x. x.1) r, e) refl
      by_contents (x ∷ es) e =
          let r = try_pop_refines k zeroed q h ∙ ap dequeue e in
          rw (ap (λ x. x.0) r, ap (λ x. x.1) r, e) (append_assoc events (x ∷ []) es)

  pub drained-IsReady :
      (m n : SequenceManager)
      → IsReady m
      → m.expected + 2 * length m.buffer + 1 < word64
      → next_deliverable m ≡ some (none, n)
      → IsReady n × (m.expected ≤ n.expected)
  drained-IsReady m n r word e = elim (Bool-cases m.started) [
    | inl on ↦
        let d : Delivers m (some (none, n)) =
          subst (Delivers m) e (next_deliverable-Delivers m r.sound on word) in
        (
          record {
            sound = d.0;
            vacant = λ off. cc (d.3, on, off);
            fresh = λ off. cc (d.3, on, off);
          },
          d.1.from_expected,
        )
    | inr off ↦
        let same : m ≡ n = cc (next_deliverable_unstarted m off, e) in
        (subst IsReady same r, omega (arith, ap (λ x. x.expected) same))
  ]

  pub delivered-IsReady :
      (m n : SequenceManager) (p : FeedMessage)
      → IsReady m
      → m.expected + 2 * length m.buffer + 1 < word64
      → next_deliverable m ≡ some (some p, n)
      → IsReady n
        × (m.expected ≤ p.message.sequence_number)
        × (p.message.sequence_number < n.expected)
  delivered-IsReady m n p r word e = elim (Bool-cases m.started) [
    | inl on ↦
        let d : Delivers m (some (some p, n)) =
          subst (Delivers m) e (next_deliverable-Delivers m r.sound on word) in
        (
          record {
            sound = d.0;
            vacant = λ off. cc (d.5, on, off);
            fresh = λ off. cc (d.5, on, off);
          },
          d.1.from_expected,
          omega (arith, d.4),
        )
    | inr off ↦ absurd (cc (next_deliverable_unstarted m off, e))
  ]
