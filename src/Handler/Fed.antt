-- ===== src/Handler/Fed.antt =====
-- The whole loop of market_data/market_data_handler.cpp, with the consumer of its ring, the network
-- and signals.
use c_low_latency_trading_sy.Prelude.{
  ℕ, ◌+◌, ◌%◌, ◌≤◌, ◌<◌, ◌≡◌, subst, arith, Bool, true, false, List, [], ◌∷◌, ◌++◌, word64,
  if◌then◌else◌, length,
}
use c_low_latency_trading_sy.Message.{PipelineEvent}
use c_low_latency_trading_sy.Sequencer.{World}
use c_low_latency_trading_sy.Sequencer.Recover.{IsTyped}
use c_low_latency_trading_sy.Sequencer.Accept.{IsReady, accept-IsReady, init-IsReady}
use c_low_latency_trading_sy.Spsc.{try_push}
use c_low_latency_trading_sy.Spsc.Inv.{Inv}
use c_low_latency_trading_sy.Spsc.Refine.{contents}
use c_low_latency_trading_sy.Handler.{Layout, is_enough, on_timeout}
use c_low_latency_trading_sy.Handler.Steps.{
  Phase, System, Step, Reach, Clear, AllClear, taken, start,
}
use c_low_latency_trading_sy.Handler.Steps
use c_low_latency_trading_sy.Handler.Handed.{
  Rises, Rises-mono, Rises-snoc, handed_on, InHand, pop_moves, drained-IsReady, delivered-IsReady,
}
use c_low_latency_trading_sy.Handler.Counted.{
  on_timeout_kept, pushed_on, refused_on, Reach-IsCounted,
}

pub record IsFed {W : Type 0} (k : ℕ) (zeroed : PipelineEvent) (s : System W) : Type 0 where
  pub ready : IsReady s.handler.sequencer
  pub in_order : InHand s.phase (handed_on k zeroed s) s.handler.sequencer.expected

at_rest :
    (c : Bool) (es : List PipelineEvent) (hi : ℕ)
    → Rises 0 es hi
    → InHand (if c then Phase.closing else Phase.receiving) es hi
at_rest true es hi h = h
at_rest false es hi h = h

module _ {W : Type 0} (world : World W) (typed : IsTyped world) (layout : Layout) (client : Bool)
    (k : ℕ) (zeroed : PipelineEvent) (idle_ms expect : ℕ) where
  in_phase :
      (s : System W) (p : Phase)
      → IsFed k zeroed s
      → s.phase ≡ p
      → InHand p (handed_on k zeroed s) s.handler.sequencer.expected
  in_phase s p f e =
      subst (λ q. InHand q (handed_on k zeroed s) s.handler.sequencer.expected) e f.in_order

  step-IsFed :
      (s t : System W) (step : Step world layout client k zeroed idle_ms expect s t)
      → Clear world layout client k zeroed idle_ms expect step
      → Inv k s.queue
      → IsFed k zeroed s
      → IsFed k zeroed t
  step-IsFed s _ (Steps.stops e) clear v f = record { ready = f.ready; in_order = in_phase s _ f e }
  step-IsFed s _ (Steps.fails arrival e r) clear v f = record {
    ready = f.ready;
    in_order = in_phase s _ f e;
  }
  step-IsFed s _ (Steps.idles arrival e r) clear v f =
      let kept = on_timeout_kept idle_ms s.handler in
      record {
        ready = rw kept.0 f.ready;
        in_order =
            at_rest (on_timeout idle_ms s.handler).0 (handed_on k zeroed s)
              (on_timeout idle_ms s.handler).1.sequencer.expected (rw kept.0 (in_phase s _ f e));
      }
  step-IsFed s _ (Steps.rejects arrival bytes e r p) clear v f = record {
    ready = f.ready;
    in_order = f.in_order;
  }
  step-IsFed s _ (Steps.parses arrival bytes messages t0 t1 e r p) clear v f = record {
    ready = f.ready;
    in_order = in_phase s _ f e;
  }
  step-IsFed s _ (Steps.accepts message messages t0 t1 e) word v f =
      let a = accept-IsReady world typed client _ s.handler.sequencer s.world f.ready word in
      record {
        ready = a.0;
        in_order =
            Rises-mono 0 s.handler.sequencer.expected _ (handed_on k zeroed s) a.1
              (in_phase s _ f e);
      }
  step-IsFed s _ (Steps.accepted t0 t1 e) clear v f = record {
    ready = f.ready;
    in_order = in_phase s _ f e;
  }
  step-IsFed s _ (Steps.delivers p m t2 e next) word v f =
      let d = delivered-IsReady k zeroed s.handler.sequencer m p f.ready word next in
      record {
        ready = d.0;
        in_order = (
          Rises-mono 0 s.handler.sequencer.expected p.message.sequence_number (handed_on k zeroed s)
              d.1 (in_phase s _ f e),
          d.2,
        );
      }
  step-IsFed s _ (Steps.drained m e next) word v f =
      let d = drained-IsReady k zeroed s.handler.sequencer m f.ready word next in
      record {
        ready = d.0;
        in_order = at_rest (is_enough expect s.handler) (handed_on k zeroed s) m.expected (
            Rises-mono 0 s.handler.sequencer.expected m.expected (handed_on k zeroed s) d.1
              (in_phase s _ f e));
      }
  step-IsFed s _ (Steps.pushes event e ok) clear v f =
      let more : s.popped ++ contents k zeroed (try_push k s.queue event).1
          ≡ handed_on k zeroed s ++ event ∷ [] =
        pushed_on k zeroed s event v ok in
      let held = in_phase s _ f e in
      record {
        ready = f.ready;
        in_order =
            rw more (
              Rises-snoc 0 s.handler.sequencer.expected (handed_on k zeroed s) event held.0 held.1);
      }
  step-IsFed s _ (Steps.spins event t2 e full) clear v f =
      let same : s.popped ++ contents k zeroed (try_push k s.queue event).1 ≡ handed_on k zeroed s =
        refused_on k zeroed s event v full in
      let held = in_phase s _ f e in record { ready = f.ready; in_order = rw same held }
  step-IsFed s _ (Steps.abandons event e full) clear v f =
      let same : s.popped ++ contents k zeroed (try_push k s.queue event).1 ≡ handed_on k zeroed s =
        refused_on k zeroed s event v full in
      let held = in_phase s _ f e in
      record {
        ready = f.ready;
        in_order = rw same (
            Rises-mono 0 event.msg.sequence_number s.handler.sequencer.expected
              (handed_on k zeroed s) (omega (arith, held.1)) held.0);
      }
  step-IsFed s _ (Steps.closes e) clear v f = record {
    ready = f.ready;
    in_order = in_phase s _ f e;
  }
  step-IsFed s _ Steps.pops clear v f =
      let same = pop_moves k zeroed s.queue s.popped v in
      record { ready = f.ready; in_order = rw same f.in_order }

  Reach-IsFed :
      (reorder : ℕ) (s : System W)
      → 0 < reorder
      → reorder < word64
      → k ≤ 63
      → (r : Reach world layout client k zeroed idle_ms expect reorder s)
      → AllClear world layout client k zeroed idle_ms expect r
      → IsFed k zeroed s
  Reach-IsFed reorder _ room word few (Steps.here w) clear = record {
    ready = init-IsReady reorder room word;
    in_order = omega arith;
  }
  Reach-IsFed reorder t room word few (Steps.next {s} r step) clear =
      step-IsFed s t step clear.1
        (Reach-IsCounted world layout client k zeroed idle_ms expect reorder s few r).ring
        (Reach-IsFed reorder s room word few r clear.0)

  InHand-Rises : (p : Phase) (es : List PipelineEvent) (hi : ℕ) → InHand p es hi → Rises 0 es hi
  InHand-Rises (Phase.pushing e) es hi h =
      Rises-mono 0 e.msg.sequence_number hi es (omega (arith, h.1)) h.0
  InHand-Rises Phase.receiving es hi h = h
  InHand-Rises Phase.draining es hi h = h
  InHand-Rises Phase.closing es hi h = h
  InHand-Rises Phase.closed es hi h = h
  InHand-Rises (Phase.accepting t0 t1 ms) es hi h = h

  -- In every state that the handler can reach by steps at which the numbers of the messages and the
  -- number expected next stay clear of the wrap at 2 ^ 64, by a reorder window or two, with whatever a
  -- typed recovery client answers, however often the ring is full, and whenever the consumer pops or a
  -- signal comes: the sequence numbers of the events that the consumer has popped, followed by those in
  -- the ring, rise strictly, and none is as high as the next one that the manager expects. The manager
  -- has room and the ring at most 2 ^ 63 slots.
  pub Reach-Rises :
      (reorder : ℕ) (s : System W)
      → 0 < reorder
      → reorder < word64
      → k ≤ 63
      → (r : Reach world layout client k zeroed idle_ms expect reorder s)
      → AllClear world layout client k zeroed idle_ms expect r
      → Rises 0 (handed_on k zeroed s) s.handler.sequencer.expected
  Reach-Rises reorder s room word few r clear =
      InHand-Rises s.phase (handed_on k zeroed s) s.handler.sequencer.expected
        (Reach-IsFed reorder s room word few r clear).in_order

  -- In every state that the handler can reach, its count of published events is, modulo 2 ^ 64, that of the
  -- events popped or in the ring and of those given up at a full ring after a signal.
  pub Reach-counts :
      (reorder : ℕ) (s : System W)
      → 0 < reorder
      → reorder < word64
      → k ≤ 63
      → Reach world layout client k zeroed idle_ms expect reorder s
      → s.handler.published % word64 ≡ (length (handed_on k zeroed s) + length s.abandoned) % word64
  Reach-counts reorder s room word few r =
      (Reach-IsCounted world layout client k zeroed idle_ms expect reorder s few r).counted
