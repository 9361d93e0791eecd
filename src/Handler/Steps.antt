-- ===== src/Handler/Steps.antt =====
-- The loop of market_data/market_data_handler.cpp step by step, with the consumer of the ring, the
-- clock, the socket and a signal that may come at any time.
use c_low_latency_trading_sy.Prelude.{
  ℕ, ◌+◌, ◌*◌, ◌<◌, ◌≡◌, Bool, true, false, List, [], ◌∷◌, ◌++◌, Option, none, some, word64,
  if◌then◌else◌, length,
}
use c_low_latency_trading_sy.Message.{MarketMessage, FeedMessage, PipelineEvent}
use c_low_latency_trading_sy.Sequencer.{SequenceManager, World, accept, next_deliverable}
use c_low_latency_trading_sy.Spsc.{Queue, try_push, try_pop}
use c_low_latency_trading_sy.Spsc
use c_low_latency_trading_sy.Handler.{
  Handler, Layout, Arrival, Received, receive, parse, on_timeout, note_packet, note_malformed,
  feed_message, event_of, note_spin, note_published, is_enough, started_with,
}

-- Where the handler stands: before `receive`, in the loop of `accept` with the messages to come, in the
-- loop of `next_deliverable`, in the loop of `try_push` with its event, past its loops, and past the
-- stores that say so.
pub data Phase : Type 0 where
  receiving draining closing closed : Phase
  accepting : ℕ → ℕ → List MarketMessage → Phase
  pushing : PipelineEvent → Phase

-- `queue`, `produced_count` and `producer_done` are in shared memory. `popped` is what the consumer has
-- taken out, and `abandoned` what the handler was about to push when a signal came.
pub record System (W : Type 0) : Type 0 where
  pub phase : Phase
  pub handler : Handler
  pub world : W
  pub queue : Queue PipelineEvent
  pub produced_count : ℕ
  pub producer_done : ℕ
  pub popped : List PipelineEvent
  pub abandoned : List PipelineEvent

-- What the consumer has, after a pop.
abbrev pub taken : List PipelineEvent → Option PipelineEvent → List PipelineEvent
taken events none = events
taken events (some event) = events ++ event ∷ []

module _ {W : Type 0} (world : World W) (layout : Layout) (client : Bool) (k : ℕ)
    (zeroed : PipelineEvent) (idle_ms expect : ℕ) where
  abbrev pub start : ℕ → W → System W
  start reorder w = record {
    phase = Phase.receiving;
    handler = started_with reorder;
    world = w;
    queue = Spsc.init k zeroed;
    produced_count = 0;
    producer_done = 0;
    popped = [];
    abandoned = [];
  }

  pub data Step (s : System W) : System W → Type 0 where
    -- `g_stop` is set.
    stops : s.phase ≡ Phase.receiving → Step s (record s { phase = Phase.closing })
    fails :
        (arrival : Arrival)
        → s.phase ≡ Phase.receiving
        → receive arrival ≡ Received.negative
        → Step s (record s { phase = Phase.closing })
    idles :
        (arrival : Arrival)
        → s.phase ≡ Phase.receiving
        → receive arrival ≡ Received.timed_out
        → Step s (record s {
          phase = if (on_timeout idle_ms s.handler).0 then Phase.closing else Phase.receiving;
          handler = (on_timeout idle_ms s.handler).1;
        })
    rejects :
        (arrival : Arrival) (bytes : List ℕ)
        → s.phase ≡ Phase.receiving
        → receive arrival ≡ Received.packet bytes
        → parse layout bytes ≡ none
        → Step s (record s { handler = note_malformed (note_packet s.handler) })
    parses :
        (arrival : Arrival) (bytes : List ℕ) (messages : List MarketMessage) (t0_recv t1_parsed : ℕ)
        → s.phase ≡ Phase.receiving
        → receive arrival ≡ Received.packet bytes
        → parse layout bytes ≡ some messages
        → Step s (record s {
          phase = Phase.accepting t0_recv t1_parsed messages;
          handler = note_packet s.handler;
        })
    accepts :
        (message : MarketMessage) (messages : List MarketMessage) (t0_recv t1_parsed : ℕ)
        → s.phase ≡ Phase.accepting t0_recv t1_parsed (message ∷ messages)
        → Step s (record s {
          phase = Phase.accepting t0_recv t1_parsed messages;
          handler = record s.handler {
            sequencer =
                (accept world client
                  (feed_message t0_recv t1_parsed message)
                  (s.handler.sequencer, s.world)).0;
          };
          world =
              (accept world client
                (feed_message t0_recv t1_parsed message)
                (s.handler.sequencer, s.world)).1;
        })
    accepted :
        (t0_recv t1_parsed : ℕ)
        → s.phase ≡ Phase.accepting t0_recv t1_parsed []
        → Step s (record s { phase = Phase.draining })
    delivers :
        (deliverable : FeedMessage) (m : SequenceManager) (t2_enqueue : ℕ)
        → s.phase ≡ Phase.draining
        → next_deliverable s.handler.sequencer ≡ some (some deliverable, m)
        → Step s (record s {
          phase = Phase.pushing (event_of deliverable t2_enqueue);
          handler = record s.handler { sequencer = m };
        })
    drained :
        (m : SequenceManager)
        → s.phase ≡ Phase.draining
        → next_deliverable s.handler.sequencer ≡ some (none, m)
        → Step s (record s {
          phase = if is_enough expect s.handler then Phase.closing else Phase.receiving;
          handler = record s.handler { sequencer = m };
          produced_count = s.handler.published;
        })
    pushes :
        (event : PipelineEvent)
        → s.phase ≡ Phase.pushing event
        → (try_push k s.queue event).0 ≡ true
        → Step s (record s {
          phase = Phase.draining;
          queue = (try_push k s.queue event).1;
          handler = note_published event s.handler;
        })
    spins :
        (event : PipelineEvent) (t2_enqueue : ℕ)
        → s.phase ≡ Phase.pushing event
        → (try_push k s.queue event).0 ≡ false
        → Step s (record s {
          phase = Phase.pushing (record event { t2_enqueue = t2_enqueue });
          queue = (try_push k s.queue event).1;
          handler = note_spin s.handler;
        })
    -- The ring is full and `g_stop` is set: the event is given up, but counted.
    abandons :
        (event : PipelineEvent)
        → s.phase ≡ Phase.pushing event
        → (try_push k s.queue event).0 ≡ false
        → Step s (record s {
          phase = Phase.draining;
          queue = (try_push k s.queue event).1;
          handler = note_published event s.handler;
          abandoned = s.abandoned ++ event ∷ [];
        })
    closes :
        s.phase ≡ Phase.closing
        → Step s (record s {
          phase = Phase.closed;
          produced_count = s.handler.published;
          producer_done = 1;
        })
    -- The consumer calls `try_pop`.
    pops : Step s (record s {
      queue = (try_pop k zeroed s.queue).1;
      popped = taken s.popped (try_pop k zeroed s.queue).0;
    })

  pub data Reach (reorder : ℕ) : System W → Type 0 where
    here : (w : W) → Reach reorder (start reorder w)
    next : {s t : System W} → Reach reorder s → Step s t → Reach reorder t

  -- The sequence numbers that a step reads are clear of the wrap at 2 ^ 64.
  abbrev pub Clear : {s t : System W} → Step s t → Type 0
  Clear {s} (accepts message messages t0 t1 e) =
      message.sequence_number + length s.handler.sequencer.buffer < word64
  Clear {s} (delivers p m t2 e found) =
      s.handler.sequencer.expected + 2 * length s.handler.sequencer.buffer + 1 < word64
  Clear {s} (drained m e found) =
      s.handler.sequencer.expected + 2 * length s.handler.sequencer.buffer + 1 < word64
  Clear (stops e) = Unit
  Clear (fails arrival e r) = Unit
  Clear (idles arrival e r) = Unit
  Clear (rejects arrival bytes e r p) = Unit
  Clear (parses arrival bytes messages t0 t1 e r p) = Unit
  Clear (accepted t0 t1 e) = Unit
  Clear (pushes event e ok) = Unit
  Clear (spins event t2 e full) = Unit
  Clear (abandons event e full) = Unit
  Clear (closes e) = Unit
  Clear pops = Unit

  abbrev pub AllClear : {reorder : ℕ} {s : System W} → Reach reorder s → Type 0
  AllClear (here w) = Unit
  AllClear (next r step) = AllClear r × Clear step
