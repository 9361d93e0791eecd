-- ===== src/Handler/Counted.antt =====
-- The ring of market_data/market_data_handler.cpp and its count of published events, step by step.
use c_low_latency_trading_sy.Prelude.{
  ℕ, ◌+◌, ◌%◌, ◌≤◌, ◌≡◌, refl, sym, ap, ◌∙◌, arith, Bool, true, false, [], ◌∷◌, ◌++◌, append_assoc,
  word64, length, length-append,
}
use c_low_latency_trading_sy.Message.{PipelineEvent}
use c_low_latency_trading_sy.Sequencer.{World}
use c_low_latency_trading_sy.Spsc.{try_push}
use c_low_latency_trading_sy.Spsc.Inv.{Inv, init-Inv, try_push-Inv, try_pop-Inv}
use c_low_latency_trading_sy.Spsc.Refine.{contents}
use c_low_latency_trading_sy.Handler.{Handler, Layout, on_timeout}
use c_low_latency_trading_sy.Handler.Steps.{Phase, System, Step, Reach, taken, start}
use c_low_latency_trading_sy.Handler.Steps
use c_low_latency_trading_sy.Handler.Handed.{handed_on, push_took, push_refused, pop_moves}

pub record IsCounted {W : Type 0} (k : ℕ) (zeroed : PipelineEvent) (s : System W) : Type 0 where
  pub ring : Inv k s.queue
  pub counted :
      s.handler.published % word64 ≡ (length (handed_on k zeroed s) + length s.abandoned) % word64

pub on_timeout_kept :
    (idle_ms : ℕ) (h : Handler)
    → ((on_timeout idle_ms h).1.sequencer ≡ h.sequencer)
      × ((on_timeout idle_ms h).1.published ≡ h.published)
on_timeout_kept idle_ms h = (ground arith, ground arith)

pub pushed_on :
    {W : Type 0} (k : ℕ) (zeroed : PipelineEvent) (s : System W) (event : PipelineEvent)
    → Inv k s.queue
    → (try_push k s.queue event).0 ≡ true
    → s.popped ++ contents k zeroed (try_push k s.queue event).1
      ≡ handed_on k zeroed s ++ event ∷ []
pushed_on k zeroed s event v ok =
    ap (λ es. s.popped ++ es) (push_took k zeroed s.queue event v ok)
    ∙ sym (append_assoc s.popped (contents k zeroed s.queue) (event ∷ []))

pub refused_on :
    {W : Type 0} (k : ℕ) (zeroed : PipelineEvent) (s : System W) (event : PipelineEvent)
    → Inv k s.queue
    → (try_push k s.queue event).0 ≡ false
    → s.popped ++ contents k zeroed (try_push k s.queue event).1 ≡ handed_on k zeroed s
refused_on k zeroed s event v full =
    ap (λ es. s.popped ++ es) (push_refused k zeroed s.queue event v full)

module _ {W : Type 0} (world : World W) (layout : Layout) (client : Bool) (k : ℕ)
    (zeroed : PipelineEvent) (idle_ms expect : ℕ) where
  step-IsCounted :
      (s t : System W)
      → Step world layout client k zeroed idle_ms expect s t
      → IsCounted k zeroed s
      → IsCounted k zeroed t
  step-IsCounted s _ (Steps.stops e) c = record { ring = c.ring; counted = c.counted }
  step-IsCounted s _ (Steps.fails arrival e r) c = record { ring = c.ring; counted = c.counted }
  step-IsCounted s _ (Steps.idles arrival e r) c = record {
    ring = c.ring;
    counted = rw (on_timeout_kept idle_ms s.handler).1 c.counted;
  }
  step-IsCounted s _ (Steps.rejects arrival bytes e r p) c = record {
    ring = c.ring;
    counted = c.counted;
  }
  step-IsCounted s _ (Steps.parses arrival bytes messages t0 t1 e r p) c = record {
    ring = c.ring;
    counted = c.counted;
  }
  step-IsCounted s _ (Steps.accepts message messages t0 t1 e) c = record {
    ring = c.ring;
    counted = c.counted;
  }
  step-IsCounted s _ (Steps.accepted t0 t1 e) c = record { ring = c.ring; counted = c.counted }
  step-IsCounted s _ (Steps.delivers p m t2 e next) c = record {
    ring = c.ring;
    counted = c.counted;
  }
  step-IsCounted s _ (Steps.drained m e next) c = record { ring = c.ring; counted = c.counted }
  step-IsCounted s _ (Steps.pushes event e ok) c =
      let more : s.popped ++ contents k zeroed (try_push k s.queue event).1
          ≡ handed_on k zeroed s ++ event ∷ [] =
        pushed_on k zeroed s event c.ring ok in
      record {
        ring = try_push-Inv k s.queue event c.ring;
        counted =
            omega
              (arith, c.counted, ap length more, length-append (handed_on k zeroed s) (event ∷ []));
      }
  step-IsCounted s _ (Steps.spins event t2 e full) c = record {
    ring = try_push-Inv k s.queue event c.ring;
    counted = rw (refused_on k zeroed s event c.ring full) c.counted;
  }
  step-IsCounted s _ (Steps.abandons event e full) c = record {
    ring = try_push-Inv k s.queue event c.ring;
    counted = omega (
      arith,
      c.counted,
      ap length (refused_on k zeroed s event c.ring full),
      length-append s.abandoned (event ∷ []),
    );
  }
  step-IsCounted s _ (Steps.closes e) c = record { ring = c.ring; counted = c.counted }
  step-IsCounted s _ Steps.pops c = record {
    ring = try_pop-Inv k zeroed s.queue c.ring;
    counted = rw (pop_moves k zeroed s.queue s.popped c.ring) c.counted;
  }

  pub Reach-IsCounted :
      (reorder : ℕ) (s : System W)
      → k ≤ 63
      → Reach world layout client k zeroed idle_ms expect reorder s
      → IsCounted k zeroed s
  Reach-IsCounted reorder _ few (Steps.here w) = record {
    ring = init-Inv k zeroed few;
    counted = refl;
  }
  Reach-IsCounted reorder t few (Steps.next {s} r step) =
      step-IsCounted s t step (Reach-IsCounted reorder s few r)
