-- ===== src/Spsc/Steps.antt =====
-- `try_push` and `try_pop` of include/llte/spsc_queue.hpp split at their accesses to memory that the
-- other side reads or writes, for one producer and one consumer that run at the same time.
-- An access is one step. A load of the other side's index may give any value from the one that this
-- side saw last up to the newest, which is what acquire and release promise of one atomic. The slot
-- and the index are stored in two steps, and the slot's value counts only once its index is released.
use c_low_latency_trading_sy.Prelude.{
  ℕ, ◌<◌, ◌≤◌, ◌≡◌, true, false, List, [], ◌∷◌, ◌++◌, add64, sub64, word64,
}
use c_low_latency_trading_sy.Spsc.{Queue, init, looks_full, looks_empty, read_slot, write_slot}

-- Where each side stands inside its call.
pub data Producer {ℓ} (A : Type ℓ) : Type ℓ where
  outside : Producer A
  reserved : A → Producer A
  stored : A → Producer A

pub data Consumer {ℓ} (A : Type ℓ) : Type ℓ where
  outside : Consumer A
  claimed : Consumer A
  copied : A → Consumer A

-- `sent` and `received` record the values of the calls that returned true.
pub record System {ℓ} (A : Type ℓ) : Type ℓ where
  pub ring : Queue A
  pub producer : Producer A
  pub consumer : Consumer A
  pub sent : List A
  pub received : List A

module _ {ℓ} {A : Type ℓ} where
  -- The indices that an acquire load may give.
  abbrev pub SeesRead : Queue A → ℕ → Type 0
  SeesRead q r = (r < word64) × (sub64 q.read_idx r ≤ sub64 q.read_idx q.cached_read_idx)

  abbrev pub SeesWrite : Queue A → ℕ → Type 0
  SeesWrite q w = (w < word64) × (sub64 q.write_idx w ≤ sub64 q.write_idx q.cached_write_idx)

module _ {ℓ} {A : Type ℓ} (k : ℕ) (zeroed : A) where
  pub data Step : System A → System A → Type ℓ where
    -- `try_push`
    reserve :
        (s : System A) (v : A)
        → s.producer ≡ Producer.outside
        → looks_full k s.ring ≡ false
        → Step s (record s { producer = Producer.reserved v })
    reserve_reloaded :
        (s : System A) (v : A) (r : ℕ)
        → s.producer ≡ Producer.outside
        → looks_full k s.ring ≡ true
        → SeesRead s.ring r
        → looks_full k (record s.ring { cached_read_idx = r }) ≡ false
        → Step s (record s {
          ring = record s.ring { cached_read_idx = r };
          producer = Producer.reserved v;
        })
    refuse :
        (s : System A) (r : ℕ)
        → s.producer ≡ Producer.outside
        → looks_full k s.ring ≡ true
        → SeesRead s.ring r
        → looks_full k (record s.ring { cached_read_idx = r }) ≡ true
        → Step s (record s { ring = record s.ring { cached_read_idx = r } })
    store :
        (s : System A) (v : A)
        → s.producer ≡ Producer.reserved v
        → Step s (record s {
          ring = record s.ring { buffer = write_slot k s.ring.buffer s.ring.write_idx v };
          producer = Producer.stored v;
        })
    release_write :
        (s : System A) (v : A)
        → s.producer ≡ Producer.stored v
        → Step s (record s {
          ring = record s.ring { write_idx = add64 s.ring.write_idx 1 };
          producer = Producer.outside;
          sent = s.sent ++ v ∷ [];
        })
    -- `try_pop`
    claim :
        (s : System A)
        → s.consumer ≡ Consumer.outside
        → looks_empty s.ring ≡ false
        → Step s (record s { consumer = Consumer.claimed })
    claim_reloaded :
        (s : System A) (w : ℕ)
        → s.consumer ≡ Consumer.outside
        → looks_empty s.ring ≡ true
        → SeesWrite s.ring w
        → looks_empty (record s.ring { cached_write_idx = w }) ≡ false
        → Step s (record s {
          ring = record s.ring { cached_write_idx = w };
          consumer = Consumer.claimed;
        })
    find_empty :
        (s : System A) (w : ℕ)
        → s.consumer ≡ Consumer.outside
        → looks_empty s.ring ≡ true
        → SeesWrite s.ring w
        → looks_empty (record s.ring { cached_write_idx = w }) ≡ true
        → Step s (record s { ring = record s.ring { cached_write_idx = w } })
    copy :
        (s : System A)
        → s.consumer ≡ Consumer.claimed
        → Step s (record s {
          consumer = Consumer.copied (read_slot k zeroed s.ring.buffer s.ring.read_idx);
        })
    release_read :
        (s : System A) (x : A)
        → s.consumer ≡ Consumer.copied x
        → Step s (record s {
          ring = record s.ring { read_idx = add64 s.ring.read_idx 1 };
          consumer = Consumer.outside;
          received = s.received ++ x ∷ [];
        })

  abbrev pub start : System A
  start = record {
    ring = init k zeroed;
    producer = Producer.outside;
    consumer = Consumer.outside;
    sent = [];
    received = [];
  }

  pub data Reach : System A → Type ℓ where
    here : Reach start
    next : {s t : System A} → Reach s → Step s t → Reach t
