-- ===== src/Spsc/Safety.antt =====
-- The states that the one producer and the one consumer of include/llte/spsc_queue.hpp reach.
use c_low_latency_trading_sy.Prelude.{
  ℕ, suc, ◌+◌, ◌-◌, ◌%◌, ◌^◌, ◌≤◌, ◌<◌, ◌≡◌, ◌≢◌, refl, sym, ap, subst, ◌∙◌, List, [], ◌∷◌, ◌++◌,
  arith, add64, sub64, word64, length, bit_and, leb→gt, append_assoc,
}
use c_low_latency_trading_sy.Spsc.{Queue, read_slot, write_slot}
use c_low_latency_trading_sy.Spsc.Window.{slot-ne, read_slot-write_slot, read_slot-write_slot_ne}
use c_low_latency_trading_sy.Spsc.Inv.{
  Inv, init-Inv, store-Inv, release_write-Inv, release_read-Inv, see_read-Inv, see_write-Inv,
}
use c_low_latency_trading_sy.Spsc.Refine.{
  contents, length-contents, contents-release, contents-store, contents-consume, sub64_pos,
}
use c_low_latency_trading_sy.Spsc.Steps.{Producer, Consumer, System, Step, Reach, here, next}

module _ {ℓ} {A : Type ℓ} (k : ℕ) (zeroed : A) where
  -- What a side inside its call has made sure of: room, or an entry, by its own view of the indices,
  -- and the value that it has moved.
  abbrev pub ProducerHolds : List A → ℕ → ℕ → Producer A → Type ℓ
  ProducerHolds buf write cached_read Producer.outside = Unit
  ProducerHolds buf write cached_read (Producer.reserved v) =
      (sub64 write cached_read < 2 ^ k) × Unit {ℓ}
  ProducerHolds buf write cached_read (Producer.stored v) =
      (sub64 write cached_read < 2 ^ k) × (read_slot k zeroed buf write ≡ v)

  abbrev pub ConsumerHolds : List A → ℕ → ℕ → Consumer A → Type ℓ
  ConsumerHolds buf read cached_write Consumer.outside = Unit
  ConsumerHolds buf read cached_write Consumer.claimed = (0 < sub64 cached_write read) × Unit {ℓ}
  ConsumerHolds buf read cached_write (Consumer.copied x) =
      (0 < sub64 cached_write read) × (read_slot k zeroed buf read ≡ x)

  pub record IsSafe (s : System A) : Type ℓ where
    pub ring : Inv k s.ring
    pub producer : ProducerHolds s.ring.buffer s.ring.write_idx s.ring.cached_read_idx s.producer
    pub consumer : ConsumerHolds s.ring.buffer s.ring.read_idx s.ring.cached_write_idx s.consumer
    pub fifo : s.sent ≡ s.received ++ contents k zeroed s.ring

  -- While there is room and an entry, the slot to fill is not the slot to empty.
  slots_apart :
      (q : Queue A)
      → Inv k q
      → sub64 q.write_idx q.read_idx < 2 ^ k
      → 0 < sub64 q.write_idx q.read_idx
      → bit_and q.write_idx (2 ^ k - 1) ≢ bit_and q.read_idx (2 ^ k - 1)
  slots_apart q h room left =
      let n : ℕ = sub64 q.write_idx q.read_idx - 1 in
      let e : (q.read_idx + suc n) % word64 ≡ q.write_idx =
        omega (arith, h.write_word, h.read_word, left) in
      λ same. slot-ne k q.read_idx n (omega (arith, h.few)) (omega (arith, room, left)) (rw e same)

  -- A store leaves the slot that the consumer has copied.
  store-ConsumerHolds :
      (q : Queue A) (v : A) (c : Consumer A)
      → Inv k q
      → sub64 q.write_idx q.read_idx < 2 ^ k
      → ConsumerHolds q.buffer q.read_idx q.cached_write_idx c
      → ConsumerHolds (write_slot k q.buffer q.write_idx v) q.read_idx q.cached_write_idx c
  store-ConsumerHolds q v Consumer.outside h room m = m
  store-ConsumerHolds q v Consumer.claimed h room m = m
  store-ConsumerHolds q v (Consumer.copied x) h room m =
      let apart : bit_and q.write_idx (2 ^ k - 1) ≢ bit_and q.read_idx (2 ^ k - 1) =
        slots_apart q h room (omega (arith, m.0, h.ahead)) in
      (m.0, read_slot-write_slot_ne k zeroed q.buffer q.write_idx q.read_idx v apart ∙ m.1)

  -- What a side knows at a point of its call that an equation names.
  producer_at :
      {s : System A} {p : Producer A}
      → IsSafe s
      → s.producer ≡ p
      → ProducerHolds s.ring.buffer s.ring.write_idx s.ring.cached_read_idx p
  producer_at {s} h e =
      subst (ProducerHolds s.ring.buffer s.ring.write_idx s.ring.cached_read_idx) e h.producer

  consumer_at :
      {s : System A} {c : Consumer A}
      → IsSafe s
      → s.consumer ≡ c
      → ConsumerHolds s.ring.buffer s.ring.read_idx s.ring.cached_write_idx c
  consumer_at {s} h e =
      subst (ConsumerHolds s.ring.buffer s.ring.read_idx s.ring.cached_write_idx) e h.consumer

  -- The entries behind the oldest one, once the consumer has copied that.
  release_read-fifo :
      (sent received : List A) (q : Queue A) (x : A)
      → Inv k q
      → 0 < sub64 q.cached_write_idx q.read_idx
      → read_slot k zeroed q.buffer q.read_idx ≡ x
      → sent ≡ received ++ contents k zeroed q
      → sent
        ≡ (received ++ x ∷ []) ++ contents k zeroed (record q { read_idx = add64 q.read_idx 1 })
  release_read-fifo sent received q x h left e f =
      f
      ∙ ap (◌++◌ received) (contents-consume k zeroed q h (omega (arith, left, h.ahead)))
      ∙ ap (λ y. received ++ y ∷ contents k zeroed (record q { read_idx = add64 q.read_idx 1 })) e
      ∙ sym (append_assoc received (x ∷ []) _)

  release_write-fifo :
      (sent received : List A) (q : Queue A) (v : A)
      → Inv k q
      → sub64 q.write_idx q.cached_read_idx < 2 ^ k
      → read_slot k zeroed q.buffer q.write_idx ≡ v
      → sent ≡ received ++ contents k zeroed q
      → sent ++ v ∷ []
        ≡ received ++ contents k zeroed (record q { write_idx = add64 q.write_idx 1 })
  release_write-fifo sent received q v h room e f =
      rw (contents-release k zeroed q h (omega (arith, room, h.behind)), e, f)
        (append_assoc received (contents k zeroed q) (v ∷ []))

  -- Every step of either side keeps the ring safe.
  pub Step-IsSafe : {s t : System A} → Step k zeroed s t → IsSafe s → IsSafe t
  Step-IsSafe (Step.reserve s v e nf) h = record {
    ring = h.ring;
    producer = (leb→gt (2 ^ k) _ nf, tt);
    consumer = h.consumer;
    fifo = h.fifo;
  }
  Step-IsSafe (Step.reserve_reloaded s v r e f see nf) h = record {
    ring = see_read-Inv k s.ring r h.ring see.0 see.1;
    producer = (leb→gt (2 ^ k) _ nf, tt);
    consumer = h.consumer;
    fifo = h.fifo;
  }
  Step-IsSafe (Step.refuse s r e f see full) h = record {
    ring = see_read-Inv k s.ring r h.ring see.0 see.1;
    producer = subst (ProducerHolds s.ring.buffer s.ring.write_idx r) (sym e) tt;
    consumer = h.consumer;
    fifo = h.fifo;
  }
  Step-IsSafe (Step.store s v e) h =
      let room : sub64 s.ring.write_idx s.ring.read_idx < 2 ^ k =
        omega (arith, (producer_at h e).0, h.ring.behind) in
      record {
        ring = store-Inv k s.ring v h.ring;
        producer = (
          (producer_at h e).0,
          read_slot-write_slot k zeroed s.ring.buffer s.ring.write_idx v h.ring.slots,
        );
        consumer = store-ConsumerHolds s.ring v s.consumer h.ring room h.consumer;
        fifo = h.fifo ∙ ap (◌++◌ s.received) (sym (contents-store k zeroed s.ring v h.ring room));
      }
  Step-IsSafe (Step.release_write s v e) h =
      let (room, held) = producer_at h e in
      record {
        ring = release_write-Inv k s.ring h.ring room;
        producer = tt;
        consumer = h.consumer;
        fifo = release_write-fifo s.sent s.received s.ring v h.ring room held h.fifo;
      }
  Step-IsSafe (Step.claim s e ne) h = record {
    ring = h.ring;
    producer = h.producer;
    consumer = (sub64_pos _ _ h.ring.cached_write_word h.ring.read_word ne, tt);
    fifo = h.fifo;
  }
  Step-IsSafe (Step.claim_reloaded s w e em see ne) h = record {
    ring = see_write-Inv k s.ring w h.ring see.0 see.1;
    producer = h.producer;
    consumer = (sub64_pos _ _ see.0 h.ring.read_word ne, tt);
    fifo = h.fifo;
  }
  Step-IsSafe (Step.find_empty s w e em see m) h = record {
    ring = see_write-Inv k s.ring w h.ring see.0 see.1;
    producer = h.producer;
    consumer = subst (ConsumerHolds s.ring.buffer s.ring.read_idx w) (sym e) tt;
    fifo = h.fifo;
  }
  Step-IsSafe (Step.copy s e) h = record {
    ring = h.ring;
    producer = h.producer;
    consumer = ((consumer_at h e).0, refl);
    fifo = h.fifo;
  }
  Step-IsSafe (Step.release_read s x e) h =
      let (left, held) = consumer_at h e in
      record {
        ring = release_read-Inv k s.ring h.ring left;
        producer = h.producer;
        consumer = tt;
        fifo = release_read-fifo s.sent s.received s.ring x h.ring left held h.fifo;
      }

  pub Reach-IsSafe : {s : System A} → k ≤ 63 → Reach k zeroed s → IsSafe s
  Reach-IsSafe few here = record {
    ring = init-Inv k zeroed few;
    producer = tt;
    consumer = tt;
    fifo = refl;
  }
  Reach-IsSafe few (next r st) = Step-IsSafe st (Reach-IsSafe few r)

  -- In every state that one producer and one consumer can reach, the values of the completed pushes
  -- are, in order, those of the completed pops followed by the entries of the ring, of which there
  -- are at most `Capacity`.
  pub Reach-fifo :
      {s : System A}
      → k ≤ 63
      → Reach k zeroed s
      → (s.sent ≡ s.received ++ contents k zeroed s.ring)
        × (length (contents k zeroed s.ring) ≤ 2 ^ k)
  Reach-fifo {s} few r =
      let h : IsSafe s = Reach-IsSafe few r in
      (h.fifo, omega (arith, length-contents k zeroed s.ring, h.ring.behind, h.ring.bounded))

  -- In no reachable state is the producer about to write the slot that the consumer is about to read.
  pub no_slot_race :
      {s : System A} {v : A}
      → k ≤ 63
      → Reach k zeroed s
      → s.producer ≡ Producer.reserved v
      → s.consumer ≡ Consumer.claimed
      → bit_and s.ring.write_idx (2 ^ k - 1) ≢ bit_and s.ring.read_idx (2 ^ k - 1)
  no_slot_race {s} few r p c =
      let h : IsSafe s = Reach-IsSafe few r in
      slots_apart s.ring h.ring (omega (arith, (producer_at h p).0, h.ring.behind))
        (omega (arith, (consumer_at h c).0, h.ring.ahead))
