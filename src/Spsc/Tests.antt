-- ===== src/Spsc/Tests.antt =====
-- The ring at concrete states: about to wrap at 2 ^ 64, full, and in the middle of two calls.
use c_low_latency_trading_sy.Prelude.{
  ℕ, ◌-◌, ◌^◌, ◌≤◌, ◌<◌, ◌≡◌, ◌≢◌, refl, true, false, List, [], ◌∷◌, ◌++◌, arith, bit_and, length,
  word64, sub64, none, some,
}
use c_low_latency_trading_sy.Spsc.{Queue, try_push, try_pop}
use c_low_latency_trading_sy.Spsc.Inv.{Inv}
use c_low_latency_trading_sy.Spsc.Refine.{
  contents, enqueue, dequeue, try_push_refines, try_pop_refines, run, run_queue, run_refines, Call,
  pushes, pops,
}
use c_low_latency_trading_sy.Spsc.Steps.{Producer, Consumer, System, Step, Reach, here, next, start}
use c_low_latency_trading_sy.Spsc.Safety.{Reach-fifo, no_slot_race}

-- Two slots, both in use; the write index has wrapped.
abbrev wrapped : Queue ℕ
wrapped = record {
  write_idx = 1;
  cached_read_idx = 2 ^ 64 - 2;
  read_idx = 2 ^ 64 - 1;
  cached_write_idx = 2 ^ 64 - 1;
  buffer = 8 ∷ 7 ∷ [];
}

-- The producer's copy of the read index is stale here: three entries by that count.
abbrev half : Queue ℕ
half = record wrapped { write_idx = 0 }

wrapped-contents : contents 1 0 wrapped ≡ 7 ∷ 8 ∷ []
wrapped-contents = refl

half-Inv : Inv 1 half
half-Inv = record {
  few = omega arith;
  write_word = omega arith;
  read_word = omega arith;
  cached_read_word = omega arith;
  cached_write_word = omega arith;
  slots = refl;
  behind = omega arith;
  bounded = omega arith;
  ahead = omega arith;
}

refuses : (try_push 1 (try_push 1 half 9).1 4).0 ≡ false
unfolding try_push
refuses = refl

try_push_refines_example :
    let (ok, q) = try_push 1 half 9 in (ok, contents 1 0 q) ≡ enqueue 2 (7 ∷ []) 9
try_push_refines_example = try_push_refines 1 0 half 9 half-Inv

try_pop_refines_example :
    let (out, q) = try_pop 1 0 half in (out, contents 1 0 q) ≡ dequeue (7 ∷ [])
try_pop_refines_example = try_pop_refines 1 0 half half-Inv

abbrev script : List (Call ℕ)
script = pushes 1 ∷ pushes 2 ∷ pops ∷ pops ∷ pops ∷ []

run_queue-script :
    run_queue 2 (7 ∷ []) script
    ≡ (true, none) ∷ (false, none) ∷ (true, some 7) ∷ (true, some 1) ∷ (true, none) ∷ []
unfolding run_queue enqueue dequeue
run_queue-script = refl

run_refines_example : run 1 0 half script ≡ run_queue 2 (7 ∷ []) script
run_refines_example = run_refines 1 0 half script half-Inv

-- One value published, and both sides inside a call: the producer has checked for room, and the
-- consumer has seen the entry.
abbrev both_inside : System ℕ
both_inside = record {
  ring = record {
    write_idx = 1;
    cached_read_idx = 0;
    read_idx = 0;
    cached_write_idx = 1;
    buffer = 5 ∷ 0 ∷ [];
  };
  producer = Producer.reserved 6;
  consumer = Consumer.claimed;
  sent = 5 ∷ [];
  received = [];
}

seen_one : (1 < word64) × (sub64 1 1 ≤ sub64 1 0)
seen_one = omega arith

both_inside-Reach : Reach 1 0 both_inside
both_inside-Reach =
    let s0 : System ℕ = start 1 0 in
    let r1 : Reach 1 0 _ = next here (Step.reserve s0 5 refl refl) in
    let r2 : Reach 1 0 _ = next r1 (Step.store _ 5 refl) in
    let r3 : Reach 1 0 _ = next r2 (Step.release_write _ 5 refl) in
    let r4 : Reach 1 0 _ = next r3 (Step.reserve _ 6 refl refl) in
    next r4 (Step.claim_reloaded _ 1 refl refl seen_one refl)

Reach-fifo_example :
    (5 ∷ [] ≡ [] ++ contents 1 0 both_inside.ring) × (length (contents 1 0 both_inside.ring) ≤ 2)
Reach-fifo_example = Reach-fifo 1 0 {s = both_inside} (omega arith) both_inside-Reach

no_slot_race_example :
    bit_and both_inside.ring.write_idx (2 ^ 1 - 1) ≢ bit_and both_inside.ring.read_idx (2 ^ 1 - 1)
no_slot_race_example =
    no_slot_race 1 0 {s = both_inside} {v = 6} (omega arith) both_inside-Reach refl refl
