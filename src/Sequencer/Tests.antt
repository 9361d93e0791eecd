-- ===== src/Sequencer/Tests.antt =====
-- A manager with four slots, with and without a recovery client.
use c_low_latency_trading_sy.Prelude.{
  ℕ, ◌≤◌, ◌≡◌, refl, true, false, [], ◌∷◌, arith, Option, none, some, replicate,
}
use c_low_latency_trading_sy.Message.{FeedMessage, MarketMessage}
use c_low_latency_trading_sy.History.{zeroed}
use c_low_latency_trading_sy.Sequencer.{
  SequenceManager, World, accept, store, recover_range, request_range, take_all, take_recovered,
  skip_range, next_deliverable, deliver_from, blank, no_stats,
}
use c_low_latency_trading_sy.Sequencer.Slots.{vacant-Placed}
use c_low_latency_trading_sy.Sequencer.Recover.{IsTyped}
use c_low_latency_trading_sy.Sequencer.Deliver.{Delivers, next_deliverable-Delivers}
use c_low_latency_trading_sy.Sequencer.Flow.{IsFlowing}
use c_low_latency_trading_sy.Sequencer.Accept.{
  IsReady, blank_everywhere, accept-IsReady, accept-IsFlowing,
}
use c_low_latency_trading_sy.Sequencer.Stream.{
  Trace, Ascends, Trace-Ascends, stop, arrives, delivers,
}

abbrev numbered : ℕ → MarketMessage
numbered s = record zeroed { sequence_number = s }

abbrev live : ℕ → FeedMessage
live s = record { message = numbered s; t0_recv = 0; t1_parsed = 0; recovered = false }

-- A client that knows only the message 1002, and a clock that stands still.
abbrev knows_1002 : World (Unit {0})
knows_1002 = record { request = λ w from to. (some (numbered 1002 ∷ []), w); now_ns = λ w. (7, w) }

knows_1002-IsTyped : IsTyped knows_1002
knows_1002-IsTyped w from to [] e = tt
knows_1002-IsTyped w from to (m ∷ []) e = (let n : m.sequence_number ≡ 1002 = cc in omega arith, tt)
knows_1002-IsTyped w from to (m ∷ n ∷ ms) e = cc

-- 1001 has been delivered.
abbrev at_1002 : SequenceManager
at_1002 = record { buffer = replicate 4 blank; expected = 1002; started = true; stats = no_stats }

at_1002-IsReady : IsReady at_1002
at_1002-IsReady = record {
  sound = record {
    room = omega arith;
    word = omega arith;
    placed = vacant-Placed 1002 (replicate 4 blank) (blank_everywhere 4);
  };
  vacant = λ e. cc;
  fresh = λ e. cc;
}

-- 1004 arrives: 1002 is recovered, and 1003 is given up.
gapped : SequenceManager
unfolding accept store recover_range request_range take_all take_recovered skip_range
gapped = (accept knows_1002 true (live 1004) (at_1002, tt)).0

gapped_stats :
    (gapped.stats.gaps_detected ≡ 1)
    × (gapped.stats.missing_messages ≡ 2)
    × (gapped.stats.messages_recovered ≡ 1)
    × (gapped.stats.unrecoverable ≡ 1)
unfolding gapped
gapped_stats = (refl, refl, refl, refl)

abbrev left : Option (Option FeedMessage × SequenceManager) → SequenceManager
left none = at_1002
left (some (out, n)) = n

drained : SequenceManager
unfolding gapped next_deliverable deliver_from
drained = left (next_deliverable gapped)

accept-IsFlowing_example : IsFlowing 1002 1004 (accept knows_1002 true (live 1004) (at_1002, tt)).0
accept-IsFlowing_example =
    accept-IsFlowing knows_1002 knows_1002-IsTyped true (live 1004) at_1002 tt at_1002-IsReady
      (omega arith) (omega arith)

accept-IsReady_example :
    let n = (accept knows_1002 true (live 1004) (at_1002, tt)).0 in
    IsReady n × (1002 ≤ n.expected) × (n.started ≡ true)
accept-IsReady_example =
    accept-IsReady knows_1002 knows_1002-IsTyped true (live 1004) at_1002 tt at_1002-IsReady
      (omega arith)

gapped-IsReady : IsReady gapped
unfolding gapped
gapped-IsReady = accept-IsReady_example.0

next_deliverable-Delivers_example : Delivers gapped (next_deliverable gapped)
unfolding gapped
next_deliverable-Delivers_example =
    next_deliverable-Delivers gapped gapped-IsReady.sound refl (omega arith)

run : Trace knows_1002 true at_1002 tt (1002 ∷ 1004 ∷ [])
unfolding gapped drained
run = arrives (live 1004) at_1002 tt (omega arith) (
    delivers gapped drained tt
      (record { message = numbered 1002; t0_recv = 7; t1_parsed = 7; recovered = true }) refl
      (omega arith) refl
      (delivers drained (left (next_deliverable drained)) tt (live 1004) refl (omega arith) refl
        (stop _ tt)))

Trace-Ascends_example : Ascends 1002 (1002 ∷ 1004 ∷ [])
Trace-Ascends_example = Trace-Ascends knows_1002 true knows_1002-IsTyped at_1002-IsReady run
