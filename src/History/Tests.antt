-- ===== src/History/Tests.antt =====
-- A history of four slots that has seen seven messages.
use c_low_latency_trading_sy.Prelude.{
  ℕ, ◌-◌, ◌≡◌, refl, false, [], ◌∷◌, arith, word64, length, some,
}
use c_low_latency_trading_sy.Message.{MarketMessage}
use c_low_latency_trading_sy.History.{HistoryStore, zeroed, init, append, fetch_from, fetch}
use c_low_latency_trading_sy.History.Window.{Holds, appended, appended-Holds}
use c_low_latency_trading_sy.History.Fetch.{fetch-eq, fetch_last_number}

abbrev message : ℕ → MarketMessage
message s = record zeroed { sequence_number = s }

abbrev seven : HistoryStore
seven = record {
  ring = message 1004 ∷ message 1005 ∷ message 1006 ∷ message 1007 ∷ [];
  oldest_sequence = 1004;
  newest_sequence = 1007;
  is_empty = false;
}

appended-seven : appended message 4 1001 6 ≡ seven
unfolding appended append init
appended-seven = refl

-- The request straddles the retention edge.
fetch-seven : fetch 100 seven 1002 1005 64 ≡ some (message 1004 ∷ message 1005 ∷ [])
unfolding fetch fetch_from
fetch-seven = refl

appended-Holds_example :
    Holds message 1001 (appended message 4 1001 6)
    × ((appended message 4 1001 6).newest_sequence ≡ 1007)
    × (length (appended message 4 1001 6).ring ≡ 4)
appended-Holds_example =
    appended-Holds message 4 1001 6 (λ s. refl) (omega arith) (omega arith) (omega arith)

seven-Holds : Holds message 1001 seven
seven-Holds = rw appended-seven at appended-Holds_example.0

fetch-eq_example : fetch 100 seven 1002 1005 64 ≡ some (message 1004 ∷ message 1005 ∷ [])
fetch-eq_example =
    fetch-eq message 100 1001 seven 1002 1005 64 seven-Holds (omega arith) (omega arith)
      (omega arith)

fetch_last_number_example : fetch 2000 seven (word64 - 1) (word64 - 1) 1 ≡ some (message 1004 ∷ [])
fetch_last_number_example =
    fetch_last_number message 2000 1001 seven seven-Holds (omega arith) (omega arith)
