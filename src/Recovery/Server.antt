-- ===== src/Recovery/Server.antt =====
-- `RecoveryServer::serve_connection` of exchange/recovery_server.cpp, one round of its loop at a time.
-- The history does not change within a round: `fetch` holds its mutex.
pub mod Answer
use c_low_latency_trading_sy.Prelude.{
  ℕ, zero, suc, ◌%◌, ◌^◌, Bool, true, false, ◌||◌, not, List, [], ◌∷◌, ◌++◌, Option, none, some,
  add64, sub64, ◌==◌, ltb, if◌then◌else◌, length,
}
use mathlib.Core.Option
use c_low_latency_trading_sy.Message.{
  MarketMessage, RecoveryRequest, RecoveryResponseHeader, recovery_magic, max_recovery_batch,
}
use c_low_latency_trading_sy.History.{HistoryStore, fetch}
use c_low_latency_trading_sy.Recovery.SocketIo.{Socket, read_exact, write_exact}
use c_low_latency_trading_sy.Recovery.Client.{Layout, sizeof_request}

-- The cast to `uint32_t` cuts the span, which wraps too.
abbrev pub capped : ℕ → ℕ → ℕ
capped from to =
    let span = add64 (sub64 to from) 1 in
    if ltb max_recovery_batch span then max_recovery_batch else span % 2 ^ 32

module _ {W : Type 0} (socket : Socket W) (layout : Layout) where
  abbrev pub encode_messages : List MarketMessage → List ℕ
  encode_messages [] = []
  encode_messages (m ∷ ms) = layout.encode_message m ++ encode_messages ms

  abbrev pub reply_header : List MarketMessage → RecoveryResponseHeader
  reply_header found = record { magic = recovery_magic; count = length found }

  abbrev pub sent_payload : List MarketMessage → Bool × W → Option ℕ × W
  sent_payload found (false, w) = (none, w)
  sent_payload found (true, w) = (some (length found), w)

  abbrev pub send_payload : ℕ → List MarketMessage → Bool × W → Option (Option ℕ × W)
  send_payload fuel found (false, w) = some (none, w)
  send_payload fuel [] (true, w) = some (some 0, w)
  send_payload fuel (m ∷ ms) (true, w) =
      Option.map (sent_payload (m ∷ ms)) (write_exact socket fuel w (encode_messages (m ∷ ms)))

  abbrev pub send_reply : ℕ → W → List MarketMessage → Option (Option ℕ × W)
  send_reply fuel w found =
      Option.bind (write_exact socket fuel w (layout.encode_header (reply_header found)))
        (send_payload fuel found)

  abbrev pub answer : ℕ → HistoryStore → RecoveryRequest → W → Option (Option ℕ × W)
  answer fuel h r w =
      let reply =
        Option.bind
          (fetch fuel h r.from_sequence r.to_sequence (capped r.from_sequence r.to_sequence))
          (send_reply fuel w) in
      if not (r.magic == recovery_magic) || ltb r.to_sequence r.from_sequence
      then some (none, w)
      else reply

  abbrev pub on_request : ℕ → HistoryStore → Option (List ℕ) × W → Option (Option ℕ × W)
  on_request fuel h (none, w) = some (none, w)
  on_request fuel h (some bytes, w) = answer fuel h (layout.decode_request bytes) w

  -- The number of messages served, or `none` where `serve_connection` returns. The outer `none` means
  -- that the fuel of a loop ran out.
  unfoldable pub serve_round : ℕ → HistoryStore → W → Option (Option ℕ × W)
  serve_round fuel h w = Option.bind (read_exact socket fuel w sizeof_request) (on_request fuel h)

-- The two counters of the server.
pub record Served : Type 0 where
  pub requests : ℕ
  pub messages : ℕ

module _ {W : Type 0} (socket : Socket W) (layout : Layout) (is_running : W → Bool × W)
    (history : W → HistoryStore) where
  -- The loop, at most `rounds` of it: another thread sets the flag and appends to the history.
  abbrev pub after_round :
      (Served → W → Option (Served × W)) → Served → Option ℕ × W → Option (Served × W)
  after_round rest served (none, w) = some (served, w)
  after_round rest served (some found, w) =
      rest (record { requests = add64 served.requests 1; messages = add64 served.messages found }) w

  unfoldable pub serve_connection : ℕ → ℕ → Served → W → Option (Served × W)
  serve_connection zero fuel served w = none
  serve_connection (suc rounds) fuel served w =
      let (going, w') = is_running w in
      let round =
        Option.bind (serve_round socket layout fuel (history w') w')
          (after_round (serve_connection rounds fuel) served) in
      if going then round else some (served, w')
