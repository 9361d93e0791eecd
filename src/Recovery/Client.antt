-- ===== src/Recovery/Client.antt =====
-- `RecoveryClient::request` of market_data/recovery_client.cpp. A connection is whether `fd_` is open.
-- `memcpy`ing the frames, the memory layout of the structs, is a parameter.
pub mod Settled
use c_low_latency_trading_sy.Prelude.{
  ℕ, zero, suc, ◌*◌, Bool, true, false, ◌||◌, not, List, [], ◌∷◌, Option, none, some, ◌==◌, ltb,
  if◌then◌else◌, take, drop,
}
use mathlib.Core.Option
use c_low_latency_trading_sy.Message.{
  MarketMessage, RecoveryRequest, RecoveryResponseHeader, recovery_magic, max_recovery_batch,
  sizeof_market_message,
}
use c_low_latency_trading_sy.Recovery.SocketIo.{Socket, read_exact, write_exact}

pub record Layout : Type 0 where
  pub encode_request : RecoveryRequest → List ℕ
  pub decode_request : List ℕ → RecoveryRequest
  pub encode_header : RecoveryResponseHeader → List ℕ
  pub decode_header : List ℕ → RecoveryResponseHeader
  pub encode_message : MarketMessage → List ℕ
  pub decode_message : List ℕ → MarketMessage

-- The static_asserts fix these sizes.
abbrev pub sizeof_request : ℕ
sizeof_request = 24

abbrev pub sizeof_header : ℕ
sizeof_header = 8

pub data RequestError : Type 0 where
  not_connected invalid_range send_failed header_failed malformed payload_failed : RequestError

pub data Reply : Type 0 where
  ok : List MarketMessage → Reply
  error : RequestError → Reply

module _ {W : Type 0} (socket : Socket W) (layout : Layout) where
  -- `count` messages, one after the other.
  abbrev pub decode_messages : ℕ → List ℕ → List MarketMessage
  decode_messages zero bytes = []
  decode_messages (suc count) bytes =
      layout.decode_message (take sizeof_market_message bytes)
      ∷ decode_messages count (drop sizeof_market_message bytes)

  abbrev pub after_payload : ℕ → Option (List ℕ) × W → Reply × (Bool × W)
  after_payload count (none, w) = (error payload_failed, (false, w))
  after_payload count (some bytes, w) = (ok (decode_messages count bytes), (true, w))

  abbrev pub read_payload : ℕ → RecoveryResponseHeader → W → Option (Reply × (Bool × W))
  read_payload fuel header w =
      let payload =
        Option.map (after_payload header.count)
          (read_exact socket fuel w (header.count * sizeof_market_message)) in
      if not (header.magic == recovery_magic) || ltb max_recovery_batch header.count
      then some (error malformed, (false, w))
      else if header.count == 0
      then some (ok [], (true, w))
      else payload

  abbrev pub after_header : ℕ → Option (List ℕ) × W → Option (Reply × (Bool × W))
  after_header fuel (none, w) = some (error header_failed, (false, w))
  after_header fuel (some bytes, w) = read_payload fuel (layout.decode_header bytes) w

  abbrev pub after_send : ℕ → Bool × W → Option (Reply × (Bool × W))
  after_send fuel (false, w) = some (error send_failed, (false, w))
  after_send fuel (true, w) =
      Option.bind (read_exact socket fuel w sizeof_header) (after_header fuel)

  -- With the connection after the call. `none` means that the fuel of a loop ran out.
  unfoldable pub request : ℕ → Bool → ℕ → ℕ → W → Option (Reply × (Bool × W))
  request fuel connected from to w =
      let sent =
        Option.bind
          (write_exact socket fuel w (
            layout.encode_request
              (record { magic = recovery_magic; from_sequence = from; to_sequence = to })))
          (after_send fuel) in
      if not connected
      then some (error not_connected, (connected, w))
      else if ltb to from
      then some (error invalid_range, (connected, w))
      else sent
