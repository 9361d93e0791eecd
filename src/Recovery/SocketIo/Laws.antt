-- ===== src/Recovery/SocketIo/Laws.antt =====
-- The socket that include/llte/socket_io.hpp calls: what recv(2) and send(2) promise.
use c_low_latency_trading_sy.Prelude.{ℕ, ◌+◌, ◌≤◌, ◌<◌, ◌≡◌, List, ◌++◌, length, take}
use c_low_latency_trading_sy.Recovery.SocketIo.{Received, got, closed, Sent, moved, Socket}

-- Whether a result says that the connection is over: a shutdown, or a failure that is not EINTR.
abbrev pub over : Received → ℕ
over (got bytes) = 0
over closed = 1
over Received.interrupted = 0
over Received.failed = 1

abbrev pub refused : Sent → ℕ
refused (moved n) = 0
refused Sent.interrupted = 0
refused Sent.failed = 1

-- The laws of `recv` and `send`. `incoming` is what the peer sends and nobody has read yet,
-- `outgoing` what the peer is given, `patience` a bound on the interruptions to come, and `failures`
-- counts the calls so far that found the connection over.
pub record IsSocket {W : Type 0} (socket : Socket W) (incoming outgoing : W → List ℕ)
    (patience failures : W → ℕ) : Type 0 where
  pub recv_outgoing : (w : W) (n : ℕ) → outgoing (socket.recv w n).1 ≡ outgoing w
  pub recv_patience : (w : W) (n : ℕ) → patience (socket.recv w n).1 ≤ patience w
  pub recv_failures :
      (w : W) (n : ℕ) → failures (socket.recv w n).1 ≡ failures w + over (socket.recv w n).0
  pub send_incoming : (w : W) (bytes : List ℕ) → incoming (socket.send w bytes).1 ≡ incoming w
  pub send_patience : (w : W) (bytes : List ℕ) → patience (socket.send w bytes).1 ≤ patience w
  pub send_failures :
      (w : W) (bytes : List ℕ)
      → failures (socket.send w bytes).1 ≡ failures w + refused (socket.send w bytes).0
  pub recv_got :
      (w : W) (n : ℕ) (bytes : List ℕ)
      → (socket.recv w n).0 ≡ got bytes
      → (bytes ++ incoming (socket.recv w n).1 ≡ incoming w)
        × (0 < n → 0 < length bytes)
        × (length bytes ≤ n)
  pub recv_interrupted :
      (w : W) (n : ℕ)
      → (socket.recv w n).0 ≡ Received.interrupted
      → (incoming (socket.recv w n).1 ≡ incoming w) × (patience (socket.recv w n).1 < patience w)
  pub recv_over :
      (w : W) (n : ℕ) → over (socket.recv w n).0 ≡ 1 → incoming (socket.recv w n).1 ≡ incoming w
  pub send_moved :
      (w : W) (bytes : List ℕ) (n : ℕ)
      → (socket.send w bytes).0 ≡ moved n
      → (outgoing (socket.send w bytes).1 ≡ outgoing w ++ take n bytes)
        × (0 < n)
        × (n ≤ length bytes)
  pub send_interrupted :
      (w : W) (bytes : List ℕ)
      → (socket.send w bytes).0 ≡ Sent.interrupted
      → (outgoing (socket.send w bytes).1 ≡ outgoing w)
        × (patience (socket.send w bytes).1 < patience w)
  pub send_refused :
      (w : W) (bytes : List ℕ)
      → (socket.send w bytes).0 ≡ Sent.failed
      → outgoing (socket.send w bytes).1 ≡ outgoing w
