-- ===== src/Recovery/SocketIo.antt =====
-- include/llte/socket_io.hpp: the loops that move a whole frame. Bytes are numbers.
pub mod Laws
pub mod Exact
use c_low_latency_trading_sy.Prelude.{
  ℕ, zero, suc, ◌+◌, ◌-◌, Bool, true, false, List, [], ◌∷◌, ◌++◌, Option, none, some, ◌==◌,
  if◌then◌else◌, length, drop,
}
use mathlib.Core.Option

-- The results of one `recv` that the code tells apart: bytes, 0, EINTR, and any other failure.
pub data Received : Type 0 where
  got : List ℕ → Received
  closed interrupted failed : Received

-- Those of one `send`: a number of bytes, EINTR, and 0 or any other failure.
pub data Sent : Type 0 where
  moved : ℕ → Sent
  interrupted failed : Sent

pub record Socket (W : Type 0) : Type 0 where
  pub recv : W → ℕ → Received × W
  pub send : W → List ℕ → Sent × W

module _ {W : Type 0} (socket : Socket W) where
  -- Bytes that came before those of the rest of the loop.
  abbrev pub prepend : List ℕ → Option (List ℕ) × W → Option (List ℕ) × W
  prepend bytes (rest, w) = (Option.map (◌++◌ bytes) rest, w)

  -- One round, with the loop that goes on after it.
  abbrev pub read_on :
      (W → ℕ → Option (Option (List ℕ) × W)) → ℕ → Received → W → Option (Option (List ℕ) × W)
  read_on rest remaining (got bytes) w =
      Option.map (prepend bytes) (rest w (remaining - length bytes))
  read_on rest remaining closed w = some (none, w)
  read_on rest remaining Received.interrupted w = rest w remaining
  read_on rest remaining Received.failed w = some (none, w)

  -- The outer `none` means that the fuel ran out, the inner one is `return false`.
  unfoldable pub read_exact : ℕ → W → ℕ → Option (Option (List ℕ) × W)
  read_exact zero w remaining = none
  read_exact (suc fuel) w remaining =
      let (result, w') = socket.recv w remaining in
      let round = read_on (read_exact fuel) remaining result w' in
      if remaining == 0 then some (some [], w) else round

  abbrev pub write_on : (W → List ℕ → Option (Bool × W)) → List ℕ → Sent → W → Option (Bool × W)
  write_on rest bytes (moved n) w = rest w (drop n bytes)
  write_on rest bytes Sent.interrupted w = rest w bytes
  write_on rest bytes Sent.failed w = some (false, w)

  unfoldable pub write_exact : ℕ → W → List ℕ → Option (Bool × W)
  write_exact zero w bytes = none
  write_exact (suc fuel) w bytes =
      let (result, w') = socket.send w bytes in
      let round = write_on (write_exact fuel) bytes result w' in
      if length bytes == 0 then some (true, w) else round
