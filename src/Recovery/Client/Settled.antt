-- ===== src/Recovery/Client/Settled.antt =====
-- `request` of market_data/recovery_client.cpp: how a call may end.
use c_low_latency_trading_sy.Prelude.{
  ℕ, suc, ◌+◌, ◌*◌, ◌≤◌, ◌<◌, ◌≡◌, refl, ap, subst, ◌∙◌, arith, Bool, true, false, ◌||◌, not, List,
  [], ◌++◌, Option, some, ◌==◌, ltb, length, Bool-cases, inl, inr,
}
use mathlib.Core.Option
use c_low_latency_trading_sy.Message.{
  RecoveryRequest, RecoveryResponseHeader, recovery_magic, max_recovery_batch,
  sizeof_market_message,
}
use c_low_latency_trading_sy.Recovery.SocketIo.{Socket, read_exact, write_exact}
use c_low_latency_trading_sy.Recovery.SocketIo.Laws.{IsSocket}
use c_low_latency_trading_sy.Recovery.SocketIo.Exact.{
  HasRead, HasWritten, read_exact-HasRead, write_exact-HasWritten,
}
use c_low_latency_trading_sy.Recovery.Client.{
  Layout, Reply, ok, error, not_connected, invalid_range, send_failed, header_failed, malformed,
  payload_failed, sizeof_request, sizeof_header, decode_messages, after_payload, read_payload,
  after_header, after_send, request,
}

-- The code's test of a header.
abbrev pub is_malformed : RecoveryResponseHeader → Bool
is_malformed header = not (header.magic == recovery_magic) || ltb max_recovery_batch header.count

-- What a call may end with, by what it sent, what it read, and how many calls of the socket failed.
pub data Outcome {W : Type 0} (socket : Socket W) (layout : Layout) (incoming outgoing : W → List ℕ)
    (failures : W → ℕ) (connected : Bool) (from to : ℕ) (frame : List ℕ) (w : W)
    : Reply × (Bool × W) → Type 0 where
  absent :
      connected ≡ false
      → Outcome socket layout incoming outgoing failures connected from to frame w
          (error not_connected, (false, w))
  refused :
      connected ≡ true
      → to < from
      → Outcome socket layout incoming outgoing failures connected from to frame w
          (error invalid_range, (true, w))
  unsent :
      (w' : W)
      → connected ≡ true
      → from ≤ to
      → failures w' ≡ suc (failures w)
      → Outcome socket layout incoming outgoing failures connected from to frame w
          (error send_failed, (false, w'))
  headless :
      (w' : W)
      → connected ≡ true
      → from ≤ to
      → outgoing w' ≡ outgoing w ++ frame
      → failures w' ≡ suc (failures w)
      → Outcome socket layout incoming outgoing failures connected from to frame w
          (error header_failed, (false, w'))
  garbled :
      (head : List ℕ) (w' : W)
      → connected ≡ true
      → from ≤ to
      → outgoing w' ≡ outgoing w ++ frame
      → failures w' ≡ failures w
      → length head ≡ sizeof_header
      → head ++ incoming w' ≡ incoming w
      → is_malformed (layout.decode_header head) ≡ true
      → Outcome socket layout incoming outgoing failures connected from to frame w
          (error malformed, (false, w'))
  cut_off :
      (head : List ℕ) (w' : W)
      → connected ≡ true
      → from ≤ to
      → outgoing w' ≡ outgoing w ++ frame
      → failures w' ≡ suc (failures w)
      → is_malformed (layout.decode_header head) ≡ false
      → Outcome socket layout incoming outgoing failures connected from to frame w
          (error payload_failed, (false, w'))
  answered :
      (head payload : List ℕ) (w' : W)
      → connected ≡ true
      → from ≤ to
      → outgoing w' ≡ outgoing w ++ frame
      → failures w' ≡ failures w
      → length head ≡ sizeof_header
      → length payload ≡ (layout.decode_header head).count * sizeof_market_message
      → head ++ (payload ++ incoming w') ≡ incoming w
      → is_malformed (layout.decode_header head) ≡ false
      → Outcome socket layout incoming outgoing failures connected from to frame w
          (ok (decode_messages socket layout (layout.decode_header head).count payload), (true, w'))

pub record Settles {W : Type 0} (socket : Socket W) (layout : Layout)
    (incoming outgoing : W → List ℕ) (failures : W → ℕ) (connected : Bool) (from to : ℕ)
    (frame : List ℕ) (w : W) (result : Option (Reply × (Bool × W))) : Type 0 where
  pub out : Reply × (Bool × W)
  pub returns : result ≡ some out
  pub ends : Outcome socket layout incoming outgoing failures connected from to frame w out

module _ {W : Type 0} (socket : Socket W) (layout : Layout) (incoming outgoing : W → List ℕ)
    (patience failures : W → ℕ) (laws : IsSocket socket incoming outgoing patience failures)
    (from to : ℕ) (good_range : from ≤ to) (frame : List ℕ) (w : W) where
  abbrev Ends : Option (Reply × (Bool × W)) → Type 0
  Ends result = Settles socket layout incoming outgoing failures true from to frame w result

  after_payload-Settles :
      (head : List ℕ) (w1 w2 : W) (r : Option (Option (List ℕ) × W))
      → outgoing w1 ≡ outgoing w ++ frame
      → failures w1 ≡ failures w
      → incoming w1 ≡ incoming w
      → length head ≡ sizeof_header
      → head ++ incoming w2 ≡ incoming w1
      → outgoing w2 ≡ outgoing w1
      → failures w2 ≡ failures w1
      → is_malformed (layout.decode_header head) ≡ false
      → HasRead incoming outgoing patience failures w2
          ((layout.decode_header head).count * sizeof_market_message)
          r
      → Ends (Option.map (after_payload socket layout (layout.decode_header head).count) r)
  after_payload-Settles head w1 w2 _ sent fine same len split out ok2 good
        (HasRead.whole bytes w' size rest out' calm ok') =
      record {
        out = (
          ok (decode_messages socket layout (layout.decode_header head).count bytes),
          (true, w'),
        );
        returns = refl;
        ends =
            Outcome.answered head bytes w' refl good_range (out' ∙ out ∙ sent) (ok' ∙ ok2 ∙ fine)
              len size (ap (λ xs. head ++ xs) rest ∙ split ∙ same) good;
      }
  after_payload-Settles head w1 w2 _ sent fine same len split out ok2 good
        (HasRead.broken bytes w' few rest out' bad) =
      record {
        out = (error payload_failed, (false, w'));
        returns = refl;
        ends =
            Outcome.cut_off head w' refl good_range (out' ∙ out ∙ sent) (bad ∙ ap suc (ok2 ∙ fine))
              good;
      }

  read_payload-Settles :
      (fuel : ℕ) (head : List ℕ) (w1 w2 : W)
      → max_recovery_batch * sizeof_market_message + patience w2 < fuel
      → outgoing w1 ≡ outgoing w ++ frame
      → failures w1 ≡ failures w
      → incoming w1 ≡ incoming w
      → length head ≡ sizeof_header
      → head ++ incoming w2 ≡ incoming w1
      → outgoing w2 ≡ outgoing w1
      → failures w2 ≡ failures w1
      → Ends (read_payload socket layout fuel (layout.decode_header head) w2)
  read_payload-Settles fuel head w1 w2 enough sent fine same len split out ok2 =
      let header : RecoveryResponseHeader = layout.decode_header head in
      elim (Bool-cases (is_malformed header)) [
        | inl bad ↦ rw bad (record {
          out = (error malformed, (false, w2));
          returns = refl;
          ends =
              Outcome.garbled head w2 refl good_range (out ∙ sent) (ok2 ∙ fine) len (split ∙ same)
                bad;
        })
        | inr good ↦
            let few : header.count ≤ max_recovery_batch = ground arith in
            rw good (elim (Bool-cases (header.count == 0)) [
              | inl bare ↦
                  let none_left : header.count ≡ 0 = ground arith in
                  rw bare (record {
                    out = (ok [], (true, w2));
                    returns = refl;
                    ends =
                        subst
                          (λ n.
                            Outcome socket layout incoming outgoing failures true from to frame w
                              (ok (decode_messages socket layout n []), (true, w2)))
                          none_left
                          (Outcome.answered head [] w2 refl good_range (out ∙ sent) (ok2 ∙ fine) len
                            (omega (arith, none_left)) (split ∙ same) good);
                  })
              | inr more ↦ rw more (
                  after_payload-Settles head w1 w2
                    (read_exact socket fuel w2 (header.count * sizeof_market_message)) sent fine
                    same len split out ok2 good
                    (read_exact-HasRead socket incoming outgoing patience failures laws fuel w2
                      (header.count * sizeof_market_message) (omega (arith, few))))
            ])
      ]

  after_header-Settles :
      (fuel : ℕ) (w1 : W) (r : Option (Option (List ℕ) × W))
      → max_recovery_batch * sizeof_market_message + patience w1 < fuel
      → outgoing w1 ≡ outgoing w ++ frame
      → failures w1 ≡ failures w
      → incoming w1 ≡ incoming w
      → HasRead incoming outgoing patience failures w1 sizeof_header r
      → Ends (Option.bind r (after_header socket layout fuel))
  unfolding Option.bind
  after_header-Settles fuel w1 _ enough sent fine same
        (HasRead.whole bytes w2 len split out calm ok2) =
      read_payload-Settles fuel bytes w1 w2 (omega arith) sent fine same len split out ok2
  after_header-Settles fuel w1 _ enough sent fine same (HasRead.broken bytes w2 few split out bad) =
      record {
        out = (error header_failed, (false, w2));
        returns = refl;
        ends = Outcome.headless w2 refl good_range (out ∙ sent) (bad ∙ ap suc fine);
      }

  after_send-Settles :
      (fuel : ℕ) (r : Option (Bool × W))
      → max_recovery_batch * sizeof_market_message + patience w < fuel
      → HasWritten incoming outgoing patience failures w frame r
      → Ends (Option.bind r (after_send socket layout fuel))
  unfolding Option.bind
  after_send-Settles fuel _ enough (HasWritten.whole w1 out inc calm fine) =
      after_header-Settles fuel w1 (read_exact socket fuel w1 sizeof_header) (omega arith) out fine
        inc
        (read_exact-HasRead socket incoming outgoing patience failures laws fuel w1 sizeof_header
          (omega arith))
  after_send-Settles fuel _ enough (HasWritten.broken front back w1 split left out inc bad) =
      record {
        out = (error send_failed, (false, w1));
        returns = refl;
        ends = Outcome.unsent w1 refl good_range bad;
      }

abbrev pub frame_of : Layout → ℕ → ℕ → List ℕ
frame_of layout from to =
    layout.encode_request
      (record { magic = recovery_magic; from_sequence = from; to_sequence = to })

module _ {W : Type 0} (socket : Socket W) (layout : Layout) (incoming outgoing : W → List ℕ)
    (patience failures : W → ℕ) (laws : IsSocket socket incoming outgoing patience failures)
    (request-sized : (r : RecoveryRequest)
      → length (layout.encode_request r) ≡ sizeof_request) where
  -- Over a socket that behaves, `request` returns, given rounds for the largest reply and for the
  -- interruptions. Without a connection, or for a range that ends before it begins, it leaves the socket
  -- untouched, and the connection as it was. Otherwise the frame of the request is sent, and a header
  -- with the magic number and a count of at most `kMaxRecoveryBatch` is read: the reply is as many
  -- messages, decoded from the bytes that follow it, no call failed and the connection is left open. Or
  -- the request fails: at a header that is not such a one, or after one failed call of the socket, in
  -- the frame, the header or the payload. Then the connection is closed.
  pub request-Settles :
      (fuel : ℕ) (connected : Bool) (from to : ℕ) (w : W)
      → max_recovery_batch * sizeof_market_message + patience w < fuel
      → Settles socket layout incoming outgoing failures connected from to
          (frame_of layout from to)
          w
          (request socket layout fuel connected from to w)
  unfolding request
  request-Settles fuel false from to w enough = record {
    out = (error not_connected, (false, w));
    returns = refl;
    ends = Outcome.absent refl;
  }
  request-Settles fuel true from to w enough = elim (Bool-cases (ltb to from)) [
    | inl bad ↦ rw bad (record {
      out = (error invalid_range, (true, w));
      returns = refl;
      ends = Outcome.refused refl (ground arith);
    })
    | inr good ↦ rw good (
        after_send-Settles socket layout incoming outgoing patience failures laws from to
          (ground arith) (frame_of layout from to) w fuel
          (write_exact socket fuel w (frame_of layout from to)) enough
          (write_exact-HasWritten socket incoming outgoing patience failures laws fuel w
            (frame_of layout from to)
            (omega (
              arith,
              request-sized
                  (record { magic = recovery_magic; from_sequence = from; to_sequence = to }),
            ))))
  ]
