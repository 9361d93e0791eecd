-- ===== src/Recovery/Server/Answer.antt =====
-- One round of `RecoveryServer::serve_connection` of exchange/recovery_server.cpp.
use c_low_latency_trading_sy.Prelude.{
  ℕ, suc, ◌+◌, ◌-◌, ◌*◌, ◌^◌, ◌≤◌, ◌<◌, ◌≡◌, refl, sym, ap, ◌∙◌, arith, Bool, false, ◌||◌, not,
  List, [], ◌∷◌, ◌++◌, append-nil, append_assoc, Option, none, some, ◌==◌, ltb, length,
  length-append, length-take, take, min, word64,
}
use mathlib.Core.Option
use c_low_latency_trading_sy.Message.{
  MarketMessage, RecoveryRequest, RecoveryResponseHeader, recovery_magic, max_recovery_batch,
  sizeof_market_message,
}
use c_low_latency_trading_sy.History.{HistoryStore}
use c_low_latency_trading_sy.History.Window.{Holds}
use c_low_latency_trading_sy.History.Fetch.{retained, fetch-eq}
use c_low_latency_trading_sy.Recovery.SocketIo.{Socket, read_exact, write_exact}
use c_low_latency_trading_sy.Recovery.SocketIo.Laws.{IsSocket}
use c_low_latency_trading_sy.Recovery.SocketIo.Exact.{
  HasRead, HasWritten, read_exact-HasRead, write_exact-HasWritten,
}
use c_low_latency_trading_sy.Recovery.Client.{Layout, sizeof_request, sizeof_header}
use c_low_latency_trading_sy.Recovery.Server.{
  capped, encode_messages, reply_header, sent_payload, send_payload, answer, on_request,
  serve_round,
}

-- The round sent the header and the messages, and no call of the socket failed, or it gave up on the
-- connection after one call that did.
pub data Answers {W : Type 0} (outgoing : W → List ℕ) (failures : W → ℕ) (w : W) (bytes : List ℕ)
    (count : ℕ) : Option (Option ℕ × W) → Type 0 where
  sent :
      (w' : W)
      → outgoing w' ≡ outgoing w ++ bytes
      → failures w' ≡ failures w
      → Answers outgoing failures w bytes count (some (some count, w'))
  gave_up :
      (w' : W)
      → failures w' ≡ suc (failures w)
      → Answers outgoing failures w bytes count (some (none, w'))

capped-eq :
    (from to : ℕ)
    → from ≤ to
    → suc to < word64
    → capped from to ≡ min max_recovery_batch (suc to - from)
capped-eq from to le word = grind arith

take-length : {A : Type 0} (xs ys : List A) → take (length xs) (xs ++ ys) ≡ xs
take-length [] ys = refl
take-length (x ∷ xs) ys = ap (λ zs. x ∷ zs) (take-length xs ys)

module _ {W : Type 0} (socket : Socket W) (layout : Layout) (incoming outgoing : W → List ℕ)
    (patience failures : W → ℕ) (laws : IsSocket socket incoming outgoing patience failures) where
  payload-Answers :
      (fuel : ℕ) (w : W) (head : List ℕ) (found : List MarketMessage) (r : Option (Bool × W))
      → length (encode_messages socket layout found) + patience w < fuel
      → HasWritten incoming outgoing patience failures w head r
      → Answers outgoing failures w
          (head ++ encode_messages socket layout found)
          (length found)
          (Option.bind r (send_payload socket layout fuel found))
  unfolding Option.bind
  payload-Answers fuel w head [] _ enough (HasWritten.whole w' out inc calm ok) =
      Answers.sent w' (out ∙ ap (λ xs. outgoing w ++ xs) (sym (append-nil head))) ok
  payload-Answers fuel w head (m ∷ ms) _ enough (HasWritten.whole w' out inc calm ok) =
      after (write_exact socket fuel w' (encode_messages socket layout (m ∷ ms))) (
        write_exact-HasWritten socket incoming outgoing patience failures laws fuel w'
          (encode_messages socket layout (m ∷ ms)) (omega arith))
    where
      after :
          (r : Option (Bool × W))
          → HasWritten incoming outgoing patience failures w'
              (encode_messages socket layout (m ∷ ms))
              r
          → Answers outgoing failures w
              (head ++ encode_messages socket layout (m ∷ ms))
              (suc (length ms))
              (Option.map (sent_payload socket layout (m ∷ ms)) r)
      after _ (HasWritten.whole w'' out' inc' calm' ok') =
          Answers.sent w''
            (out'
              ∙ ap (λ xs. xs ++ encode_messages socket layout (m ∷ ms)) out
              ∙ append_assoc (outgoing w) head (encode_messages socket layout (m ∷ ms)))
            (ok' ∙ ok)
      after _ (HasWritten.broken front back w'' cut left out' inc' bad) =
          Answers.gave_up w'' (bad ∙ ap suc ok)
  payload-Answers fuel w head found _ enough
        (HasWritten.broken front back w' cut left out inc bad) =
      Answers.gave_up w' bad

-- What the layout of the structs promises: their sizes, and that a copied request is the request.
pub record IsLayout (layout : Layout) : Type 0 where
  pub request_sized : (r : RecoveryRequest) → length (layout.encode_request r) ≡ sizeof_request
  pub header_sized : (r : RecoveryResponseHeader) → length (layout.encode_header r) ≡ sizeof_header
  pub message_sized : (m : MarketMessage) → length (layout.encode_message m) ≡ sizeof_market_message
  pub request_copied :
      (r : RecoveryRequest)
      → r.magic < 2 ^ 32
      → r.from_sequence < word64
      → r.to_sequence < word64
      → layout.decode_request (layout.encode_request r) ≡ r

-- The messages that answer a request: those of the range that the ring still has, at most a batch.
abbrev pub answer_to : (ℕ → MarketMessage) → HistoryStore → RecoveryRequest → List MarketMessage
answer_to published h r =
    take (min max_recovery_batch (suc r.to_sequence - r.from_sequence))
      (retained published h r.from_sequence r.to_sequence)

abbrev pub reply_bytes : {W : Type 0} → Socket W → Layout → List MarketMessage → List ℕ
reply_bytes socket layout found =
    layout.encode_header (reply_header socket layout found) ++ encode_messages socket layout found

module _ {W : Type 0} (socket : Socket W) (layout : Layout) (incoming outgoing : W → List ℕ)
    (patience failures : W → ℕ) (laws : IsSocket socket incoming outgoing patience failures)
    (copies : IsLayout layout) where
  length-encode_messages :
      (found : List MarketMessage)
      → length (encode_messages socket layout found) ≡ length found * sizeof_market_message
  length-encode_messages [] = refl
  length-encode_messages (m ∷ ms) =
      length-append (layout.encode_message m) (encode_messages socket layout ms)
      ∙ omega (arith, copies.message_sized m, length-encode_messages ms)

  answer-Answers :
      (published : ℕ → MarketMessage) (fuel first : ℕ) (h : HistoryStore) (r : RecoveryRequest)
      (w : W)
      → Holds published first h
      → r.magic ≡ recovery_magic
      → r.from_sequence ≤ r.to_sequence
      → suc r.to_sequence < word64
      → suc r.to_sequence < r.from_sequence + fuel
      → max_recovery_batch * sizeof_market_message + patience w < fuel
      → Answers outgoing failures w
          (reply_bytes socket layout (answer_to published h r))
          (length (answer_to published h r))
          (answer socket layout fuel h r w)
  unfolding Option.bind
  answer-Answers published fuel first h r w v magic le word range enough =
      let good : (not (r.magic == recovery_magic) || ltb r.to_sequence r.from_sequence) ≡ false =
        ground arith in
      let found : List MarketMessage = answer_to published h r in
      let few : length found ≤ max_recovery_batch = omega (
        arith,
        length-take (min max_recovery_batch (suc r.to_sequence - r.from_sequence))
            (retained published h r.from_sequence r.to_sequence),
      ) in
      rw
        (
          good,
          capped-eq r.from_sequence r.to_sequence le word,
          fetch-eq published fuel first h r.from_sequence r.to_sequence
              (min max_recovery_batch (suc r.to_sequence - r.from_sequence)) v word (omega arith)
              range,
        )
        (payload-Answers socket layout incoming outgoing patience failures laws fuel w
          (layout.encode_header (reply_header socket layout found)) found
          (write_exact socket fuel w (layout.encode_header (reply_header socket layout found)))
          (omega (arith, length-encode_messages found, few))
          (write_exact-HasWritten socket incoming outgoing patience failures laws fuel w
            (layout.encode_header (reply_header socket layout found))
            (omega (arith, copies.header_sized (reply_header socket layout found)))))

  Answers-moved :
      (w w' : W) (bytes : List ℕ) (count : ℕ) (result : Option (Option ℕ × W))
      → outgoing w' ≡ outgoing w
      → failures w' ≡ failures w
      → Answers outgoing failures w' bytes count result
      → Answers outgoing failures w bytes count result
  Answers-moved w w' bytes count _ e ok (Answers.sent w'' out ok') =
      Answers.sent w'' (out ∙ ap (λ xs. xs ++ bytes) e) (ok' ∙ ok)
  Answers-moved w w' bytes count _ e ok (Answers.gave_up w'' bad) =
      Answers.gave_up w'' (bad ∙ ap suc ok)

  -- The bytes that were read are the frame of the request.
  request_read :
      (r : RecoveryRequest) (bytes rest later all : List ℕ)
      → length bytes ≡ sizeof_request
      → bytes ++ later ≡ all
      → all ≡ layout.encode_request r ++ rest
      → bytes ≡ layout.encode_request r
  request_read r bytes rest later all len split arrived =
      sym (take-length bytes later)
      ∙ ap (λ n. take n (bytes ++ later)) (len ∙ sym (copies.request_sized r))
      ∙ ap (take (length (layout.encode_request r))) (split ∙ arrived)
      ∙ take-length (layout.encode_request r) rest

  -- A round that finds a well-formed request for a range that ends below 2 ^ 64 - 1 ends, over a socket
  -- that behaves and a history that holds the feed: it sends the header and exactly the messages of the
  -- range that the ring still has, at most a batch of them, and counts them, and no call of the socket
  -- failed; or it gives up on the connection, after exactly one call of the socket that failed.
  pub serve_round-Answers :
      (published : ℕ → MarketMessage) (fuel first : ℕ) (h : HistoryStore) (r : RecoveryRequest)
      (rest : List ℕ) (w : W)
      → Holds published first h
      → r.magic ≡ recovery_magic
      → r.from_sequence ≤ r.to_sequence
      → suc r.to_sequence < word64
      → incoming w ≡ layout.encode_request r ++ rest
      → suc r.to_sequence < r.from_sequence + fuel
      → max_recovery_batch * sizeof_market_message + patience w < fuel
      → Answers outgoing failures w
          (reply_bytes socket layout (answer_to published h r))
          (length (answer_to published h r))
          (serve_round socket layout fuel h w)
  unfolding serve_round Option.bind
  serve_round-Answers published fuel first h r rest w v magic le word arrived range enough =
      on_read (read_exact socket fuel w sizeof_request) (
        read_exact-HasRead socket incoming outgoing patience failures laws fuel w sizeof_request
          (omega arith))
    where
      on_read :
          (result : Option (Option (List ℕ) × W))
          → HasRead incoming outgoing patience failures w sizeof_request result
          → Answers outgoing failures w
              (reply_bytes socket layout (answer_to published h r))
              (length (answer_to published h r))
              (Option.bind result (on_request socket layout fuel h))
      on_read _ (HasRead.whole bytes w' len split out calm ok) =
          let same : layout.decode_request bytes ≡ r =
            ap layout.decode_request
              (request_read r bytes rest (incoming w') (incoming w) len split arrived)
            ∙ copies.request_copied r (omega (arith, magic)) (omega arith) (omega arith) in
          Answers-moved w w' (reply_bytes socket layout (answer_to published h r))
            (length (answer_to published h r))
            (answer socket layout fuel h (layout.decode_request bytes) w') out ok
            (rw same
              (answer-Answers published fuel first h r w' v magic le word range (omega arith)))
      on_read _ (HasRead.broken bytes w' few split out bad) = Answers.gave_up w' bad
