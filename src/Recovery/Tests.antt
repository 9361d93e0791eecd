-- ===== src/Recovery/Tests.antt =====
-- Both ends over a socket that interrupts a number of calls, hands out at most five bytes a call, and
-- takes at most four. A field of a frame is one number here, and zeros fill the frame up.
use c_low_latency_trading_sy.Prelude.{
  ℕ, zero, suc, ◌+◌, ◌≤◌, ◌<◌, ◌≡◌, refl, sym, ap, ◌∙◌, arith, true, List, [], ◌∷◌, ◌++◌,
  append-nil, length, length-take, take, drop, take-append-drop, get_or, replicate, min,
}
use c_low_latency_trading_sy.Message.{MarketMessage, RecoveryRequest, recovery_magic}
use c_low_latency_trading_sy.History.{HistoryStore, zeroed}
use c_low_latency_trading_sy.History.Window.{Holds, appended, appended-Holds}
use c_low_latency_trading_sy.Recovery.SocketIo.{
  Received, got, closed, Sent, moved, Socket, read_exact, write_exact,
}
use c_low_latency_trading_sy.Recovery.SocketIo.Laws.{IsSocket, over, refused}
use c_low_latency_trading_sy.Recovery.SocketIo.Exact.{
  HasRead, HasWritten, read_exact-HasRead, write_exact-HasWritten,
}
use c_low_latency_trading_sy.Recovery.Client.{Layout, request}
use c_low_latency_trading_sy.Recovery.Client.Settled.{Settles, frame_of, request-Settles}
use c_low_latency_trading_sy.Recovery.Server.{serve_round}
use c_low_latency_trading_sy.Recovery.Server.Answer.{
  IsLayout, Answers, answer_to, reply_bytes, serve_round-Answers,
}

record Wire : Type 0 where
  inbox : List ℕ
  outbox : List ℕ
  hiccups : ℕ
  faults : ℕ

abbrev receive : ℕ → List ℕ → Wire → ℕ → Received × Wire
receive (suc k) bytes w n = (Received.interrupted, record w { hiccups = k })
receive zero [] w n = (closed, record w { faults = w.faults + 1 })
receive zero (x ∷ xs) w n =
    (got (take (min n 5) (x ∷ xs)), record w { inbox = drop (min n 5) (x ∷ xs) })

abbrev transmit : ℕ → Wire → List ℕ → Sent × Wire
transmit (suc k) w bytes = (Sent.interrupted, record w { hiccups = k })
transmit zero w [] = (Sent.failed, record w { faults = w.faults + 1 })
transmit zero w (x ∷ xs) = (
  moved (min 4 (suc (length xs))),
  record w { outbox = w.outbox ++ take (min 4 (suc (length xs))) (x ∷ xs) },
)

abbrev wire_socket : Socket Wire
wire_socket = record {
  recv = λ w n. receive w.hiccups w.inbox w n;
  send = λ w bytes. transmit w.hiccups w bytes;
}

-- The bytes of a result, and the number of them that were taken.
abbrev bytes_of : Received → List ℕ
bytes_of (got bytes) = bytes
bytes_of closed = []
bytes_of Received.interrupted = []
bytes_of Received.failed = []

abbrev count_of : Sent → ℕ
count_of (moved n) = n
count_of Sent.interrupted = 0
count_of Sent.failed = 0

receive_got :
    (k : ℕ) (inbox : List ℕ) (w : Wire) (n : ℕ) (bytes : List ℕ)
    → k ≡ w.hiccups
    → inbox ≡ w.inbox
    → (receive k inbox w n).0 ≡ got bytes
    → (bytes ++ (receive k inbox w n).1.inbox ≡ w.inbox)
      × (0 < n → 0 < length bytes)
      × (length bytes ≤ n)
receive_got (suc k) inbox w n bytes h i e = absurd (ground arith)
receive_got zero [] w n bytes h i e = absurd (ground arith)
receive_got zero (x ∷ xs) w n bytes h i e =
    let same : take (min n 5) (x ∷ xs) ≡ bytes = ap bytes_of e in
    (
      rw (← same) (take-append-drop (min n 5) (x ∷ xs) ∙ i),
      λ pos. omega (arith, ap length same, length-take (min n 5) (x ∷ xs)),
      omega (arith, ap length same, length-take (min n 5) (x ∷ xs)),
    )

receive_interrupted :
    (k : ℕ) (inbox : List ℕ) (w : Wire) (n : ℕ)
    → k ≡ w.hiccups
    → (receive k inbox w n).0 ≡ Received.interrupted
    → ((receive k inbox w n).1.inbox ≡ w.inbox) × ((receive k inbox w n).1.hiccups < w.hiccups)
receive_interrupted (suc k) inbox w n h e = (refl, omega arith)
receive_interrupted zero [] w n h e = absurd (ground arith)
receive_interrupted zero (x ∷ xs) w n h e = absurd (ground arith)

receive_calm :
    (k : ℕ) (inbox : List ℕ) (w : Wire) (n : ℕ)
    → k ≡ w.hiccups
    → ((receive k inbox w n).1.outbox ≡ w.outbox)
      × ((receive k inbox w n).1.hiccups ≤ w.hiccups)
      × ((receive k inbox w n).1.faults ≡ w.faults + over (receive k inbox w n).0)
receive_calm (suc k) inbox w n h = (refl, omega arith, omega arith)
receive_calm zero [] w n h = (refl, omega arith, omega arith)
receive_calm zero (x ∷ xs) w n h = (refl, omega arith, omega arith)

receive-over :
    (k : ℕ) (inbox : List ℕ) (w : Wire) (n : ℕ)
    → over (receive k inbox w n).0 ≡ 1
    → (receive k inbox w n).1.inbox ≡ w.inbox
receive-over (suc k) inbox w n e = refl
receive-over zero [] w n e = refl
receive-over zero (x ∷ xs) w n e = absurd (omega arith)

transmit_refused :
    (k : ℕ) (w : Wire) (bytes : List ℕ)
    → (transmit k w bytes).0 ≡ Sent.failed
    → (transmit k w bytes).1.outbox ≡ w.outbox
transmit_refused (suc k) w bytes e = refl
transmit_refused zero w [] e = refl
transmit_refused zero w (x ∷ xs) e = absurd (ground arith)

transmit_moved :
    (k : ℕ) (w : Wire) (bytes : List ℕ) (n : ℕ)
    → (transmit k w bytes).0 ≡ moved n
    → ((transmit k w bytes).1.outbox ≡ w.outbox ++ take n bytes) × (0 < n) × (n ≤ length bytes)
transmit_moved (suc k) w bytes n e = absurd (ground arith)
transmit_moved zero w [] n e = absurd (ground arith)
transmit_moved zero w (x ∷ xs) n e =
    let same : min 4 (suc (length xs)) ≡ n = ap count_of e in
    (ap (λ m. w.outbox ++ take m (x ∷ xs)) same, omega (arith, same), omega (arith, same))

transmit_interrupted :
    (k : ℕ) (w : Wire) (bytes : List ℕ)
    → k ≡ w.hiccups
    → (transmit k w bytes).0 ≡ Sent.interrupted
    → ((transmit k w bytes).1.outbox ≡ w.outbox) × ((transmit k w bytes).1.hiccups < w.hiccups)
transmit_interrupted (suc k) w bytes h e = (refl, omega arith)
transmit_interrupted zero w [] h e = absurd (ground arith)
transmit_interrupted zero w (x ∷ xs) h e = absurd (ground arith)

transmit_calm :
    (k : ℕ) (w : Wire) (bytes : List ℕ)
    → k ≡ w.hiccups
    → ((transmit k w bytes).1.hiccups ≤ w.hiccups)
      × ((transmit k w bytes).1.inbox ≡ w.inbox)
      × ((transmit k w bytes).1.faults ≡ w.faults + refused (transmit k w bytes).0)
transmit_calm (suc k) w bytes h = (omega arith, refl, omega arith)
transmit_calm zero w [] h = (omega arith, refl, omega arith)
transmit_calm zero w (x ∷ xs) h = (omega arith, refl, omega arith)

wire_socket-IsSocket :
    IsSocket wire_socket (λ w. w.inbox) (λ w. w.outbox) (λ w. w.hiccups) (λ w. w.faults)
wire_socket-IsSocket = record {
  recv_outgoing = λ w n. (receive_calm w.hiccups w.inbox w n refl).0;
  recv_patience = λ w n. (receive_calm w.hiccups w.inbox w n refl).1;
  recv_failures = λ w n. (receive_calm w.hiccups w.inbox w n refl).2;
  send_incoming = λ w bytes. (transmit_calm w.hiccups w bytes refl).1;
  send_patience = λ w bytes. (transmit_calm w.hiccups w bytes refl).0;
  send_failures = λ w bytes. (transmit_calm w.hiccups w bytes refl).2;
  recv_over = λ w n e. receive-over w.hiccups w.inbox w n e;
  send_refused = λ w bytes e. transmit_refused w.hiccups w bytes e;
  recv_got = λ w n bytes e. receive_got w.hiccups w.inbox w n bytes refl refl e;
  recv_interrupted = λ w n e. receive_interrupted w.hiccups w.inbox w n refl e;
  send_moved = λ w bytes n e. transmit_moved w.hiccups w bytes n e;
  send_interrupted = λ w bytes e. transmit_interrupted w.hiccups w bytes refl e;
}

abbrev flat : Layout
flat = record {
  encode_request = λ r. r.magic ∷ r.from_sequence ∷ r.to_sequence ∷ replicate 21 0;
  decode_request = λ bytes. record {
    magic = get_or bytes 0 0;
    from_sequence = get_or bytes 1 0;
    to_sequence = get_or bytes 2 0;
  };
  encode_header = λ h. h.magic ∷ h.count ∷ replicate 6 0;
  decode_header = λ bytes. record { magic = get_or bytes 0 0; count = get_or bytes 1 0 };
  encode_message = λ m. m.sequence_number ∷ replicate 47 0;
  decode_message = λ bytes. record zeroed { sequence_number = get_or bytes 0 0 };
}

flat-IsLayout : IsLayout flat
flat-IsLayout = record {
  request_sized = λ r. refl;
  header_sized = λ h. refl;
  message_sized = λ m. refl;
  request_copied = λ r fits from_word to_word. refl;
}

abbrev message : ℕ → MarketMessage
message s = record zeroed { sequence_number = s }

-- The numbers 1001 to 1003 in two slots.
abbrev kept : HistoryStore
kept = appended message 2 1001 2

kept-Holds : Holds message 1001 kept
kept-Holds =
    (appended-Holds message 2 1001 2 (λ s. refl) (omega arith) (omega arith) (omega arith)).0

abbrev for_two : RecoveryRequest
for_two = record { magic = recovery_magic; from_sequence = 1001; to_sequence = 1002 }

abbrev asked : Wire
asked = record { inbox = flat.encode_request for_two; outbox = []; hiccups = 2; faults = 0 }

read_exact-HasRead_example :
    HasRead
      (λ w. w.inbox)
      (λ w. w.outbox)
      (λ w. w.hiccups)
      (λ w. w.faults)
      asked
      24
      (read_exact wire_socket 100 asked 24)
read_exact-HasRead_example =
    read_exact-HasRead wire_socket (λ w. w.inbox) (λ w. w.outbox) (λ w. w.hiccups) (λ w. w.faults)
      wire_socket-IsSocket 100 asked 24 (omega arith)

write_exact-HasWritten_example :
    HasWritten
      (λ w. w.inbox)
      (λ w. w.outbox)
      (λ w. w.hiccups)
      (λ w. w.faults)
      asked
      (1 ∷ 2 ∷ 3 ∷ 4 ∷ 5 ∷ [])
      (write_exact wire_socket 100 asked (1 ∷ 2 ∷ 3 ∷ 4 ∷ 5 ∷ []))
write_exact-HasWritten_example =
    write_exact-HasWritten wire_socket (λ w. w.inbox) (λ w. w.outbox) (λ w. w.hiccups)
      (λ w. w.faults) wire_socket-IsSocket 100 asked (1 ∷ 2 ∷ 3 ∷ 4 ∷ 5 ∷ []) (omega arith)

request-Settles_example :
    Settles wire_socket flat
      (λ w. w.inbox)
      (λ w. w.outbox)
      (λ w. w.faults)
      true
      1001
      1002
      (frame_of flat 1001 1002)
      asked
      (request wire_socket flat 60000 true 1001 1002 asked)
request-Settles_example =
    request-Settles wire_socket flat (λ w. w.inbox) (λ w. w.outbox) (λ w. w.hiccups) (λ w. w.faults)
      wire_socket-IsSocket (λ r. refl) 60000 true 1001 1002 asked (omega arith)

serve_round-Answers_example :
    Answers
      (λ w. w.outbox)
      (λ w. w.faults)
      asked
      (reply_bytes wire_socket flat (answer_to message kept for_two))
      (length (answer_to message kept for_two))
      (serve_round wire_socket flat 60000 kept asked)
serve_round-Answers_example =
    serve_round-Answers wire_socket flat (λ w. w.inbox) (λ w. w.outbox) (λ w. w.hiccups)
      (λ w. w.faults) wire_socket-IsSocket flat-IsLayout message 60000 1001 kept for_two [] asked
      kept-Holds refl (omega arith) (omega arith) (sym (append-nil asked.inbox)) (omega arith)
      (omega arith)
