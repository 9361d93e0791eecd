-- ===== src/Exchange/Packets.antt =====
-- The packets of exchange/exchange_simulator.cpp, and their checks in
-- market_data/market_data_handler.cpp.
use c_low_latency_trading_sy.Prelude.{
  ℕ, zero, suc, ◌+◌, ◌*◌, ◌^◌, ◌≤◌, ◌<◌, ◌≡◌, refl, sym, ap, ap₂, ◌∙◌, arith, Bool, true, false,
  ◌||◌, not, List, [], ◌∷◌, ◌++◌, none, some, ltb, ltb→ge, ◌==◌, if◌then◌else◌, length,
  length-append, take, drop,
}
use c_low_latency_trading_sy.Prelude.Int.{pos_part, neg_part}
use c_low_latency_trading_sy.Message.{
  MarketMessage, MessageType, FeedPacketHeader, feed_magic, max_batch, max_packet_bytes,
  sizeof_feed_packet_header, sizeof_market_message,
}
use c_low_latency_trading_sy.Handler.{Layout, parse, payload_from}
use c_low_latency_trading_sy.Exchange.{packet_of, encode_all}

abbrev IsNamed : MessageType → Type 0
IsNamed (MessageType.unknown t) = ⊥
IsNamed _ = Unit

-- The fields have the ranges of their types, and the type byte is one of the four.
pub record Fits (m : MarketMessage) : Type 0 where
  pub sequence_number : m.sequence_number < 2 ^ 64
  pub timestamp_ns : m.timestamp_ns < 2 ^ 64
  pub order_id : m.order_id < 2 ^ 64
  pub high : pos_part m.price < 2 ^ 63
  pub low : neg_part m.price ≤ 2 ^ 63
  pub quantity : m.quantity < 2 ^ 32
  pub symbol_id : m.symbol_id < 2 ^ 32
  pub type : IsNamed m.type

abbrev pub AllFit : List MarketMessage → Type 0
AllFit [] = Unit
AllFit (m ∷ ms) = Fits m × AllFit ms

-- Both ends are built with the same two packed structs.
pub record IsPacked (layout : Layout) : Type 0 where
  pub header_size :
      (h : FeedPacketHeader) → length (layout.encode_header h) ≡ sizeof_feed_packet_header
  pub message_size : (m : MarketMessage) → length (layout.encode_message m) ≡ sizeof_market_message
  pub header_back :
      (h : FeedPacketHeader)
      → h.magic < 2 ^ 32
      → h.count < 2 ^ 16
      → layout.decode_header (layout.encode_header h) ≡ h
  pub message_back :
      (m : MarketMessage) → Fits m → layout.decode_message (layout.encode_message m) ≡ m

module _ {ℓ} {A : Type ℓ} where
  take-append : (n : ℕ) (xs ys : List A) → length xs ≡ n → take n (xs ++ ys) ≡ xs
  take-append zero [] ys e = refl
  take-append zero (x ∷ xs) ys e = absurd (omega arith)
  take-append (suc n) [] ys e = absurd (omega arith)
  take-append (suc n) (x ∷ xs) ys e = ap (λ zs. x ∷ zs) (take-append n xs ys (omega arith))

  drop-append : (n : ℕ) (xs ys : List A) → length xs ≡ n → drop n (xs ++ ys) ≡ ys
  drop-append zero [] ys e = refl
  drop-append zero (x ∷ xs) ys e = absurd (omega arith)
  drop-append (suc n) [] ys e = absurd (omega arith)
  drop-append (suc n) (x ∷ xs) ys e = drop-append n xs ys (omega arith)

length-payload_from :
    (layout : Layout) (count : ℕ) (bytes : List ℕ)
    → length (payload_from layout count bytes) ≡ count
unfolding payload_from
length-payload_from layout zero bytes = refl
length-payload_from layout (suc count) bytes =
    ap suc (length-payload_from layout count (drop sizeof_market_message bytes))

passed_both :
    (short bad : Bool) (out messages : List MarketMessage)
    → (if short then none else if bad then none else some out) ≡ some messages
    → (bad ≡ false) × (out ≡ messages)
passed_both true bad out messages e = cc
passed_both false true out messages e = cc
passed_both false false out messages e = (refl, cc)

passed_four :
    (magic bare many whole : Bool)
    → (not magic || bare || many || not whole) ≡ false
    → (magic ≡ true) × (bare ≡ false) × (many ≡ false) × (whole ≡ true)
passed_four true false false true e = (refl, refl, refl, refl)
passed_four false bare many whole e = cc
passed_four true true many whole e = cc
passed_four true false true whole e = cc
passed_four true false false false e = cc

-- A packet that the handler takes has at least one message and at most `kMaxBatch`, and is exactly as long
-- as its header and they are: it fits the buffer, and every message read lies in what was received.
pub parse-IsWhole :
    (layout : Layout) (bytes : List ℕ) (messages : List MarketMessage)
    → parse layout bytes ≡ some messages
    → (0 < length messages)
      × (length messages ≤ max_batch)
      × (length bytes ≡ sizeof_feed_packet_header + length messages * sizeof_market_message)
      × (length bytes ≤ max_packet_bytes)
unfolding parse
parse-IsWhole layout bytes messages e =
    let header = layout.decode_header (take sizeof_feed_packet_header bytes) in
    let size = length-payload_from layout header.count (drop sizeof_feed_packet_header bytes) in
    let checks = passed_both (ltb (length bytes) sizeof_feed_packet_header) _ _ messages e in
    let count : length messages ≡ header.count = ap length (sym checks.1) ∙ size in
    let known =
      passed_four (header.magic == feed_magic) (header.count == 0) (ltb max_batch header.count) _
        checks.0 in
    (
      ground (arith, known.1, count),
      omega (arith, ltb→ge max_batch header.count known.2, count),
      ground (arith, known.3, count),
      ground (arith, known.3, known.2, count),
    )

module _ (layout : Layout) (packed : IsPacked layout) where
  length-encode_all :
      (ms : List MarketMessage) → length (encode_all layout ms) ≡ length ms * sizeof_market_message
  length-encode_all [] = refl
  length-encode_all (m ∷ ms) = omega (
    arith,
    length-append (layout.encode_message m) (encode_all layout ms),
    packed.message_size m,
    length-encode_all ms,
  )

  payload_from-encode_all :
      (ms : List MarketMessage)
      → AllFit ms
      → payload_from layout (length ms) (encode_all layout ms) ≡ ms
  unfolding payload_from
  payload_from-encode_all [] fit = refl
  payload_from-encode_all (m ∷ ms) fit =
      ap₂ (λ x xs. x ∷ xs)
        (ap layout.decode_message (
            take-append sizeof_market_message (layout.encode_message m) (encode_all layout ms)
              (packed.message_size m))
          ∙ packed.message_back m fit.0)
        (ap (payload_from layout (length ms)) (
            drop-append sizeof_market_message (layout.encode_message m) (encode_all layout ms)
              (packed.message_size m))
          ∙ payload_from-encode_all ms fit.1)

  -- Of every packet that the exchange makes of at least one message and at most `kMaxBatch`, the handler
  -- reads those messages, in order.
  pub parse-packet_of :
      (ms : List MarketMessage)
      → 0 < length ms
      → length ms ≤ max_batch
      → AllFit ms
      → parse layout (packet_of layout ms) ≡ some ms
  unfolding parse packet_of
  parse-packet_of ms some_message few fit =
      let h : FeedPacketHeader = record { magic = feed_magic; count = length ms } in
      let size = packed.header_size h in
      let header : layout.decode_header
            (take sizeof_feed_packet_header (layout.encode_header h ++ encode_all layout ms))
          ≡ h =
        ap layout.decode_header (
          take-append sizeof_feed_packet_header (layout.encode_header h) (encode_all layout ms)
            size)
        ∙ packed.header_back h (omega arith) (omega arith) in
      let rest : drop sizeof_feed_packet_header (layout.encode_header h ++ encode_all layout ms)
          ≡ encode_all layout ms =
        drop-append sizeof_feed_packet_header (layout.encode_header h) (encode_all layout ms)
          size in
      let whole : length (layout.encode_header h ++ encode_all layout ms) ≡ 8 + length ms * 48 =
        omega (
          arith,
          length-append (layout.encode_header h) (encode_all layout ms),
          size,
          length-encode_all ms,
        ) in
      rw (header, rest, whole) (ground (arith, payload_from-encode_all ms fit))
