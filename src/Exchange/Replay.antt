-- ===== src/Exchange/Replay.antt =====
-- The loop of exchange/exchange_simulator.cpp, and the book of a reader of its messages.
use c_low_latency_trading_sy.Prelude.{
  ℕ, zero, suc, ◌≡◌, refl, sym, ap, ◌∙◌, Bool, true, false, ◌||◌, List, [], ◌∷◌, ◌==◌,
  if◌then◌else◌, length, Bool-cases, inl, inr,
}
use c_low_latency_trading_sy.Message.{MarketMessage, MessageType}
use c_low_latency_trading_sy.Book.Types.{OrderBook}
use c_low_latency_trading_sy.Engine.{dispatch, dispatch_on}
use c_low_latency_trading_sy.Handler.{Layout}
use c_low_latency_trading_sy.Exchange.{
  Exchange, Outside, draw_order, draw_amendment, draw_event, publish, flush_packet, flush_full,
  publish_all, publish_feed, send, send_packet,
}

-- The engine's `switch` on each message in turn.
abbrev pub replay : OrderBook → List MarketMessage → OrderBook
replay b [] = b
replay b (message ∷ messages) = replay (dispatch b message).0 messages

-- The time of a message does not matter to the book.
dispatch_stamped :
    (b : OrderBook) (m : MarketMessage) (now : ℕ)
    → (dispatch b (record m { timestamp_ns = now })).0 ≡ (dispatch b m).0
unfolding dispatch
dispatch_stamped b m now = on_type m.type
  where
    on_type :
        (t : MessageType)
        → (dispatch_on t b (record m { timestamp_ns = now })).0 ≡ (dispatch_on t b m).0
    on_type MessageType.add = refl
    on_type MessageType.cancel = refl
    on_type MessageType.modify = refl
    on_type MessageType.trade = refl
    on_type (MessageType.unknown t) = refl

module _ {W : Type 0} (outside : Outside W) where
  order_replays :
      (x : Exchange) (w : W)
      → (dispatch x.book (draw_order outside (x, w)).0).0 ≡ (draw_order outside (x, w)).1.0.book
  unfolding dispatch
  order_replays x w = refl

  amendment_replays :
      (roll : outside.Draw) (x : Exchange) (w : W)
      → (dispatch x.book (draw_amendment outside roll (x, w)).0).0
        ≡ (draw_amendment outside roll (x, w)).1.0.book
  unfolding dispatch
  amendment_replays roll x w = elim (Bool-cases (outside.is_below roll 75)) [
    | inl cancels ↦ rw cancels refl
    | inr more ↦ elim (Bool-cases (outside.is_below roll 90)) [
      | inl modifies ↦ rw (more, modifies) refl
      | inr trades ↦ rw (more, trades) refl
    ]
  ]

  pub event_replays :
      (x : Exchange) (w : W)
      → (dispatch x.book (draw_event outside (x, w)).0).0 ≡ (draw_event outside (x, w)).1.0.book
  unfolding draw_event
  event_replays x w =
      elim (Bool-cases (length x.live == 0 || outside.is_below (outside.unit w).0 60)) [
        | inl new ↦ rw new (order_replays x (outside.unit w).1)
        | inr old ↦ rw old (amendment_replays (outside.unit w).0 x (outside.unit w).1)
      ]

module _ {W : Type 0} (outside : Outside W) (layout : Layout) (batch : ℕ) (drops : Bool) where
  -- The messages that `publish_all` publishes, in order.
  unfoldable pub published_by : ℕ → Exchange × W → List MarketMessage
  published_by zero s = []
  published_by (suc left) (x, w) =
      let (stop, w') = outside.stopped w in
      let (message, s) = publish outside layout batch drops (x, w') in
      let (sent, s') = flush_full outside layout batch drops s in
      let rest = published_by left s' in
      if stop then [] else if sent then message ∷ rest else message ∷ []

  -- A packet takes nothing out of the book or the history.
  abbrev pub Kept : Exchange → Exchange → Type 0
  Kept x y = (y.book ≡ x.book) × (y.history ≡ x.history) × (y.sequence ≡ x.sequence)

  Kept-if :
      (c : Bool) (x : Exchange) (s t : Bool × (Exchange × W))
      → Kept x s.1.0
      → Kept x t.1.0
      → Kept x (if c then s else t).1.0
  Kept-if true x s t h k = h
  Kept-if false x s t h k = k

  send_packet-Kept :
      (x : Exchange) (w : W) → Kept x (send_packet outside layout batch drops (x, w)).1.0
  send_packet-Kept x w =
      Kept-if (send (outside.sendto _ w).0) x _ _ (refl, refl, refl) (refl, refl, refl)

  flush_packet-Kept :
      (x : Exchange) (w : W) → Kept x (flush_packet outside layout batch drops (x, w)).1.0
  unfolding flush_packet
  flush_packet-Kept x w =
      Kept-if (length x.pending == 0) x _ _ (refl, refl, refl)
        (Kept-if drops x _ _
          (Kept-if (outside.is_below_drop_rate (outside.unit w).0) x _ _ (refl, refl, refl)
            (send_packet-Kept x (outside.unit w).1))
          (send_packet-Kept x w))

  pub flush_full-Kept :
      (x : Exchange) (w : W) → Kept x (flush_full outside layout batch drops (x, w)).1.0
  flush_full-Kept x w =
      Kept-if (length x.pending == batch) x _ _ (flush_packet-Kept x w) (refl, refl, refl)

  -- The packet after the loop takes nothing out either.
  publish_feed-Kept :
      (total : ℕ) (s : Exchange × W)
      → Kept
          (publish_all outside layout batch drops total s).1.0
          (publish_feed outside layout batch drops total s).1.0
  unfolding publish_feed
  publish_feed-Kept total s = elim (Bool-cases (publish_all outside layout batch drops total s).0) [
    | inl sent ↦
        let (x, w) = (publish_all outside layout batch drops total s).1 in
        rw sent (flush_packet-Kept x w)
    | inr unsent ↦ rw unsent (refl, refl, refl)
  ]

  publish_replays :
      (x : Exchange) (w : W)
      → let (message, (y, v)) = publish outside layout batch drops (x, w) in
        (dispatch x.book message).0 ≡ y.book
  unfolding publish
  publish_replays x w =
      let e = draw_event outside (x, w) in
      dispatch_stamped x.book e.0 (outside.now_ns e.1.1).0 ∙ event_replays outside x w

  -- However many messages are drawn, whatever they are, and whether packets are dropped, a send fails or a
  -- signal ends the loop: a book equal to the exchange's at the start, to which the engine applies the
  -- published messages in order, equals the exchange's at the end.
  pub publish_all_replays :
      (left : ℕ) (x : Exchange) (w : W)
      → replay x.book (published_by left (x, w))
        ≡ (publish_all outside layout batch drops left (x, w)).1.0.book
  unfolding published_by publish_all
  publish_all_replays zero x w = refl
  publish_all_replays (suc left) x w =
      let w' : W = (outside.stopped w).1 in
      let p : MarketMessage × (Exchange × W) = publish outside layout batch drops (x, w') in
      let f : Bool × (Exchange × W) = flush_full outside layout batch drops p.1 in
      let kept : f.1.0.book ≡ p.1.0.book = (flush_full-Kept p.1.0 p.1.1).0 in
      let one : (dispatch x.book p.0).0 ≡ f.1.0.book = publish_replays x w' ∙ sym kept in
      elim (Bool-cases (outside.stopped w).0) [
        | inl stop ↦ rw stop refl
        | inr on ↦ elim (Bool-cases f.0) [
          | inl sent ↦
              rw (on, sent)
                (ap (λ b. replay b (published_by left f.1)) one
                  ∙ publish_all_replays left f.1.0 f.1.1)
          | inr failed ↦ rw (on, failed) one
        ]
      ]
