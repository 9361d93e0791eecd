-- ===== src/Engine/Drain.antt =====
-- The loop of orderbook/order_book_engine.cpp over the events of the ring.
use c_low_latency_trading_sy.Prelude.{
  ℕ, zero, suc, ◌+◌, ◌%◌, ◌<◌, ◌≡◌, ◌≢◌, refl, ap, ◌∙◌, arith, true, List, [], ◌∷◌, Option, none,
  some, word64, length,
}
use c_low_latency_trading_sy.Message.{MarketMessage, MessageType, PipelineEvent}
use c_low_latency_trading_sy.Book.Types.{
  OrderBook, Result, ok, unknown_order, duplicate_order, price_out_of_band, pool_exhausted,
  invalid_quantity,
}
use c_low_latency_trading_sy.Book.Reject.{
  add_unchanged, cancel_unchanged, modify_unchanged, execute_unchanged,
}
use c_low_latency_trading_sy.Spsc.{Queue, try_pop, empty}
use c_low_latency_trading_sy.Spsc.Inv.{Inv, try_pop-Inv}
use c_low_latency_trading_sy.Spsc.Refine.{contents, try_pop_refines, size-eq-length, dequeue}
use c_low_latency_trading_sy.Engine.{
  Engine, ApplyCounters, record_result, count_result, dispatch, dispatch_on, apply_event, handle,
  drain,
}

-- The events in turn, with the clock.
abbrev pub handle_all : {W : Type 0} → (W → ℕ × W) → List PipelineEvent → Engine × W → Engine × W
handle_all now_ns [] s = s
handle_all now_ns (event ∷ events) s = handle_all now_ns events (handle now_ns event s)

-- The loop, with the ring left: what it held is handled, and it is valid and empty.
pub record IsDrained {W : Type 0} (k : ℕ) (zeroed : PipelineEvent) (out : Engine × W)
    (result : Option (Queue PipelineEvent × (Engine × W))) : Type 0 where
  pub ring : Queue PipelineEvent
  pub returns : result ≡ some (ring, out)
  pub valid : Inv k ring
  pub bare : contents k zeroed ring ≡ []

module _ {W : Type 0} (now_ns : W → ℕ × W) (k : ℕ) (zeroed : PipelineEvent) where
  ring_empty : (q : Queue PipelineEvent) → Inv k q → contents k zeroed q ≡ [] → empty q ≡ true
  ring_empty q h e =
      ground (arith, (size-eq-length k zeroed q h).0, (size-eq-length k zeroed q h).1, ap length e)

  drain_all :
      (events : List PipelineEvent) (fuel : ℕ) (q : Queue PipelineEvent) (s : Engine × W)
      → Inv k q
      → contents k zeroed q ≡ events
      → length events < fuel
      → IsDrained k zeroed (handle_all now_ns events s) (drain now_ns k zeroed fuel q s)
  unfolding drain dequeue
  drain_all events zero q s h e lt = absurd (omega arith)
  drain_all [] (suc fuel) q s h e lt =
      let sees = try_pop_refines k zeroed q h ∙ ap dequeue e in
      let out : (try_pop k zeroed q).0 ≡ none = ap (λ x. x.0) sees in
      let left : contents k zeroed (try_pop k zeroed q).1 ≡ [] = ap (λ x. x.1) sees in
      let still : Inv k (try_pop k zeroed q).1 = try_pop-Inv k zeroed q h in
      let bare : empty (try_pop k zeroed q).1 ≡ true =
        ring_empty (try_pop k zeroed q).1 still left in
      rw (out, bare)
        (record { ring = (try_pop k zeroed q).1; returns = refl; valid = still; bare = left })
  drain_all (x ∷ xs) (suc fuel) q s h e lt =
      let sees = try_pop_refines k zeroed q h ∙ ap dequeue e in
      let out : (try_pop k zeroed q).0 ≡ some x = ap (λ p. p.0) sees in
      let left : contents k zeroed (try_pop k zeroed q).1 ≡ xs = ap (λ p. p.1) sees in
      rw out (
        drain_all xs fuel (try_pop k zeroed q).1 (handle now_ns x s) (try_pop-Inv k zeroed q h) left
          (omega arith))

  -- Once the producer is done, the loop of the engine returns, given more rounds than the ring has
  -- entries: it has handled exactly the entries of a valid ring, oldest first, and left it empty.
  pub drain-IsDrained :
      (fuel : ℕ) (q : Queue PipelineEvent) (s : Engine × W)
      → Inv k q
      → length (contents k zeroed q) < fuel
      → IsDrained k zeroed
          (handle_all now_ns (contents k zeroed q) s)
          (drain now_ns k zeroed fuel q s)
  drain-IsDrained fuel q s h lt = drain_all (contents k zeroed q) fuel q s h refl lt

-- A message that the book turns down, or whose type byte names nothing, leaves the book as it was.
pub dispatch_unchanged :
    (b : OrderBook) (m : MarketMessage) → (dispatch b m).1 ≢ some ok → (dispatch b m).0 ≡ b
unfolding dispatch
dispatch_unchanged b m bad = on_type m.type bad
  where
    on_type : (t : MessageType) → (dispatch_on t b m).1 ≢ some ok → (dispatch_on t b m).0 ≡ b
    on_type MessageType.add bad =
        add_unchanged b m.order_id m.side m.price m.quantity (λ e. bad (ap some e))
    on_type MessageType.cancel bad = cancel_unchanged b m.order_id (λ e. bad (ap some e))
    on_type MessageType.modify bad =
        modify_unchanged b m.order_id m.price m.quantity (λ e. bad (ap some e))
    on_type MessageType.trade bad = execute_unchanged b m.order_id m.quantity (λ e. bad (ap some e))
    on_type (MessageType.unknown t) bad = refl

-- The events that the counters have seen.
abbrev pub total : ApplyCounters → ℕ
total c =
    c.applied + c.unknown_order + c.duplicate_order + c.out_of_band + c.pool_exhausted + c.invalid

-- How many of some events have a type that an enumerator names.
abbrev pub is_named : MessageType → ℕ
is_named MessageType.add = 1
is_named MessageType.cancel = 1
is_named MessageType.modify = 1
is_named MessageType.trade = 1
is_named (MessageType.unknown t) = 0

abbrev pub named_events : List PipelineEvent → ℕ
named_events [] = 0
named_events (e ∷ es) = is_named e.msg.type + named_events es

total-record_result :
    (c : ApplyCounters) (r : Result) → total (record_result c r) % word64 ≡ (total c + 1) % word64
unfolding record_result
total-record_result c ok = omega arith
total-record_result c unknown_order = omega arith
total-record_result c duplicate_order = omega arith
total-record_result c price_out_of_band = omega arith
total-record_result c pool_exhausted = omega arith
total-record_result c invalid_quantity = omega arith

total-dispatch_on :
    (c : ApplyCounters) (b : OrderBook) (m : MarketMessage) (t : MessageType)
    → total (count_result c (dispatch_on t b m).1) % word64 ≡ (total c + is_named t) % word64
total-dispatch_on c b m MessageType.add = total-record_result c _
total-dispatch_on c b m MessageType.cancel = total-record_result c _
total-dispatch_on c b m MessageType.modify = total-record_result c _
total-dispatch_on c b m MessageType.trade = total-record_result c _
total-dispatch_on c b m (MessageType.unknown t) = omega arith

-- Modulo 2 ^ 64, `consumed` grows by the number of events, and the six counters together by the number
-- of those whose type is named, whatever the book answers.
pub handle_all_counts :
    {W : Type 0} (now_ns : W → ℕ × W) (events : List PipelineEvent) (e : Engine) (w : W)
    → let out = (handle_all now_ns events (e, w)).0 in
      (out.consumed % word64 ≡ (e.consumed + length events) % word64)
      × (total out.counters % word64 ≡ (total e.counters + named_events events) % word64)
unfolding apply_event dispatch
handle_all_counts now_ns [] e w = (omega arith, omega arith)
handle_all_counts now_ns (event ∷ events) e w =
    let now = now_ns w in
    let later = now_ns now.1 in
    let rest = handle_all_counts now_ns events (apply_event e event now.0 later.0) later.1 in
    (
      rest.0 ∙ omega arith,
      rest.1 ∙ omega (arith, total-dispatch_on e.counters e.book event.msg event.msg.type),
    )
