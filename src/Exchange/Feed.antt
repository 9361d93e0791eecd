-- ===== src/Exchange/Feed.antt =====
-- The loop of exchange/exchange_simulator.cpp: the numbers of its messages and its history.
use c_low_latency_trading_sy.Prelude.{
  ℕ, zero, suc, ◌+◌, ◌-◌, ◌^◌, ◌≤◌, ◌<◌, ◌≡◌, refl, sym, ap, subst, ◌∙◌, arith, word64, add64, Bool,
  ◌||◌, List, [], ◌∷◌, ◌==◌, length, get_or, Bool-cases, inl, inr,
}
use c_low_latency_trading_sy.Message.{MarketMessage}
use c_low_latency_trading_sy.History.{HistoryStore, zeroed, append}
use c_low_latency_trading_sy.History
use c_low_latency_trading_sy.History.Window.{
  Holds, append_first-Holds, append-Holds, newest-append, length-append_ring, length-init,
}
use c_low_latency_trading_sy.Handler.{Layout}
use c_low_latency_trading_sy.Exchange.{
  Exchange, Outside, draw_amendment, draw_event, publish, flush_full, publish_all, start,
}
use c_low_latency_trading_sy.Exchange.Replay.{published_by, flush_full-Kept}

abbrev pub append_all : HistoryStore → List MarketMessage → HistoryStore
append_all h [] = h
append_all h (message ∷ messages) = append_all (append h message) messages

-- The numbers from `lo` on, none left out.
abbrev pub Numbered : ℕ → List MarketMessage → Type 0
Numbered lo [] = Unit
Numbered lo (m ∷ ms) = (m.sequence_number ≡ lo) × Numbered (suc lo) ms

-- The messages by their numbers.
abbrev pub feed : ℕ → List MarketMessage → ℕ → MarketMessage
feed first messages s = record (get_or messages (s - first) zeroed) { sequence_number = s }

Follows : (ℕ → MarketMessage) → ℕ → List MarketMessage → Type 0
Follows published lo [] = Unit
Follows published lo (m ∷ ms) = (m ≡ published lo) × Follows published (suc lo) ms

all_follow :
    (published : ℕ → MarketMessage) (lo : ℕ) (ms : List MarketMessage)
    → Numbered lo ms
    → ((i : ℕ)
        → i < length ms
        → published (lo + i) ≡ record (get_or ms i zeroed) { sequence_number = lo + i })
    → Follows published lo ms
unfolding Follows
all_follow published lo [] n same = tt
all_follow published lo (m ∷ ms) n same = (
  ap (λ s. record m { sequence_number = s }) (n.0 ∙ omega arith)
      ∙ sym (same 0 (omega arith))
      ∙ ap published (omega arith),
  all_follow published (suc lo) ms n.1 (λ i h.
      subst (λ s. published s ≡ record (get_or ms i zeroed) { sequence_number = s }) (omega arith)
        (same (suc i) (omega arith))),
)

feed-Follows : (lo : ℕ) (ms : List MarketMessage) → Numbered lo ms → Follows (feed lo ms) lo ms
feed-Follows lo ms n =
    all_follow (feed lo ms) lo ms n
      (λ i h. ap (λ j. record (get_or ms j zeroed) { sequence_number = lo + i }) (omega arith))

module _ (published : ℕ → MarketMessage)
    (numbered : (s : ℕ) → (published s).sequence_number ≡ s) where
  append_all-Holds :
      (first : ℕ) (h : HistoryStore) (ms : List MarketMessage)
      → Holds published first h
      → h.newest_sequence + length ms < word64
      → length h.ring ≤ 2 ^ 63
      → Follows published (suc h.newest_sequence) ms
      → let out = append_all h ms in
        Holds published first out × (out.newest_sequence ≡ h.newest_sequence + length ms)
  unfolding Follows
  append_all-Holds first h [] holds word few f = (holds, omega arith)
  append_all-Holds first h (m ∷ ms) holds word few f =
      let newest : (append h m).newest_sequence ≡ suc h.newest_sequence =
        newest-append h m
        ∙ ap (λ (x : MarketMessage). x.sequence_number) f.0
        ∙ numbered (suc h.newest_sequence) in
      let next : Holds published first (append h m) =
        subst (λ x. Holds published first (append h x)) (sym f.0)
          (append-Holds published numbered first h holds (omega arith) few) in
      let rest =
        append_all-Holds first (append h m) ms next (omega (arith, newest))
          (omega (arith, length-append_ring h m))
          (subst (λ s. Follows published (suc s) ms) (sym newest) f.1) in
      (rest.0, omega (arith, rest.1, newest))

from_first :
    (capacity : ℕ)
    → 0 < capacity
    → capacity ≤ 2 ^ 63
    → (messages : List MarketMessage) → Numbered 1001 messages
    → 0 < length messages
    → 1001 + length messages < word64
    → Holds (feed 1001 messages) 1001 (append_all (History.init capacity) messages)
      × ((append_all (History.init capacity) messages).newest_sequence ≡ 1000 + length messages)
unfolding Follows
from_first capacity room few [] n some word = absurd (omega arith)
from_first capacity room few (m ∷ ms) n some word =
    let published : ℕ → MarketMessage = feed 1001 (m ∷ ms) in
    let h : HistoryStore = append (History.init capacity) m in
    let f = feed-Follows 1001 (m ∷ ms) n in
    let holds : Holds published 1001 h =
      subst (λ x. Holds published 1001 (append (History.init capacity) x)) (sym f.0)
        (append_first-Holds published (λ s. refl) capacity 1001 room few (omega arith)) in
    let newest : h.newest_sequence ≡ 1001 = newest-append (History.init capacity) m ∙ n.0 in
    let rest =
      append_all-Holds published (λ s. refl) 1001 h ms holds (omega (arith, newest))
        (omega (arith, length-append_ring (History.init capacity) m, length-init capacity))
        (subst (λ s. Follows published (suc s) ms) (sym newest) f.1) in
    (rest.0, omega (arith, rest.1, newest))

module _ {W : Type 0} (outside : Outside W) where
  abbrev Draws : Exchange → MarketMessage × (Exchange × W) → Type 0
  Draws x e = (e.0.sequence_number ≡ x.sequence) × (e.1.0.history ≡ x.history)

  amendment-Draws :
      (roll : outside.Draw) (x : Exchange) (w : W) → Draws x (draw_amendment outside roll (x, w))
  amendment-Draws roll x w = elim (Bool-cases (outside.is_below roll 75)) [
    | inl cancels ↦ rw cancels (refl, refl)
    | inr more ↦ elim (Bool-cases (outside.is_below roll 90)) [
      | inl modifies ↦ rw (more, modifies) (refl, refl)
      | inr trades ↦ rw (more, trades) (refl, refl)
    ]
  ]

  event-Draws : (x : Exchange) (w : W) → Draws x (draw_event outside (x, w))
  unfolding draw_event
  event-Draws x w =
      elim (Bool-cases (length x.live == 0 || outside.is_below (outside.unit w).0 60)) [
        | inl new ↦ rw new (refl, refl)
        | inr old ↦ rw old (amendment-Draws (outside.unit w).0 x (outside.unit w).1)
      ]

  event_sequence :
      (x : Exchange) (w : W) → (draw_event outside (x, w)).1.0.sequence ≡ add64 x.sequence 1
  unfolding draw_event
  event_sequence x w = refl

module _ {W : Type 0} (outside : Outside W) (layout : Layout) (batch : ℕ) (drops : Bool) where
  publish_kept :
      (x : Exchange) (w : W)
      → let (message, (y, v)) = publish outside layout batch drops (x, w) in
        (message.sequence_number ≡ x.sequence)
        × (y.sequence ≡ add64 x.sequence 1)
        × (y.history ≡ append x.history message)
  unfolding publish
  publish_kept x w =
      let e = draw_event outside (x, w) in
      let d : Draws outside x e = event-Draws outside x w in
      (
        d.0,
        event_sequence outside x w,
        ap (λ h. append h (record e.0 { timestamp_ns = (outside.now_ns e.1.1).0 })) d.1,
      )

  -- The messages are numbered from the exchange's next number on, and the history has taken each of
  -- them.
  publish_all_keeps :
      (left : ℕ) (x : Exchange) (w : W)
      → x.sequence + left < word64
      → let messages = published_by outside layout batch drops left (x, w) in
        Numbered x.sequence messages
        × ((publish_all outside layout batch drops left (x, w)).1.0.history
            ≡ append_all x.history messages)
        × (length messages ≤ left)
  unfolding published_by publish_all
  publish_all_keeps zero x w word = (tt, refl, omega arith)
  publish_all_keeps (suc left) x w word =
      let w' : W = (outside.stopped w).1 in
      let p : MarketMessage × (Exchange × W) = publish outside layout batch drops (x, w') in
      let f : Bool × (Exchange × W) = flush_full outside layout batch drops p.1 in
      let made = publish_kept x w' in
      let kept = flush_full-Kept outside layout batch drops p.1.0 p.1.1 in
      let next : f.1.0.sequence ≡ suc x.sequence = omega (arith, kept.2, made.1) in
      let stored : f.1.0.history ≡ append x.history p.0 = kept.1 ∙ made.2 in
      elim (Bool-cases (outside.stopped w).0) [
        | inl stop ↦ rw stop (tt, refl, omega arith)
        | inr on ↦ elim (Bool-cases f.0) [
          | inl sent ↦
              let rest = publish_all_keeps left f.1.0 f.1.1 (omega (arith, next)) in
              rw (on, sent)
                (
                  (
                    made.0,
                    subst (λ s. Numbered s (published_by outside layout batch drops left f.1)) next
                        rest.0,
                  ),
                  rest.1
                      ∙ ap (λ h. append_all h (published_by outside layout batch drops left f.1))
                          stored,
                  omega (arith, rest.2),
                )
          | inr failed ↦ rw (on, failed) ((made.0, tt), stored, omega arith)
        ]
      ]

  -- From the start, however many messages are published: the first has the number 1001 and each of the
  -- others the next one, and the history, of at least one slot, holds them all, for as far back as it has
  -- slots, each where `fetch` looks for it.
  pub publish_all-Holds :
      (capacity left : ℕ) (w : W)
      → 0 < capacity
      → capacity ≤ 2 ^ 63
      → 1001 + left < word64
      → let messages = published_by outside layout batch drops left (start capacity, w) in
        let out = (publish_all outside layout batch drops left (start capacity, w)).1.0 in
        0 < length messages
        → Numbered 1001 messages
          × Holds (feed 1001 messages) 1001 out.history
          × (out.history.newest_sequence ≡ 1000 + length messages)
  publish_all-Holds capacity left w room few word some =
      let k = publish_all_keeps left (start capacity) w word in
      let messages = published_by outside layout batch drops left (start capacity, w) in
      let h = from_first capacity room few messages k.0 some (omega (arith, k.2)) in
      (k.0, rw k.1 h.0, rw k.1 h.1)
