-- ===== src/History/Window.antt =====
-- `HistoryStore::append` of exchange/recovery_server.cpp: the slots that hold a message.
use native.Mathlib.Nat.{mod-lt}
use c_low_latency_trading_sy.Prelude.{
  ℕ, zero, suc, ◌+◌, ◌-◌, ◌%◌, ◌^◌, ◌≤◌, ◌<◌, max, ◌≡◌, ◌≢◌, refl, sym, subst, replicate, ◌∙◌,
  false, List, arith, word64, length, get_or, set, replicate, length-set, length-replicate,
  get_or-set_self, get_or-set_ne, mod-inj_of_near, if◌then◌else◌, ℕ_discrete,
}
use c_low_latency_trading_sy.Message.{MarketMessage}
use c_low_latency_trading_sy.History.{HistoryStore, zeroed, init, append, aged}

-- The ring holds the last messages of a feed that began at `first`: all of them, or as many as it
-- has slots. `published s` is the message with sequence number `s`.
pub record Holds (published : ℕ → MarketMessage) (first : ℕ) (h : HistoryStore) : Type 0 where
  pub started : h.is_empty ≡ false
  pub slots : 0 < length h.ring
  pub begun : first ≤ h.newest_sequence
  pub oldest : h.oldest_sequence ≡ max first (suc h.newest_sequence - length h.ring)
  pub kept :
      (s : ℕ)
      → h.oldest_sequence ≤ s
      → s ≤ h.newest_sequence
      → get_or h.ring (s % length h.ring) zeroed ≡ published s

-- The retention edge after an append, in plain arithmetic.
aged-eq :
    (size newest oldest : ℕ)
    → 0 < size
    → size ≤ 2 ^ 63
    → newest < word64
    → oldest ≤ newest
    → newest ≤ oldest + size
    → aged size newest oldest ≡ max oldest (suc newest - size)
aged-eq size newest oldest pos few word le near = ground arith

-- `append` of a message `m` numbered `n`, to a ring whose oldest message was noted already.
abbrev stored : List MarketMessage → ℕ → ℕ → MarketMessage → HistoryStore
stored ring oldest n m = record {
  ring = set ring (n % length ring) m;
  oldest_sequence = aged (length ring) n oldest;
  newest_sequence = n;
  is_empty = false;
}

append-stored :
    (h : HistoryStore) (n oldest : ℕ) (m : MarketMessage)
    → m.sequence_number ≡ n
    → (if h.is_empty then n else h.oldest_sequence) ≡ oldest
    → append h m ≡ stored h.ring oldest n m
unfolding append
append-stored h n oldest m e f = ground (arith)

module _ (published : ℕ → MarketMessage)
    (numbered : (s : ℕ) → (published s).sequence_number ≡ s) where
  -- The next message takes the slot of the one that falls out of the window, and of no other.
  kept_after :
      (ring : List MarketMessage) (oldest newest s : ℕ)
      → 0 < length ring
      → newest < oldest + length ring
      → oldest ≤ s
      → s ≤ newest
      → (s ≢ newest → get_or ring (s % length ring) zeroed ≡ published s)
      → get_or (set ring (newest % length ring) (published newest)) (s % length ring) zeroed
        ≡ published s
  kept_after ring oldest newest s h room lo hi old = elim (ℕ_discrete s newest) [
    | yes e ↦
        rw e
          (get_or-set_self ring (newest % length ring) (published newest) zeroed (mod-lt newest h))
    | no ne ↦
        get_or-set_ne ring _ _ (published newest) zeroed
          (λ e. ne (mod-inj_of_near (length ring) s newest hi (omega arith) (sym e)))
        ∙ old ne
  ]

  stored-Holds :
      (first : ℕ) (ring : List MarketMessage) (oldest n : ℕ)
      → 0 < length ring
      → length ring ≤ 2 ^ 63
      → n < word64
      → oldest ≤ n
      → n ≤ oldest + length ring
      → first ≤ n
      → max oldest (suc n - length ring) ≡ max first (suc n - length ring)
      → ((s : ℕ) → oldest ≤ s → s < n → get_or ring (s % length ring) zeroed ≡ published s)
      → Holds published first (stored ring oldest n (published n))
  stored-Holds first ring oldest n pos few word le near begun edge old = record {
    started = refl;
    slots = rw same_size pos;
    begun = begun;
    oldest = rw same_size (aged_now ∙ edge);
    kept = rw same_size λ s lo hi.
        kept_after ring (max oldest (suc n - length ring)) n s pos (omega arith)
          (subst (λ t. t ≤ s) aged_now lo) hi
          (λ ne. old s (omega (arith, subst (λ t. t ≤ s) aged_now lo)) (omega arith));
  }
    where
      same_size : length (set ring (n % length ring) (published n)) ≡ length ring
      same_size = length-set ring _ _

      aged_now : aged (length ring) n oldest ≡ max oldest (suc n - length ring)
      aged_now = aged-eq (length ring) n oldest pos few word le near

  pub append_first-Holds :
      (capacity first : ℕ)
      → 0 < capacity
      → capacity ≤ 2 ^ 63
      → first < word64
      → Holds published first (append (init capacity) (published first))
  unfolding init
  append_first-Holds capacity first pos few word =
      subst (Holds published first)
        (sym (append-stored (init capacity) first first (published first) (numbered first) refl))
        (stored-Holds first (replicate capacity zeroed) first first (rw size pos) (rw size few) word
          (omega arith) (omega arith) (omega arith) refl (λ s lo hi. absurd (omega arith)))
    where
      size : length (replicate capacity zeroed) ≡ capacity
      size = length-replicate capacity zeroed

  -- The next message of the feed keeps it so.
  pub append-Holds :
      (first : ℕ) (h : HistoryStore)
      → Holds published first h
      → suc h.newest_sequence < word64
      → length h.ring ≤ 2 ^ 63
      → Holds published first (append h (published (suc h.newest_sequence)))
  append-Holds first h v word few =
      subst (Holds published first)
        (sym (append-stored h n h.oldest_sequence (published n) (numbered n) (rw v.started)))
        (stored-Holds first h.ring h.oldest_sequence n v.slots few word
          (omega (arith, v.oldest, v.begun, v.slots)) (omega (arith, v.oldest))
          (omega (arith, v.begun)) (omega (arith, v.oldest, v.begun, v.slots))
          (λ s lo hi. v.kept s lo (omega arith)))
    where
      n : ℕ
      n = suc h.newest_sequence

-- The store after the exchange has appended the `n + 1` messages from `first` on.
unfoldable pub appended : (ℕ → MarketMessage) → ℕ → ℕ → ℕ → HistoryStore
appended published capacity first zero = append (init capacity) (published first)
appended published capacity first (suc n) =
    append (appended published capacity first n) (published (first + suc n))

pub newest-append :
    (h : HistoryStore) (m : MarketMessage) → (append h m).newest_sequence ≡ m.sequence_number
unfolding append
newest-append h m = refl

pub length-append_ring :
    (h : HistoryStore) (m : MarketMessage) → length (append h m).ring ≡ length h.ring
unfolding append
length-append_ring h m = length-set h.ring _ m

pub length-init : (capacity : ℕ) → length (init capacity).ring ≡ capacity
unfolding init
length-init capacity = length-replicate capacity zeroed

-- A store of at least one slot, to which the feed's messages from `first` on are appended in order,
-- keeps as many of the last of them as it has slots, each where `fetch` looks for it.
pub appended-Holds :
    (published : ℕ → MarketMessage) (capacity first n : ℕ)
    → ((s : ℕ) → (published s).sequence_number ≡ s)
    → 0 < capacity
    → capacity ≤ 2 ^ 63
    → first + n < word64
    → let h = appended published capacity first n in
      Holds published first h × (h.newest_sequence ≡ first + n) × (length h.ring ≡ capacity)
unfolding appended init
appended-Holds published capacity first zero numbered pos few word = (
  append_first-Holds published numbered capacity first pos few (omega arith),
  newest-append (init capacity) (published first) ∙ numbered first ∙ omega arith,
  length-append_ring (init capacity) (published first) ∙ length-replicate capacity zeroed,
)
appended-Holds published capacity first (suc n) numbered pos few word =
    let (held, newest, size) =
      appended-Holds published capacity first n numbered pos few (omega arith) in
    let e : first + suc n ≡ suc (appended published capacity first n).newest_sequence =
      omega (arith, newest) in
    rw e (
      append-Holds published numbered first _ held (omega arith) (rw size few),
      newest-append _ (published (suc (appended published capacity first n).newest_sequence))
          ∙ numbered _,
      length-append_ring _ _ ∙ size,
    )
