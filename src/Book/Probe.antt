-- ===== src/Book/Probe.antt =====
-- `index_insert` and `find_index` of orderbook/order_book.cpp.
use c_low_latency_trading_sy.Prelude.{
  ℕ, zero, suc, ◌+◌, ◌-◌, ◌%◌, ◌^◌, ◌≤◌, ◌<◌, ◌≡◌, ◌≢◌, refl, sym, ap, ◌∙◌, arith, false, List,
  bit_and, bit_and-mask, pow_pos, ◌==◌, length, get_or, set, length-set, get_or-set_self,
  get_or-set_ne, ◌⊎◌, inl, inr, Bool-cases, dec_lt, ℕ_discrete,
}
use native.Mathlib.Nat.{mod-lt, mod-eq_of_lt, mod_self}
use c_low_latency_trading_sy.Book.Types.{IndexSlot, empty_slot, empty_key, no_level}
use c_low_latency_trading_sy.Book.Table.{
  mix, key_at, next_position, find_from, find_index, insert_from, index_insert,
}

-- The first free slot that a probe meets: `insert_from` fills it, and then a probe for the key, which
-- found nothing before, ends there.
pub record IsStored (mask fuel : ℕ) (index : List IndexSlot) (id slot position : ℕ) : Type 0 where
  pub free : ℕ
  pub inside : free < length index
  pub was_empty : key_at index free ≡ empty_key
  pub stored :
      insert_from mask fuel index id slot position
      ≡ set index free (record { key = id; value = slot })
  pub found :
      find_from mask fuel index id position ≡ no_level
      → find_from mask fuel (set index free (record { key = id; value = slot })) id position ≡ free

-- All slots that a probe of `fuel` rounds meets from `position` on, past the end too, are in use.
record IsCrowded (fuel : ℕ) (index : List IndexSlot) (position : ℕ) : Type 0 where
  ahead :
      (q : ℕ) → position ≤ q → q < position + fuel → q < length index → key_at index q ≢ empty_key
  wrapped :
      (q : ℕ) → q + length index < position + fuel → q < length index → key_at index q ≢ empty_key

module _ (mask : ℕ) (index : List IndexSlot) (id slot : ℕ) (named : id ≢ empty_key)
    (small : length index < no_level)
    (next : (p : ℕ)
      → p < length index
      → ((suc p < length index) × (next_position mask p ≡ suc p))
        ⊎ ((suc p ≡ length index) × (next_position mask p ≡ 0))) where
  key-set_self : (q : ℕ) (s : IndexSlot) → q < length index → key_at (set index q s) q ≡ s.key
  key-set_self q s h = ap (λ x. x.key) (get_or-set_self index q s empty_slot h)

  key-set_ne : (q p : ℕ) (s : IndexSlot) → q ≢ p → key_at (set index q s) p ≡ key_at index p
  key-set_ne q p s ne = ap (λ x. x.key) (get_or-set_ne index q p s empty_slot ne)

  inside-next : (p : ℕ) → p < length index → next_position mask p < length index
  inside-next p h = elim (next p h) [
    | inl (a, b) ↦ omega (arith, b)
    | inr (a, b) ↦ omega (arith, b)
  ]

  store_here :
      (fuel p : ℕ)
      → p < length index
      → key_at index p ≡ empty_key
      → IsStored mask (suc fuel) index id slot p
  unfolding find_from insert_from
  store_here fuel p h e =
      let new : IndexSlot = record { key = id; value = slot } in
      record {
        free = p;
        inside = h;
        was_empty = e;
        stored = rw e refl;
        found = λ absent. rw (key-set_self p new h) (ground arith);
      }

  store_later :
      (fuel p : ℕ)
      → p < length index
      → key_at index p ≢ empty_key
      → IsStored mask fuel index id slot (next_position mask p)
      → IsStored mask (suc fuel) index id slot p
  unfolding find_from insert_from
  store_later fuel p h used s =
      let new : IndexSlot = record { key = id; value = slot } in
      let apart : s.free ≢ p = λ e. used (ap (key_at index) (sym e) ∙ s.was_empty) in
      let busy : (key_at index p == empty_key) ≡ false = ground arith in
      record {
        free = s.free;
        inside = s.inside;
        was_empty = s.was_empty;
        stored = rw busy s.stored;
        found = λ absent. elim (Bool-cases (key_at index p == id)) [
          | inl hit ↦ absurd (omega (arith, rw (busy, hit) at absent))
          | inr miss ↦
              rw (key-set_ne s.free p new apart, busy, miss) (s.found (rw (busy, miss) at absent))
        ];
      }

  crowd_later :
      (fuel p : ℕ)
      → p < length index
      → key_at index p ≢ empty_key
      → IsCrowded fuel index (next_position mask p)
      → IsCrowded (suc fuel) index p
  crowd_later fuel p h used c = record {
    ahead = λ q low high bound. elim (ℕ_discrete p q) [
      | yes e ↦ λ bare. used (ap (key_at index) e ∙ bare)
      | no ne ↦ elim (next p h) [
        | inl (more, at) ↦ c.ahead q (omega (arith, at)) (omega (arith, at)) bound
        | inr (last, at) ↦ absurd (omega arith)
      ]
    ];
    wrapped = λ q high bound. elim (next p h) [
      | inl (more, at) ↦ c.wrapped q (omega (arith, at)) bound
      | inr (last, at) ↦ c.ahead q (omega (arith, at)) (omega (arith, at)) bound
    ];
  }

  probe_lem :
      (fuel p : ℕ) → p < length index → IsStored mask fuel index id slot p ⊎ IsCrowded fuel index p
  probe_lem zero p h = inr (record {
    ahead = λ q low high bound. absurd (omega arith);
    wrapped = λ q high bound. absurd (omega arith);
  })
  probe_lem (suc fuel) p h = elim (ℕ_discrete (key_at index p) empty_key) [
    | yes e ↦ inl (store_here fuel p h e)
    | no used ↦ elim (probe_lem fuel (next_position mask p) (inside-next p h)) [
      | inl s ↦ inl (store_later fuel p h used s)
      | inr c ↦ inr (crowd_later fuel p h used c)
    ]
  ]

  pub probe-IsStored :
      (p q : ℕ)
      → p < length index
      → q < length index
      → key_at index q ≡ empty_key
      → IsStored mask (length index) index id slot p
  probe-IsStored p q hp hq e = elim (probe_lem (length index) p hp) [
    | inl s ↦ s
    | inr c ↦ elim (dec_lt q p) [
      | yes low ↦ absurd (c.wrapped q (omega arith) hq e)
      | no high ↦ absurd (c.ahead q (omega arith) (omega arith) hq e)
    ]
  ]

-- A probe goes to the next slot, and from the last one to the first.
next_in :
    (k : ℕ) (index : List IndexSlot)
    → length index ≡ 2 ^ k
    → (p : ℕ) → p < length index
    → ((suc p < length index) × (next_position (2 ^ k - 1) p ≡ suc p))
      ⊎ ((suc p ≡ length index) × (next_position (2 ^ k - 1) p ≡ 0))
next_in k index size p h = elim (dec_lt (suc p) (length index)) [
  | yes more ↦ inl (more, bit_and-mask k (p + 1) ∙ mod-eq_of_lt (omega (arith, size)) ∙ omega arith)
  | no last ↦ inr (
    omega arith,
    bit_and-mask k (p + 1) ∙ ap (λ n. n % 2 ^ k) (omega (arith, size)) ∙ mod_self (2 ^ k),
  )
]

found_after_insert :
    (mask : ℕ) (index : List IndexSlot) (id slot p : ℕ)
    → IsStored mask (length index) index id slot p
    → find_from mask (length index) index id p ≡ no_level
    → let index' = insert_from mask (length index) index id slot p in
      let position = find_from mask (length index') index' id p in
      (position < length index)
      × (key_at index' position ≡ id)
      × ((get_or index' position empty_slot).value ≡ slot)
found_after_insert mask index id slot p s absent =
    let new : IndexSlot = record { key = id; value = slot } in
    let at : find_from mask (length index) (set index s.free new) id p ≡ s.free = s.found absent in
    let here : get_or (set index s.free new) s.free empty_slot ≡ new =
      get_or-set_self index s.free new empty_slot s.inside in
    rw (s.stored, length-set index s.free new, at)
      (s.inside, ap (λ x. x.key) here, ap (λ x. x.value) here)

-- With a free slot in a table of 2 ^ k slots, an order id that the table does not have is found after
-- it is inserted, with its slot.
pub find_index-index_insert :
    (k : ℕ) (index : List IndexSlot) (id slot q : ℕ)
    → 2 ^ k < no_level
    → length index ≡ 2 ^ k
    → id ≢ empty_key
    → q < 2 ^ k
    → key_at index q ≡ empty_key
    → find_index (2 ^ k - 1) index id ≡ no_level
    → let index' = index_insert (2 ^ k - 1) index id slot in
      let position = find_index (2 ^ k - 1) index' id in
      (position < 2 ^ k)
      × (key_at index' position ≡ id)
      × ((get_or index' position empty_slot).value ≡ slot)
unfolding find_index index_insert
find_index-index_insert k index id slot q small size named hq free absent =
    let p : ℕ = bit_and (mix id) (2 ^ k - 1) in
    let hp : p < length index = rw (bit_and-mask k (mix id), size) (mod-lt (mix id) (pow_pos k)) in
    let found =
      found_after_insert (2 ^ k - 1) index id slot p
        (probe-IsStored (2 ^ k - 1) index id slot named (omega (arith, size)) (next_in k index size)
          p q hp (omega (arith, size)) free)
        absent in
    (omega (arith, found.0, size), found.1, found.2)
