-- ===== src/Book/Table.antt =====
-- `mix`, `find_index`, `index_insert` and `index_erase` of orderbook/order_book.cpp: an open-addressed
-- table with linear probing and backward-shift deletion. Key 0 marks an empty slot.
-- Each loop is given as much fuel as the table has slots.
use c_low_latency_trading_sy.Prelude.{
  ℕ, zero, suc, ◌+◌, ◌*◌, ◌/◌, ◌%◌, ◌^◌, Bool, ◌&&◌, ◌||◌, List, bit_and, bit_xor, add64, word64,
  ltb, leb, ◌==◌, if◌then◌else◌, length, get_or, set,
}
use c_low_latency_trading_sy.Book.Types.{IndexSlot, empty_slot, empty_key, no_level}

-- The splitmix64 finalizer.
unfoldable pub mix : ℕ → ℕ
mix key =
    let a = add64 key 0x9e3779b97f4a7c15 in
    let b = (bit_xor a (a / 2 ^ 30) * 0xbf58476d1ce4e5b9) % word64 in
    let c = (bit_xor b (b / 2 ^ 27) * 0x94d049bb133111eb) % word64 in bit_xor c (c / 2 ^ 31)

abbrev pub key_at : List IndexSlot → ℕ → ℕ
key_at index position = (get_or index position empty_slot).key

module _ (mask : ℕ) where
  abbrev pub next_position : ℕ → ℕ
  next_position position = bit_and (position + 1) mask

  unfoldable pub find_from : ℕ → List IndexSlot → ℕ → ℕ → ℕ
  find_from zero index order_id position = no_level
  find_from (suc fuel) index order_id position =
      let rest = find_from fuel index order_id (next_position position) in
      if key_at index position == empty_key
      then no_level
      else if key_at index position == order_id
      then position
      else rest

  -- `kNoLevel` stands for "not found".
  unfoldable pub find_index : List IndexSlot → ℕ → ℕ
  find_index index order_id = find_from (length index) index order_id (bit_and (mix order_id) mask)

  unfoldable pub insert_from : ℕ → List IndexSlot → ℕ → ℕ → ℕ → List IndexSlot
  insert_from zero index order_id slot position = index
  insert_from (suc fuel) index order_id slot position =
      let rest = insert_from fuel index order_id slot (next_position position) in
      if key_at index position == empty_key
      then set index position (record { key = order_id; value = slot })
      else rest

  unfoldable pub index_insert : List IndexSlot → ℕ → ℕ → List IndexSlot
  index_insert index order_id slot =
      insert_from (length index) index order_id slot (bit_and (mix order_id) mask)

  -- `must_stay`
  abbrev pub must_stay : ℕ → ℕ → ℕ → Bool
  must_stay hole probe ideal =
      if ltb hole probe
      then ltb hole ideal && leb ideal probe
      else ltb hole ideal || leb ideal probe

  abbrev pub clear_key : List IndexSlot → ℕ → List IndexSlot
  clear_key index hole = set index hole (record (get_or index hole empty_slot) { key = empty_key })

  -- Both loops of `index_erase`, at the place where `probe` is about to advance. A slot that may move
  -- fills the hole, and leaves the next one.
  unfoldable pub erase_from : ℕ → List IndexSlot → ℕ → ℕ → List IndexSlot
  erase_from zero index hole probe = index
  erase_from (suc fuel) index hole probe =
      let at = next_position probe in
      let ideal = bit_and (mix (key_at index at)) mask in
      let stays = erase_from fuel index hole at in
      let moves =
        erase_from fuel (clear_key (set index hole (get_or index at empty_slot)) at) at at in
      if key_at index at == empty_key
      then index
      else if must_stay hole at ideal
      then stays
      else moves

  unfoldable pub index_erase : List IndexSlot → ℕ → List IndexSlot
  index_erase index position =
      erase_from (length index) (clear_key index position) position position
