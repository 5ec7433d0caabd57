-- ===== src/Queue.antt =====
-- The bounded queue of mdv_platform/generic/mdv_queue.c: a ring of `capacity + 1` slots. An item is
-- a value of `A`, a transfer of `size` bytes comes as its items, and a slot is addressed by its
-- index. Each call is one step; the memory orders of the atomic indices are not modelled. Indices
-- are far below 2 ^ 64, so their sums do not wrap.
pub mod Ring
pub mod Push
pub mod Pop
use medved_db.Base.{
  ℕ, zero, suc, ◌+◌, ◌-◌, ◌*◌, ◌/◌, ◌%◌, List, [], ◌∷◌, ◌++◌, Bool, true, false, not, Option, none,
  some, leb, ltb, ◌==◌, if◌then◌else◌, get_elem?, set, take, drop,
}

pub record Queue {ℓ} (A : Type ℓ) : Type ℓ where
  pub capacity : ℕ
  pub item_size : ℕ
  pub head : ℕ
  pub tail : ℕ
  pub slots : List A

module _ {ℓ} {A : Type ℓ} where
  -- `memcpy(queue->data + i, items)`: the slots from `i` on are overwritten.
  unfoldable pub write : ℕ → List A → List A → List A
  write i [] slots = slots
  write i (x ∷ xs) slots = write (i + 1) xs (set slots i x)

  -- `memcpy(data, queue->data + i)` of `n` items.
  unfoldable pub read : ℕ → ℕ → List A → List A
  read i n slots = take n (drop i slots)

  unfoldable pub size : Queue A → ℕ
  size q = if leb q.head q.tail then q.tail - q.head else q.capacity + 1 + q.tail - q.head

  unfoldable pub free_space : Queue A → ℕ
  unfolding size
  free_space q = q.capacity - size q

  unfoldable pub is_empty : Queue A → Bool
  is_empty q = q.head == q.tail

  unfoldable pub push_one : Queue A → A → ℕ → Bool × Queue A
  unfolding write
  push_one q x bytes =
      let capacity = q.capacity + 1 in
      let data_size = if leb q.head q.tail then q.tail - q.head else capacity + q.tail - q.head in
      let free = q.capacity - data_size in
      if not (bytes == q.item_size) then (false, q) else if free == 0 then (false, q) else (
        true,
        record q { slots = write q.tail (x ∷ []) q.slots; tail = (q.tail + 1) % capacity },
      )

  -- The items that a transfer of so many bytes holds, and whether these are whole items.
  abbrev pub items_count : Queue A → ℕ → ℕ
  items_count q bytes = bytes / q.item_size

  unfoldable pub push_multiple : Queue A → List A → ℕ → Bool × Queue A
  push_multiple q items bytes =
      let n = items_count q bytes in
      let capacity = q.capacity + 1 in
      let tail' = (q.tail + n) % capacity in
      let room = capacity - q.tail in
      if not (bytes == n * q.item_size)
      then (false, q)
      else if leb q.head q.tail
      then (if ltb (q.capacity - (q.tail - q.head)) n
          then (false, q)
          else if leb n room
          then (true, record q { slots = write q.tail items q.slots; tail = tail' })
          else (
            true,
            record q {
              slots = write 0 (drop room items) (write q.tail (take room items) q.slots);
              tail = tail';
            },
          ))
      else (if ltb (q.capacity - (capacity + q.tail - q.head)) n
          then (false, q)
          else (true, record q { slots = write q.tail items q.slots; tail = tail' }))

  -- The item that is copied out, if the call succeeds.
  unfoldable pub pop_one : Queue A → ℕ → Option (List A) × Queue A
  unfolding read
  pop_one q bytes =
      let capacity = q.capacity + 1 in
      let data_size = if leb q.head q.tail then q.tail - q.head else capacity + q.tail - q.head in
      if not (bytes == q.item_size)
      then (none, q)
      else if data_size == 0
      then (none, q)
      else (some (read q.head 1 q.slots), record q { head = (q.head + 1) % capacity })

  unfoldable pub pop_multiple : Queue A → ℕ → Option (List A) × Queue A
  pop_multiple q bytes =
      let n = items_count q bytes in
      let capacity = q.capacity + 1 in
      let head' = (q.head + n) % capacity in
      let block = capacity - q.head in
      if not (bytes == n * q.item_size)
      then (none, q)
      else if leb q.head q.tail
      then (if ltb (q.tail - q.head) n
          then (none, q)
          else (some (read q.head n q.slots), record q { head = head' }))
      else (if ltb (capacity + q.tail - q.head) n
          then (none, q)
          else if leb n block
          then (some (read q.head n q.slots), record q { head = head' })
          else (
            some (read q.head block q.slots ++ read 0 (n - block) q.slots),
            record q { head = head' },
          ))
