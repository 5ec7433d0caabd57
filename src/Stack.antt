-- ===== src/Stack.antt =====
-- The fixed-capacity stack of mdv_platform/generic/mdv_stack.h. `items` is `data[0 .. size)`, the
-- bottom first, so `size` is its length. A push that finds no room returns a null pointer
-- (`false`) and leaves the stack as it was; a pop that finds too little returns a null pointer.
pub mod Laws
use medved_db.Base.{
  ℕ, ◌+◌, ◌-◌, List, [], ◌∷◌, ◌++◌, Bool, true, false, Option, none, some, leb, ltb, ◌==◌,
  if◌then◌else◌, length, take, drop,
}

pub record Stack {ℓ} (A : Type ℓ) : Type ℓ where
  pub capacity : ℕ
  pub items : List A

module _ {ℓ} {A : Type ℓ} where
  unfoldable pub clear : ℕ → Stack A
  clear capacity = record { capacity = capacity; items = [] }

  unfoldable pub size : Stack A → ℕ
  size st = length st.items

  unfoldable pub push_multiple : Stack A → List A → Bool × Stack A
  unfolding size
  push_multiple st new =
      if leb (size st + length new) st.capacity
      then (true, record st { items = st.items ++ new })
      else (false, st)

  unfoldable pub push_one : Stack A → A → Bool × Stack A
  unfolding size
  push_one st new =
      if ltb (size st) st.capacity
      then (true, record st { items = st.items ++ new ∷ [] })
      else (false, st)

  -- The pointer that the macro returns, as the items that it points to.
  unfoldable pub pop_multiple : Stack A → ℕ → Option (List A) × Stack A
  unfolding size
  pop_multiple st count =
      if leb count (size st)
      then (
        some (drop (size st - count) st.items),
        record st { items = take (size st - count) st.items },
      )
      else (none, st)

  unfoldable pub pop_one : Stack A → Option (List A) × Stack A
  unfolding size
  pop_one st =
      if ltb 0 (size st)
      then (some (drop (size st - 1) st.items), record st { items = take (size st - 1) st.items })
      else (none, st)

  unfoldable pub is_empty : Stack A → Bool
  unfolding size
  is_empty st = size st == 0

  unfoldable pub free_space : Stack A → ℕ
  unfolding size
  free_space st = st.capacity - size st
