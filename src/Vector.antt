-- ===== src/Vector.antt =====
-- The growing array of mdv_platform/generic/mdv_vector.c. Items are whole, `size` is the number of
-- items; the allocator is an argument, `true` if it returns memory. The arithmetic of `size_t` is
-- not cut at 2^64, which no vector in memory reaches. Calls that grow the vector return `none` when
-- the loop that doubles the capacity does not end.
pub mod Loops
pub mod Ops
use medved_db.Base.{
  ℕ, zero, suc, ◌+◌, ◌-◌, ◌*◌, ◌≤◌, ◌<◌, List, [], ◌∷◌, ◌++◌, Bool, true, false, not, Option, none,
  some, ltb, leb, ◌==◌, if◌then◌else◌, length, take, get_elem?, replicate,
}

pub record Vector {ℓ} (A : Type ℓ) : Type ℓ where
  pub capacity : ℕ
  pub items : List A

-- The loop of `mdv_vector_resize_if_required`. `fuel` counts the turns that are left.
unfoldable pub grow : ℕ → ℕ → ℕ → Option ℕ
grow zero needed capacity = if ltb capacity needed then none else some capacity
grow (suc fuel) needed capacity =
    let rest = grow fuel needed (capacity * 2) in
    if ltb capacity needed then rest else some capacity

module _ {A : Type 0} where
  abbrev pub create : Bool → Bool → ℕ → Option (Vector A)
  create header store capacity =
      if header
      then (if store then some (record { capacity = capacity; items = [] }) else none)
      else none

  unfoldable pub clone : Bool → Bool → Vector A → ℕ → Option (Vector A)
  clone header store v capacity =
      let enough = if ltb capacity (length v.items) then length v.items else capacity in
      elim (create header store enough) [
        | none ↦ none
        | some new_vector ↦ some (record new_vector { items = v.items })
      ]

  abbrev pub size : Vector A → ℕ
  size v = length v.items

  -- The part of `mdv_vector_resize_if_required` after its loop.
  abbrev pub reallocate : Bool → Vector A → ℕ → Bool × Vector A
  reallocate allocated v new_capacity =
      if ltb v.capacity new_capacity
      then (if allocated then (true, record v { capacity = new_capacity }) else (false, v))
      else (true, v)

  -- A vector that is not empty grows in at most `size + append` turns of the loop.
  unfoldable pub resize_if_required : Bool → Vector A → ℕ → Option (Bool × Vector A)
  resize_if_required allocated v append =
      elim (grow (size v + append) (size v + append) v.capacity) [
        | none ↦ none
        | some new_capacity ↦ some (reallocate allocated v new_capacity)
      ]

  -- The items after the growth, if there was memory for it.
  abbrev pub extend : List A → Bool × Vector A → Bool × Vector A
  extend xs (false, v) = (false, v)
  extend xs (true, v) = (true, record v { items = v.items ++ xs })

  unfoldable pub push_back : Bool → Vector A → A → Option (Bool × Vector A)
  push_back allocated v item = elim (resize_if_required allocated v 1) [
    | none ↦ none
    | some r ↦ some (extend (item ∷ []) r)
  ]

  unfoldable pub append : Bool → Vector A → List A → Option (Bool × Vector A)
  append allocated v xs = elim (resize_if_required allocated v (length xs)) [
    | none ↦ none
    | some r ↦ some (extend xs r)
  ]

  -- `blank` is the item of zero bytes.
  unfoldable pub resize : Bool → A → Vector A → ℕ → Option (Bool × Vector A)
  resize allocated blank v n =
      if leb n (size v)
      then some (true, record v { items = take n v.items })
      else (if leb n v.capacity
          then some (true, record v { items = v.items ++ replicate (n - size v) blank })
          else elim (resize_if_required allocated v (n - size v)) [
            | none ↦ none
            | some r ↦ some (extend (replicate (n - size v) blank) r)
          ])

  abbrev pub empty : Vector A → Bool
  empty v = size v == 0

  abbrev pub clear : Vector A → Vector A
  clear v = record v { items = [] }

  abbrev pub at : Vector A → ℕ → Option A
  at v pos = if leb (size v) pos then none else get_elem? v.items pos

  -- The position of the first item that `equ` takes for `item`, from position `i` on.
  unfoldable pub find_from : (A → A → Bool) → A → ℕ → List A → Option ℕ
  find_from equ item i [] = none
  find_from equ item i (x ∷ xs) =
      let rest = find_from equ item (i + 1) xs in if equ x item then some i else rest

  unfoldable pub find : (A → A → Bool) → Vector A → A → Option ℕ
  find equ v item = find_from equ item 0 v.items

  -- The loop of `mdv_vector_erase`: every item from the erased one on takes the value of the next
  -- one, and the last keeps its own.
  unfoldable pub shift : List A → List A
  shift [] = []
  shift (x ∷ []) = x ∷ []
  shift (x ∷ y ∷ xs) = y ∷ shift (y ∷ xs)

  unfoldable pub shift_from : ℕ → List A → List A
  shift_from zero xs = shift xs
  shift_from (suc i) [] = []
  shift_from (suc i) (x ∷ xs) = x ∷ shift_from i xs

  -- `idx` is the position that the address of the item stands for.
  unfoldable pub erase : Vector A → ℕ → Vector A
  erase v idx =
      if ltb idx (size v)
      then record v { items = take (size v - 1) (shift_from idx v.items) }
      else v
