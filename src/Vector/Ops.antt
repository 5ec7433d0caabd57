-- ===== src/Vector/Ops.antt =====
-- The operations of mdv_vector.c against lists.
use medved_db.Base.{
  ℕ, zero, suc, ◌+◌, ◌-◌, ◌≤◌, ◌<◌, ◌≡◌, refl, ap, List, [], ◌∷◌, ◌++◌, Bool, true, none, some, leb,
  if◌then◌else◌, length, take, drop, replicate, arith, append-nil, length-append, length-take,
  length-replicate, Bool-cases, inl, inr,
}
use medved_db.Vector.{Vector, size, resize_if_required, push_back, append, resize, erase, grow}
use medved_db.Vector.Loops.{grow-enough, grow-zero, take-shift_from}

module _ {A : Type 0} where
  take-all : (n : ℕ) (xs : List A) → length xs ≤ n → take n xs ≡ xs
  take-all zero [] h = refl
  take-all zero (x ∷ xs) h = absurd (omega arith)
  take-all (suc n) [] h = refl
  take-all (suc n) (x ∷ xs) h = ap (λ ys. x ∷ ys) (take-all n xs (omega arith))

  -- With memory, a vector of at least one place makes room for any number of items.
  resize_if_required-grows :
      (v : Vector A) (n : ℕ)
      → 0 < v.capacity
      → (c : ℕ) × (resize_if_required true v n ≡ some (true, record v { capacity = c }))
        × (length v.items + n ≤ c)
        × (v.capacity ≤ c)
  unfolding resize_if_required
  resize_if_required-grows v n pos =
      let needed : ℕ = length v.items + n in
      let (c, e, large, more) = grow-enough needed needed v.capacity pos (omega arith) in
      (c, ground (arith, e), large, more)

  -- With memory, a call on a vector of at least one place appends all the items, and the vector has
  -- room for what it holds.
  pub append-appends :
      (v : Vector A) (xs : List A)
      → 0 < v.capacity
      → (c : ℕ) × (append true v xs ≡ some (true, record { capacity = c; items = v.items ++ xs }))
        × (length (v.items ++ xs) ≤ c)
        × (v.capacity ≤ c)
  unfolding append
  append-appends v xs pos =
      let (c, e, large, more) = resize_if_required-grows v (length xs) pos in
      (c, ground (arith, e), omega (arith, length-append v.items xs), more)

  -- A vector that was made with capacity 0 can take no item: the loop that doubles the capacity does
  -- not end, whatever the number of turns.
  pub grow-never_ends :
      (v : Vector A) (fuel needed : ℕ)
      → v.capacity ≡ 0
      → 0 < needed
      → (grow fuel needed v.capacity ≡ none)
        × ((allocated : Bool) (x : A) → push_back allocated v x ≡ none)
  unfolding push_back resize_if_required
  grow-never_ends v fuel needed e pos = (
    rw e (grow-zero fuel needed pos),
    λ allocated x. ground (arith, grow-zero (size v + 1) (size v + 1), e),
  )

  -- A resize to fewer items keeps the first ones, and a resize to more items keeps them all and adds
  -- blank ones; with memory it always succeeds.
  pub resize-resizes :
      (blank : A) (v : Vector A) (n : ℕ)
      → 0 < v.capacity
      → length v.items ≤ v.capacity
      → (c : ℕ) × (resize true blank v n
          ≡ some (
            true,
            record { capacity = c; items = take n v.items ++ replicate (n - length v.items) blank },
          ))
        × (length (take n v.items ++ replicate (n - length v.items) blank) ≡ n)
        × (n ≤ c)
        × (v.capacity ≤ c)
  unfolding resize
  resize-resizes blank v n pos fits = elim (Bool-cases (leb n (length v.items))) [
    | inl le ↦
        let more : n - length v.items ≡ 0 = ground arith in
        (
          v.capacity,
          ground (arith, more, append-nil (take n v.items)),
          ground (arith, more, append-nil (take n v.items), length-take n v.items),
          ground arith,
          omega arith,
        )
    | inr gt ↦
        let all : take n v.items ≡ v.items = take-all n v.items (ground arith) in
        let extra : ℕ = n - length v.items in
        let fill : List A = replicate extra blank in
        let (c, e, large, more) = resize_if_required-grows v extra pos in
        let long : length (v.items ++ fill) ≡ n =
          ground (arith, length-append v.items fill, length-replicate extra blank) in
        (
          (if leb n v.capacity then v.capacity else c),
          ground (arith, all, e),
          rw all long,
          ground (arith, large),
          ground (arith, more),
        )
  ]

  -- An erasure of a position of the vector takes that item out and keeps the order of the others,
  -- and an erasure of another position changes nothing.
  pub erase-takes_out :
      (v : Vector A) (i : ℕ)
      → (i < length v.items
          → erase v i ≡ record v { items = take i v.items ++ drop (suc i) v.items })
        × (length v.items ≤ i → erase v i ≡ v)
  unfolding erase
  erase-takes_out v i =
      (λ h. ground (arith, take-shift_from i (length v.items - 1) v.items), λ h. ground arith)
