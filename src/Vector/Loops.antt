-- ===== src/Vector/Loops.antt =====
-- The loops of mdv_vector.c: the doubling of the capacity, the search and the shift of an erasure.
use medved_db.Base.{
  ℕ, zero, suc, ◌+◌, ◌*◌, ◌≤◌, ◌<◌, ◌≡◌, refl, ap, List, [], ◌∷◌, ◌++◌, none, some, ltb,
  if◌then◌else◌, length, take, drop, arith,
}
use medved_db.Vector.{grow, shift, shift_from}

-- As many turns as the needed capacity are enough.
pub grow-enough :
    (fuel needed capacity : ℕ)
    → 0 < capacity
    → needed ≤ capacity + fuel
    → (n : ℕ) × (grow fuel needed capacity ≡ some n) × (needed ≤ n) × (capacity ≤ n)
unfolding grow
grow-enough zero needed capacity pos h = (capacity, ground arith, omega arith, omega arith)
grow-enough (suc fuel) needed capacity pos h =
    let (n, e, large, more) = grow-enough fuel needed (capacity * 2) (omega arith) (omega arith) in
    (
      (if ltb capacity needed then n else capacity),
      ground (arith, e),
      ground (arith, large),
      ground (arith, more),
    )

-- A capacity that is enough stays.
pub grow-stays :
    (fuel needed capacity : ℕ) → needed ≤ capacity → grow fuel needed capacity ≡ some capacity
unfolding grow
grow-stays zero needed capacity h = ground arith
grow-stays (suc fuel) needed capacity h = ground arith

-- Twice zero is zero: no number of turns is enough.
pub grow-zero : (fuel needed : ℕ) → 0 < needed → grow fuel needed 0 ≡ none
unfolding grow
grow-zero zero needed h = ground arith
grow-zero (suc fuel) needed h = ground (arith, grow-zero fuel needed h)

module _ {A : Type 0} where
  pub take-shift : (n : ℕ) (xs : List A) → length xs ≡ n + 1 → take n (shift xs) ≡ drop 1 xs
  unfolding shift
  take-shift n [] h = absurd (omega arith)
  take-shift zero (x ∷ []) h = refl
  take-shift zero (x ∷ y ∷ xs) h = absurd (omega arith)
  take-shift (suc n) (x ∷ []) h = absurd (omega arith)
  take-shift (suc n) (x ∷ y ∷ xs) h = ap (λ ys. y ∷ ys) (take-shift n (y ∷ xs) (omega arith))

  pub take-shift_from :
      (i n : ℕ) (xs : List A)
      → length xs ≡ n + 1
      → i ≤ n
      → take n (shift_from i xs) ≡ take i xs ++ drop (suc i) xs
  unfolding shift_from
  take-shift_from zero n xs h le = take-shift n xs h
  take-shift_from (suc i) n [] h le = absurd (omega arith)
  take-shift_from (suc i) zero (x ∷ xs) h le = absurd (omega arith)
  take-shift_from (suc i) (suc n) (x ∷ xs) h le =
      ap (λ ys. x ∷ ys) (take-shift_from i n xs (omega arith) (omega arith))
