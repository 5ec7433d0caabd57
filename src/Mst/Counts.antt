-- ===== src/Mst/Counts.antt =====
-- Occurrences in a list and sums over indices, for the subsets of mdv_mst.c.
use medved_db.Base.{
  ℕ, zero, suc, ◌+◌, ◌≤◌, ◌<◌, ◌≡◌, refl, List, [], ◌∷◌, ◌++◌, Bool, true, false, arith, ltb, ◌==◌,
  if◌then◌else◌, length, Bool-cases, inl, inr,
}

abbrev pub one_if : Bool → ℕ
one_if true = 1
one_if false = 0

unfoldable pub occ : ℕ → List ℕ → ℕ
occ y [] = 0
occ y (x ∷ xs) = one_if (y == x) + occ y xs

pub occ-append : (y : ℕ) (xs ys : List ℕ) → occ y (xs ++ ys) ≡ occ y xs + occ y ys
unfolding occ
occ-append y [] ys = omega arith
occ-append y (x ∷ xs) ys = omega (arith, occ-append y xs ys)

without : ℕ → List ℕ → List ℕ
without n [] = []
without n (x ∷ xs) = let rest = without n xs in if n == x then rest else x ∷ rest

length-without : (n : ℕ) (xs : List ℕ) → length (without n xs) + occ n xs ≡ length xs
unfolding without occ
length-without n [] = refl
length-without n (x ∷ xs) = ground (arith, length-without n xs)

occ-without : (n y : ℕ) (xs : List ℕ) → occ y (without n xs) ≡ (if y == n then 0 else occ y xs)
unfolding without occ
occ-without n y [] = ground arith
occ-without n y (x ∷ xs) = ground (arith, occ-without n y xs)

-- So many different numbers below a bound are at most the bound.
pub length-occ : (n : ℕ) (xs : List ℕ) → ((y : ℕ) → occ y xs ≤ one_if (ltb y n)) → length xs ≤ n
unfolding occ
length-occ zero [] h = omega arith
length-occ zero (x ∷ xs) h = absurd (ground (arith, h x))
length-occ (suc n) xs h =
    let fewer : (y : ℕ) → occ y (without n xs) ≤ one_if (ltb y n) =
      λ y. ground (arith, occ-without n y xs, h y) in
    let once : occ n xs ≤ 1 = ground (arith, h n) in
    omega (arith, length-occ n (without n xs) fewer, length-without n xs, once)

-- The sum over the indices below a bound.
unfoldable pub total : (ℕ → ℕ) → ℕ → ℕ
total f zero = 0
total f (suc n) = total f n + f n

-- Sums of functions that differ at one index.
total-same : (f g : ℕ → ℕ) (n : ℕ) → ((x : ℕ) → x < n → g x ≡ f x) → total g n ≡ total f n
unfolding total
total-same f g zero h = refl
total-same f g (suc n) h =
    omega (arith, total-same f g n (λ x lt. h x (omega (arith, lt))), h n (omega arith))

pub total-put :
    (f g : ℕ → ℕ) (r n : ℕ)
    → r < n
    → ((x : ℕ) → x < n → (x == r) ≡ false → g x ≡ f x)
    → total g n + f r ≡ total f n + g r
unfolding total
total-put f g r zero lt h = absurd (omega (arith, lt))
total-put f g r (suc n) lt h = elim (Bool-cases (r == n)) [
  | inl last ↦
      let e : r ≡ n = ground (arith, last) in
      let same =
        total-same f g n (λ x below. h x (omega (arith, below)) (ground (arith, e, below))) in
      rw e (omega (arith, same))
  | inr before ↦
      let rest =
        total-put f g r n (ground (arith, lt, before)) (λ x below. h x (omega (arith, below))) in
      omega (arith, rest, h n (omega arith) (ground (arith, before)))
]

pub total-le : (f : ℕ → ℕ) (r n : ℕ) → r < n → f r ≤ total f n
unfolding total
total-le f r zero lt = absurd (omega (arith, lt))
total-le f r (suc n) lt = elim (Bool-cases (r == n)) [
  | inl last ↦ let e : r ≡ n = ground (arith, last) in rw e (omega arith)
  | inr before ↦ omega (arith, total-le f r n (ground (arith, lt, before)))
]

-- Two different indices count for two.
pub total-two : (f : ℕ → ℕ) (a b n : ℕ) → a < b → b < n → f a + f b ≤ total f n
unfolding total
total-two f a b zero h lt = absurd (omega (arith, lt))
total-two f a b (suc n) h lt = elim (Bool-cases (b == n)) [
  | inl last ↦
      let e : b ≡ n = ground (arith, last) in
      let less = total-le f a n (omega (arith, e, h)) in rw e (omega (arith, less))
  | inr before ↦ omega (arith, total-two f a b n h (ground (arith, lt, before)))
]
