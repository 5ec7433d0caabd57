-- ===== src/Algorithm/Bounds.antt =====
-- `mdv_lower_bound` of mdv_algorithm.c for a key that is below every item of the array.
use Prim.Native.Nat.{Ordering}
use medved_db.Base.{
  ℕ, zero, suc, ◌+◌, ◌-◌, ◌*◌, ◌/◌, ◌^◌, ◌≤◌, ◌<◌, ◌≡◌, refl, ap, ◌∙◌, true, false, Bool-cases, inl,
  inr, arith, ◌==◌, ltb, if◌then◌else◌,
}
use medved_db.Algorithm.{before_array, position, lower_bound, lower_bound_loop}

-- The first round goes on with the items before the middle one.
halves :
    (fuel n : ℕ) (cmp : ℕ → Ordering)
    → 1 < n
    → ((i : ℕ) → i < n → cmp i ≡ Ordering.lt)
    → lower_bound_loop (suc fuel) cmp 0 n ≡ lower_bound_loop fuel cmp 0 ((n - 1) / 2)
unfolding lower_bound_loop
halves fuel n cmp more below =
    let middle : 0 + (n - 1 - 0) / 2 ≡ (n - 1) / 2 = omega arith in
    let at_middle : cmp (0 + (n - 1 - 0) / 2) ≡ Ordering.lt =
      below (0 + (n - 1 - 0) / 2) (omega (arith, more)) in
    let goes_on : ltb (0 + 1) n ≡ true = ground (arith, more) in
    rw (goes_on, at_middle) (ap (lower_bound_loop fuel cmp 0) middle)

-- The sizes whose halves lead to no item, and those whose halves lead to one.
none_left :
    (k fuel n : ℕ) (cmp : ℕ → Ordering)
    → n < fuel
    → 3 * 2 ^ k ≤ n + 1
    → n + 1 < 4 * 2 ^ k
    → ((i : ℕ) → i < n → cmp i ≡ Ordering.lt)
    → lower_bound_loop fuel cmp 0 n ≡ before_array
none_left k zero n cmp enough least most below = absurd (omega (arith, enough))
none_left zero (suc zero) n cmp enough least most below = absurd (omega (arith, enough, least))
none_left zero (suc (suc fuel)) n cmp enough least most below =
    let is_none : (n - 1) / 2 ≡ 0 = omega (arith, least, most) in
    halves (suc fuel) n cmp (omega (arith, least)) below
    ∙ rw is_none (unfold lower_bound_loop in refl)
none_left (suc k) (suc fuel) n cmp enough least most below =
    let twice : 2 ^ suc k ≡ 2 * 2 ^ k = omega arith in
    let some_items : 0 < 2 ^ k = omega arith in
    let lower : 3 * 2 ^ k ≤ (n - 1) / 2 + 1 = omega (arith, least, twice, some_items) in
    let upper : (n - 1) / 2 + 1 < 4 * 2 ^ k = omega (arith, most, twice, some_items) in
    halves fuel n cmp (omega (arith, least, twice, some_items)) below
    ∙ none_left k fuel ((n - 1) / 2) cmp (omega (arith, enough, least, twice, some_items)) lower
        upper (λ i lt. below i (omega (arith, lt)))

one_left :
    (k fuel n : ℕ) (cmp : ℕ → Ordering)
    → n < fuel
    → 2 * 2 ^ k ≤ n + 1
    → n + 1 < 3 * 2 ^ k
    → ((i : ℕ) → i < n → cmp i ≡ Ordering.lt)
    → lower_bound_loop fuel cmp 0 n ≡ position 0
one_left k zero n cmp enough least most below = absurd (omega (arith, enough))
one_left zero (suc fuel) n cmp enough least most below =
    let is_one : n ≡ 1 = omega (arith, least, most) in
    let at_first : cmp 0 ≡ Ordering.lt = below 0 (omega (arith, least)) in
    rw is_one (unfold lower_bound_loop in rw at_first refl)
one_left (suc k) (suc fuel) n cmp enough least most below =
    let twice : 2 ^ suc k ≡ 2 * 2 ^ k = omega arith in
    let some_items : 0 < 2 ^ k = omega arith in
    let lower : 2 * 2 ^ k ≤ (n - 1) / 2 + 1 = omega (arith, least, twice, some_items) in
    let upper : (n - 1) / 2 + 1 < 3 * 2 ^ k = omega (arith, most, twice, some_items) in
    halves fuel n cmp (omega (arith, least, twice, some_items)) below
    ∙ one_left k fuel ((n - 1) / 2) cmp (omega (arith, enough, least, twice, some_items)) lower
        upper (λ i lt. below i (omega (arith, lt)))

power_pos : (k : ℕ) → 0 < 2 ^ k
power_pos zero = omega arith
power_pos (suc k) =
    let twice : 2 ^ suc k ≡ 2 * 2 ^ k = omega arith in omega (arith, twice, power_pos k)

-- For a key that is below all items of an array, of whatever size above 0, the search ends. With
-- 2 ^ (k + 1) the greatest power of two that is at most the size and one more, it answers the first
-- item where the size and one more is below 3 * 2 ^ k, and else it reads an item before the array.
pub lower_bound-below :
    (cmp : ℕ → Ordering) (nmemb k : ℕ)
    → 2 * 2 ^ k ≤ nmemb + 1
    → nmemb + 1 < 4 * 2 ^ k
    → ((i : ℕ) → i < nmemb → cmp i ≡ Ordering.lt)
    → lower_bound cmp nmemb ≡ (if ltb (nmemb + 1) (3 * 2 ^ k) then position 0 else before_array)
unfolding lower_bound
lower_bound-below cmp nmemb k least most below =
    let full : (nmemb == 0) ≡ false = ground (arith, least, power_pos k) in
    elim (Bool-cases (ltb (nmemb + 1) (3 * 2 ^ k))) [
      | inl few ↦
          rw (full, few)
            (one_left k (nmemb + 1) nmemb cmp (omega arith) least (ground (arith, few)) below)
      | inr many ↦
          rw (full, many)
            (none_left k (nmemb + 1) nmemb cmp (omega arith) (ground (arith, many)) most below)
    ]
