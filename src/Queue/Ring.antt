-- ===== src/Queue/Ring.antt =====
-- Which items the ring of mdv_queue.c holds, and in which order.
use medved_db.Base.{
  ℕ, zero, suc, ◌+◌, ◌-◌, ◌%◌, ◌≤◌, ◌<◌, ◌≡◌, refl, ◌∙◌, List, [], ◌∷◌, ◌++◌, none, some, arith,
  leb, ltb, ◌==◌, if◌then◌else◌, get_elem?, set, take, drop, length, length-set, Bool-cases, inl,
  inr,
}
use native.Mathlib.Nat.{mod-eq_of_lt, mod-eq-sub-mod}
use mathlib.Core.Path.{ap₂}
use mathlib.Core.Option.{some-injective}
use medved_db.Queue.{Queue, write, size}

-- The slot `i` places after `h` in a ring of `n` slots.
abbrev pub slot : ℕ → ℕ → ℕ → ℕ
slot n h i = if ltb (h + i) n then h + i else h + i - n

pub mod-slot : (n h i : ℕ) → h < n → i ≤ n → (h + i) % n ≡ slot n h i
mod-slot n h i p q = elim (Bool-cases (ltb (h + i) n)) [
  | inl e ↦ rw e (mod-eq_of_lt (ground arith))
  | inr e ↦ rw e (mod-eq-sub-mod (ground arith) ∙ mod-eq_of_lt (ground arith))
]

module _ {A : Type 0} where
  -- The ring holds `xs`, the next item to pop first.
  pub record Holds (xs : List A) (q : Queue A) : Type 0 where
    pub width : length q.slots ≡ q.capacity + 1
    pub head_lt : q.head ≤ q.capacity
    pub fits : length xs ≤ q.capacity
    pub tail_at : q.tail ≡ slot (q.capacity + 1) q.head (length xs)
    pub reads :
        (i : ℕ)
        → i < length xs
        → get_elem? q.slots (slot (q.capacity + 1) q.head i) ≡ get_elem? xs i

  pub size-Holds : (xs : List A) (q : Queue A) → Holds xs q → size q ≡ length xs
  unfolding size
  size-Holds xs q h = ground arith

  pub get_elem?-set :
      (xs : List A) (i j : ℕ) (x : A)
      → i < length xs
      → get_elem? (set xs i x) j ≡ (if j == i then some x else get_elem? xs j)
  get_elem?-set [] i j x h = absurd (omega arith)
  get_elem?-set (y ∷ xs) zero zero x h = refl
  get_elem?-set (y ∷ xs) zero (suc j) x h = ground arith
  get_elem?-set (y ∷ xs) (suc i) zero x h = ground arith
  get_elem?-set (y ∷ xs) (suc i) (suc j) x h = ground (arith, get_elem?-set xs i j x)

  pub length-write : (i : ℕ) (xs slots : List A) → length (write i xs slots) ≡ length slots
  unfolding write
  length-write i [] slots = refl
  length-write i (x ∷ xs) slots = length-write (i + 1) xs (set slots i x) ∙ length-set slots i x

  get_elem?-cons :
      (x : A) (xs : List A) (k : ℕ)
      → get_elem? (x ∷ xs) k ≡ (if k == 0 then some x else get_elem? xs (k - 1))
  get_elem?-cons x xs zero = refl
  get_elem?-cons x xs (suc k) = ground arith

  -- A write shows in its own slots and nowhere else.
  pub get_elem?-write :
      (i j : ℕ) (xs slots : List A)
      → i + length xs ≤ length slots
      → get_elem? (write i xs slots) j ≡ (
          if leb i j
          then (if ltb j (i + length xs) then get_elem? xs (j - i) else get_elem? slots j)
          else get_elem? slots j)
  unfolding write
  get_elem?-write i j [] slots h = ground arith
  get_elem?-write i j (x ∷ xs) slots h =
      get_elem?-write (i + 1) j xs (set slots i x) (omega (arith, length-set slots i x))
      ∙ ground (arith, get_elem?-set slots i j x, get_elem?-cons x xs (j - i))

  pub get_elem?-append :
      (xs ys : List A) (i : ℕ)
      → get_elem? (xs ++ ys) i
        ≡ (if ltb i (length xs) then get_elem? xs i else get_elem? ys (i - length xs))
  get_elem?-append [] ys i = ground arith
  get_elem?-append (x ∷ xs) ys zero = ground arith
  get_elem?-append (x ∷ xs) ys (suc i) = ground (arith, get_elem?-append xs ys i)

  pub get_elem?-take :
      (n : ℕ) (xs : List A) (i : ℕ)
      → get_elem? (take n xs) i ≡ (if ltb i n then get_elem? xs i else none)
  get_elem?-take zero xs i = ground arith
  get_elem?-take (suc n) [] i = ground arith
  get_elem?-take (suc n) (x ∷ xs) zero = ground arith
  get_elem?-take (suc n) (x ∷ xs) (suc i) = ground (arith, get_elem?-take n xs i)

  pub get_elem?-drop :
      (n : ℕ) (xs : List A) (i : ℕ) → get_elem? (drop n xs) i ≡ get_elem? xs (n + i)
  get_elem?-drop zero xs i = ground arith
  get_elem?-drop (suc n) [] i = refl
  get_elem?-drop (suc n) (x ∷ xs) i = ground (arith, get_elem?-drop n xs i)

  -- Lists are equal if their elements are.
  pub list_ext : (xs ys : List A) → ((i : ℕ) → get_elem? xs i ≡ get_elem? ys i) → xs ≡ ys
  list_ext [] [] h = refl
  list_ext [] (y ∷ ys) h = (let e = h 0 in cc)
  list_ext (x ∷ xs) [] h = (let e = h 0 in cc)
  list_ext (x ∷ xs) (y ∷ ys) h =
      ap₂ ◌∷◌ (some-injective _ _ (h 0)) (list_ext xs ys (λ i. h (suc i)))
