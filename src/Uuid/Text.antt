-- ===== src/Uuid/Text.antt =====
-- An identifier of mdv_uuid.c written as text and read again.
use Prim.Native.Nat.{bit_or}
use mathlib.Core.Path.{subst}
use medved_db.Base.{
  ℕ, zero, suc, ◌+◌, ◌*◌, ◌/◌, ◌%◌, ◌^◌, ◌<◌, ◌≡◌, refl, ap, sym, ◌∙◌, List, [], ◌∷◌, ◌++◌,
  append_assoc, Bool, true, false, Option, none, some, arith, ◌==◌, ◌&&◌, set, get_or, replicate,
  length, length-append, All, Bool-cases, inl, inr,
}
use medved_db.Uuid.{Uuid, hex, to_str_loop, to_str, digit_value, put_digit, from_str_loop, from_str}

-- A test of all numbers below a bound.
unfoldable all_below : ℕ → (ℕ → Bool) → Bool
all_below zero p = true
all_below (suc n) p = p n && all_below n p

all_below-test : (n : ℕ) (p : ℕ → Bool) → all_below n p ≡ true → (i : ℕ) → i < n → p i ≡ true
unfolding all_below
all_below-test zero p h i lt = absurd (omega (arith, lt))
all_below-test (suc n) p h i lt = elim (Bool-cases (p n)) [
  | inr no_good ↦ absurd (ground (arith, no_good, h))
  | inl good ↦ elim (Bool-cases (i == n)) [
    | inl last ↦ let e : i ≡ n = ground (arith, last) in rw e good
    | inr before ↦ all_below-test n p (ground (arith, good, h)) i (ground (arith, before, lt))
  ]
]

abbrev is_value : ℕ → Option ℕ → Bool
is_value d none = false
is_value d (some v) = v == d

is_value-some : (d : ℕ) (o : Option ℕ) → is_value d o ≡ true → o ≡ some d
is_value-some d none h = absurd (cc)
is_value-some d (some v) h = ap some (ground (arith, h))

hex-value : (d : ℕ) → d < 16 → digit_value (get_or hex d 0) ≡ some d
unfolding digit_value all_below
hex-value d lt =
    is_value-some d (digit_value (get_or hex d 0))
      (all_below-test 16 (λ i. is_value i (digit_value (get_or hex i 0))) refl d lt)

-- A byte from its two digits.
bit_or-digits : (h l : ℕ) → h < 16 → l < 16 → bit_or (bit_or 0 (h * 16)) (l * 1) ≡ h * 16 + l
unfolding all_below
bit_or-digits h l a b = ground (
  arith,
  all_below-test 16 (λ l. bit_or (bit_or 0 (h * 16)) (l * 1) == h * 16 + l)
      (all_below-test 16 (λ h. all_below 16 (λ l. bit_or (bit_or 0 (h * 16)) (l * 1) == h * 16 + l))
        refl h a)
      l b,
)

module _ {ℓ} {A : Type ℓ} where
  get_or-middle :
      (xs : List A) (y : A) (ys : List A) (d : A) → get_or (xs ++ y ∷ ys) (length xs) d ≡ y
  get_or-middle [] y ys d = refl
  get_or-middle (x ∷ xs) y ys d = get_or-middle xs y ys d

  set-middle :
      (xs : List A) (y v : A) (ys : List A) → set (xs ++ y ∷ ys) (length xs) v ≡ xs ++ v ∷ ys
  set-middle [] y v ys = refl
  set-middle (x ∷ xs) y v ys = ap (λ zs. x ∷ zs) (set-middle xs y v ys)

-- Two characters for each byte.
twice : ℕ → ℕ
twice zero = zero
twice (suc n) = suc (suc (twice n))

digit_read :
    (i c d : ℕ) (cs u : List ℕ)
    → digit_value c ≡ some d
    → from_str_loop i (c ∷ cs) u ≡ from_str_loop (i + 1) cs (put_digit u i d)
unfolding from_str_loop
digit_read i c d cs u h = rw (h, from_str_loop) refl

put_high :
    (xs zs : List ℕ) (d v : ℕ)
    → put_digit (xs ++ v ∷ zs) (length xs + length xs) d ≡ xs ++ bit_or v (d * 16) ∷ zs
put_high xs zs d v =
    let i : ℕ = length xs in
    let at : (i + i) / 2 ≡ i = omega arith in
    let even : (i + i) % 2 ≡ 0 = omega arith in
    rw (at, even, get_or-middle xs v zs 0, set-middle xs v (bit_or v (d * 16)) zs) refl

put_low :
    (xs zs : List ℕ) (d v : ℕ)
    → put_digit (xs ++ v ∷ zs) (length xs + length xs + 1) d ≡ xs ++ bit_or v (d * 1) ∷ zs
put_low xs zs d v =
    let i : ℕ = length xs in
    let next : (i + i + 1) / 2 ≡ i = omega arith in
    let odd : (i + i + 1) % 2 ≡ 1 = omega arith in
    rw (next, odd, get_or-middle xs v zs 0, set-middle xs v (bit_or v (d * 1)) zs) refl

-- One byte, after those that are written already.
write_byte :
    (xs zs cs : List ℕ) (b : ℕ)
    → b < 256
    → from_str_loop
        (length xs + length xs)
        (get_or hex (b / 2 ^ 4 % 16) 0 ∷ get_or hex (b / 2 ^ 0 % 16) 0 ∷ cs)
        (xs ++ 0 ∷ zs)
      ≡ from_str_loop (length xs + length xs + 1 + 1) cs (xs ++ b ∷ zs)
write_byte xs zs cs b small =
    let i : ℕ = length xs + length xs in
    let h : ℕ = b / 2 ^ 4 % 16 in
    let l : ℕ = b / 2 ^ 0 % 16 in
    let whole : bit_or (bit_or 0 (h * 16)) (l * 1) ≡ b =
      bit_or-digits h l (omega arith) (omega arith) ∙ omega (arith, small) in
    digit_read i (get_or hex h 0) h (get_or hex l 0 ∷ cs) (xs ++ 0 ∷ zs) (hex-value h (omega arith))
    ∙ ap (from_str_loop (i + 1) (get_or hex l 0 ∷ cs)) (put_high xs zs h 0)
    ∙ digit_read (i + 1) (get_or hex l 0) l cs (xs ++ bit_or 0 (h * 16) ∷ zs)
        (hex-value l (omega arith))
    ∙ ap (from_str_loop (i + 1 + 1) cs) (put_low xs zs l (bit_or 0 (h * 16)))
    ∙ ap (λ v. from_str_loop (i + 1 + 1) cs (xs ++ v ∷ zs)) whole

characters :
    (n : ℕ) (xs ys : List ℕ) (b : ℕ)
    → to_str_loop (suc (suc n)) (length xs + length xs) (xs ++ b ∷ ys)
      ≡ get_or hex (b / 2 ^ 4 % 16) 0
        ∷ get_or hex (b / 2 ^ 0 % 16) 0
        ∷ to_str_loop n (length xs + length xs + 1 + 1) (xs ++ b ∷ ys)
unfolding to_str_loop
characters n xs ys b =
    let i : ℕ = length xs in
    let at : (i + i) / 2 ≡ i = omega arith in
    let next : (i + i + 1) / 2 ≡ i = omega arith in
    let even : (i + i) % 2 ≡ 0 = omega arith in
    let odd : (i + i + 1) % 2 ≡ 1 = omega arith in
    rw (at, next, even, odd, get_or-middle xs b ys 0) refl

read_back :
    (xs ys : List ℕ)
    → All (λ b. b < 256) ys
    → from_str_loop
        (length xs + length xs)
        (to_str_loop (twice (length ys)) (length xs + length xs) (xs ++ ys))
        (xs ++ replicate (length ys) 0)
      ≡ some (xs ++ ys)
unfolding from_str_loop to_str_loop twice
read_back xs [] h = refl
read_back xs (b ∷ ys) (small, h) =
    let rest = read_back (xs ++ b ∷ []) ys h in
    let i : ℕ = length (xs ++ b ∷ []) + length (xs ++ b ∷ []) in
    let t : ℕ = twice (length ys) in
    let zs : List ℕ = replicate (length ys) 0 in
    let place : i ≡ length xs + length xs + 1 + 1 = omega (arith, length-append xs (b ∷ [])) in
    ap (λ cs. from_str_loop (length xs + length xs) cs (xs ++ 0 ∷ replicate (length ys) 0))
      (characters (twice (length ys)) xs ys b)
    ∙ write_byte xs (replicate (length ys) 0)
        (to_str_loop (twice (length ys)) (length xs + length xs + 1 + 1) (xs ++ b ∷ ys)) b small
    ∙ ap (λ n. from_str_loop n (to_str_loop t n (xs ++ b ∷ ys)) (xs ++ b ∷ zs)) (sym place)
    ∙ ap (λ us. from_str_loop i (to_str_loop t i us) (xs ++ b ∷ zs))
        (sym (append_assoc xs (b ∷ []) ys))
    ∙ ap (from_str_loop i (to_str_loop t i ((xs ++ b ∷ []) ++ ys)))
        (sym (append_assoc xs (b ∷ []) zs))
    ∙ rest
    ∙ ap some (append_assoc xs (b ∷ []) ys)

length-to_str_loop : (n i : ℕ) (uuid : Uuid) → length (to_str_loop n i uuid) ≡ n
unfolding to_str_loop
length-to_str_loop zero i uuid = refl
length-to_str_loop (suc n) i uuid = ap suc (length-to_str_loop n (i + 1) uuid)

-- An identifier that is written as text is read back from it.
pub from_str-to_str :
    (uuid : Uuid) → length uuid ≡ 16 → All (λ b. b < 256) uuid → from_str (to_str uuid) ≡ some uuid
unfolding from_str to_str twice
from_str-to_str uuid h small = rw (length-to_str_loop 32 0 uuid) (
    subst (λ n. from_str_loop 0 (to_str_loop (twice n) 0 uuid) (replicate n 0) ≡ some uuid) h
      (read_back [] uuid small))
