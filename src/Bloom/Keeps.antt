-- ===== src/Bloom/Keeps.antt =====
-- What an insertion into the filter of mdv_bloom.c keeps.
use medved_db.Base.{
  ℕ, zero, suc, ◌+◌, ◌*◌, ◌/◌, ◌%◌, ◌^◌, ◌≤◌, ◌<◌, ◌≡◌, refl, ◌∙◌, List, [], ◌∷◌, Bool, true, false,
  arith, ◌==◌, ◌||◌, set, get_or, length, length-set, Bool-cases, inl, inr,
}
use native.Mathlib.Nat.{mod-lt}
use medved_db.Lmdb.Engine.{Bytes}
use medved_db.Bloom.{hash_seed, or_bit, is_clear, mark, bit_of, insert_bits, contains_bits}

-- A byte with the bits from the offset on not clear stays so when it grows.
div-grows : (a b o : ℕ) → o < 8 → a ≤ b → (a / 2 ^ o == 0) ≡ false → (b / 2 ^ o == 0) ≡ false
div-grows a b zero h le e = ground (arith, le, e)
div-grows a b (suc zero) h le e = ground (arith, le, e)
div-grows a b (suc (suc zero)) h le e = ground (arith, le, e)
div-grows a b (suc (suc (suc zero))) h le e = ground (arith, le, e)
div-grows a b (suc (suc (suc (suc zero)))) h le e = ground (arith, le, e)
div-grows a b (suc (suc (suc (suc (suc zero))))) h le e = ground (arith, le, e)
div-grows a b (suc (suc (suc (suc (suc (suc zero)))))) h le e = ground (arith, le, e)
div-grows a b (suc (suc (suc (suc (suc (suc (suc zero))))))) h le e = ground (arith, le, e)
div-grows a b (suc (suc (suc (suc (suc (suc (suc (suc o)))))))) h le e = absurd (omega (arith, h))

or_bit-le : (b o : ℕ) → b ≤ or_bit b o
unfolding or_bit
or_bit-le b o = ground arith

or_bit-hit : (b o : ℕ) → o < 8 → (or_bit b o / 2 ^ o == 0) ≡ false
unfolding or_bit
or_bit-hit b zero h = ground arith
or_bit-hit b (suc zero) h = ground arith
or_bit-hit b (suc (suc zero)) h = ground arith
or_bit-hit b (suc (suc (suc zero))) h = ground arith
or_bit-hit b (suc (suc (suc (suc zero)))) h = ground arith
or_bit-hit b (suc (suc (suc (suc (suc zero))))) h = ground arith
or_bit-hit b (suc (suc (suc (suc (suc (suc zero)))))) h = ground arith
or_bit-hit b (suc (suc (suc (suc (suc (suc (suc zero))))))) h = ground arith
or_bit-hit b (suc (suc (suc (suc (suc (suc (suc (suc o)))))))) h = absurd (omega (arith, h))

get_or-set_le :
    (bf : List ℕ) (i j v : ℕ) → get_or bf i 0 ≤ v → get_or bf j 0 ≤ get_or (set bf i v) j 0
get_or-set_le [] i j v h = omega arith
get_or-set_le (b ∷ bf) zero zero v h = h
get_or-set_le (b ∷ bf) zero (suc j) v h = omega arith
get_or-set_le (b ∷ bf) (suc i) zero v h = omega arith
get_or-set_le (b ∷ bf) (suc i) (suc j) v h = get_or-set_le bf i j v h

get_or-set_self : (bf : List ℕ) (i v : ℕ) → i < length bf → get_or (set bf i v) i 0 ≡ v
get_or-set_self [] i v h = absurd (omega (arith, h))
get_or-set_self (b ∷ bf) zero v h = refl
get_or-set_self (b ∷ bf) (suc i) v h = get_or-set_self bf i v (omega (arith, h))

-- No bit is taken back.
abbrev pub Grows : List ℕ → List ℕ → Type 0
Grows bf bf₁ = (j : ℕ) → get_or bf j 0 ≤ get_or bf₁ j 0

small_rest : (n : ℕ) → n % 8 < 8
small_rest n = omega arith

is_clear-Grows :
    (bf bf₁ : List ℕ) (bit : ℕ) → Grows bf bf₁ → is_clear bf bit ≡ false → is_clear bf₁ bit ≡ false
unfolding is_clear
is_clear-Grows bf bf₁ bit g h =
    div-grows (get_or bf (bit / 8) 0) (get_or bf₁ (bit / 8) 0) (bit % 8) (small_rest bit)
      (g (bit / 8)) h

mark-Grows : (bf : List ℕ) (bit : ℕ) → Grows bf (mark bf bit)
unfolding mark
mark-Grows bf bit j =
    get_or-set_le bf (bit / 8) j (or_bit (get_or bf (bit / 8) 0) (bit % 8))
      (or_bit-le (get_or bf (bit / 8) 0) (bit % 8))

mark-is_clear : (bf : List ℕ) (bit : ℕ) → bit < 8 * length bf → is_clear (mark bf bit) bit ≡ false
unfolding mark is_clear
mark-is_clear bf bit h =
    let byte = get_or bf (bit / 8) 0 in
    rw (get_or-set_self bf (bit / 8) (or_bit byte (bit % 8)) (omega (arith, h)))
      (or_bit-hit byte (bit % 8) (small_rest bit))

length-mark : (bf : List ℕ) (bit : ℕ) → length (mark bf bit) ≡ length bf
unfolding mark
length-mark bf bit = length-set bf (bit / 8) (or_bit (get_or bf (bit / 8) 0) (bit % 8))

module _ (hash : Bytes → ℕ → ℕ) where
  bit_of-lt : (bits : ℕ) (item : Bytes) (i : ℕ) → 0 < bits → bit_of hash bits item i < bits
  unfolding bit_of
  bit_of-lt bits item i h = mod-lt (hash item (i * hash_seed % 2 ^ 32)) h

  pub contains_bits-Grows :
      (n i bits : ℕ) (item : Bytes) (bf bf₁ : List ℕ)
      → Grows bf bf₁
      → contains_bits hash n i bits item bf ≡ true
      → contains_bits hash n i bits item bf₁ ≡ true
  unfolding contains_bits
  contains_bits-Grows zero i bits item bf bf₁ g h = refl
  contains_bits-Grows (suc n) i bits item bf bf₁ g h =
      elim (Bool-cases (is_clear bf (bit_of hash bits item i))) [
        | inl missing ↦ absurd (ground (arith, missing, h))
        | inr hit ↦ ground (
          arith,
          hit,
          h,
          is_clear-Grows bf bf₁ (bit_of hash bits item i) g hit,
          contains_bits-Grows n (i + 1) bits item bf bf₁ g,
        )
      ]

  pub insert_bits-Grows :
      (n i bits : ℕ) (item : Bytes) (c : Bool) (bf : List ℕ)
      → Grows bf (insert_bits hash n i bits item (c, bf)).1
        × (length (insert_bits hash n i bits item (c, bf)).1 ≡ length bf)
  unfolding insert_bits
  insert_bits-Grows zero i bits item c bf = (λ j. omega arith, refl)
  insert_bits-Grows (suc n) i bits item c bf =
      let bit = bit_of hash bits item i in
      let (g, same) = insert_bits-Grows n (i + 1) bits item (c || is_clear bf bit) (mark bf bit) in
      (λ j. omega (arith, g j, mark-Grows bf bit j), same ∙ length-mark bf bit)

  pub insert_bits-contains_bits :
      (n i bits : ℕ) (item : Bytes) (c : Bool) (bf : List ℕ)
      → 0 < bits
      → bits ≤ 8 * length bf
      → contains_bits hash n i bits item (insert_bits hash n i bits item (c, bf)).1 ≡ true
  unfolding insert_bits contains_bits
  insert_bits-contains_bits zero i bits item c bf h room = refl
  insert_bits-contains_bits (suc n) i bits item c bf h room =
      let bit = bit_of hash bits item i in
      let bf₁ = mark bf bit in
      let same = length-mark bf bit in
      let (g, long) = insert_bits-Grows n (i + 1) bits item (c || is_clear bf bit) bf₁ in
      let hit =
        is_clear-Grows bf₁ (insert_bits hash n (i + 1) bits item (c || is_clear bf bit, bf₁)).1 bit
          g (mark-is_clear bf bit (omega (arith, bit_of-lt bits item i h, room))) in
      let rest =
        insert_bits-contains_bits n (i + 1) bits item (c || is_clear bf bit) bf₁ h
          (omega (arith, same, room)) in
      rw (hit, rest) refl
