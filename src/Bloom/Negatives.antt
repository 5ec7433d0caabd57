-- ===== src/Bloom/Negatives.antt =====
-- The filter of mdv_bloom.c has no false negatives.
use medved_db.Base.{
  ℕ, zero, suc, ◌+◌, ◌*◌, ◌/◌, ◌≤◌, ◌<◌, ◌≡◌, refl, ap, List, [], ◌∷◌, ◌++◌, Bool, true, false,
  arith, some, leb, length, replicate, Bool-cases, inl, inr,
}
use mathlib.Core.Path.{subst}
use mathlib.Core.Option.{some-injective}
use medved_db.Lmdb.Engine.{Bytes}
use medved_db.Bloom.{Bloom, create, insert_bits, insert, inserted, contains}
use medved_db.Bloom.Keeps.{Grows, contains_bits-Grows, insert_bits-Grows, insert_bits-contains_bits}

-- There is a bit, the bytes have room for all bits, and the filter is not over its capacity.
pub record IsFilter (b : Bloom) : Type 0 where
  pub some_bit : 0 < b.bits
  pub room : b.bits ≤ 8 * length b.bf
  pub bound : b.size ≤ b.capacity

length-replicate : (n v : ℕ) → length (replicate n v) ≡ n
length-replicate zero v = refl
length-replicate (suc n) v = ap suc (length-replicate n v)

module _ (hash : Bytes → ℕ → ℕ) where
  unfoldable pub insert_all : Bloom → List Bytes → Bloom
  insert_all b [] = b
  insert_all b (item ∷ items) = insert_all (insert hash b item).1 items

  -- What one insertion leaves.
  record Follows (b b₁ : Bloom) : Type 0 where
    same_bits : b₁.bits ≡ b.bits
    same_hashes : b₁.hashes ≡ b.hashes
    same_capacity : b₁.capacity ≡ b.capacity
    grows : Grows b.bf b₁.bf
    at_most_one : b₁.size ≤ b.size + 1
    is_filter : IsFilter b₁

  inserted-Follows :
      (b : Bloom) (r : Bool × List ℕ)
      → IsFilter b
      → b.size < b.capacity
      → Grows b.bf r.1
      → length r.1 ≡ length b.bf
      → Follows b (inserted hash b r).1
  inserted-Follows b (false, bf) f h g same = record {
    same_bits = refl;
    same_hashes = refl;
    same_capacity = refl;
    grows = g;
    at_most_one = omega arith;
    is_filter = record {
      some_bit = f.some_bit;
      room = omega (arith, f.room, same);
      bound = f.bound;
    };
  }
  inserted-Follows b (true, bf) f h g same = record {
    same_bits = refl;
    same_hashes = refl;
    same_capacity = refl;
    grows = g;
    at_most_one = omega arith;
    is_filter = record {
      some_bit = f.some_bit;
      room = omega (arith, f.room, same);
      bound = omega (arith, h);
    };
  }

  insert-Follows : (b : Bloom) (item : Bytes) → IsFilter b → Follows b (insert hash b item).1
  unfolding insert
  insert-Follows b item f = elim (Bool-cases (leb b.capacity b.size)) [
    | inl full ↦ rw full record {
      same_bits = refl;
      same_hashes = refl;
      same_capacity = refl;
      grows = λ j. omega arith;
      at_most_one = omega arith;
      is_filter = f;
    }
    | inr more ↦
        let (g, same) = insert_bits-Grows hash b.hashes 0 b.bits item false b.bf in
        rw more (
          inserted-Follows b (insert_bits hash b.hashes 0 b.bits item (false, b.bf)) f
            (ground (arith, more)) g same)
  ]

  insert-finds :
      (b : Bloom) (item : Bytes)
      → IsFilter b
      → b.size < b.capacity
      → contains hash (insert hash b item).1 item ≡ true
  unfolding insert contains
  insert-finds b item f h =
      let more : leb b.capacity b.size ≡ false = ground (arith, h) in
      rw more (insert_bits-contains_bits hash b.hashes 0 b.bits item false b.bf f.some_bit f.room)

  contains-Follows :
      (b b₁ : Bloom) (item : Bytes)
      → Follows b b₁
      → contains hash b item ≡ true
      → contains hash b₁ item ≡ true
  unfolding contains
  contains-Follows b b₁ item l h =
      rw (l.same_hashes, l.same_bits)
        (contains_bits-Grows hash b.hashes 0 b.bits item b.bf b₁.bf l.grows h)

  insert_all-keeps :
      (b : Bloom) (items : List Bytes) (item : Bytes)
      → IsFilter b
      → contains hash b item ≡ true
      → contains hash (insert_all b items) item ≡ true
  unfolding insert_all
  insert_all-keeps b [] item f h = h
  insert_all-keeps b (x ∷ items) item f h =
      let l = insert-Follows b x f in
      insert_all-keeps (insert hash b x).1 items item l.is_filter
        (contains-Follows b (insert hash b x).1 item l h)

  -- A filter never denies an item that was inserted while it had less than its capacity, whatever is
  -- inserted before and after it and whether or not the insertion reports a change.
  pub insert-contains :
      (b : Bloom) (before after : List Bytes) (item : Bytes)
      → IsFilter b
      → b.size + length before < b.capacity
      → contains hash (insert_all b (before ++ item ∷ after)) item ≡ true
  unfolding insert_all
  insert-contains b [] after item f h =
      let l = insert-Follows b item f in
      insert_all-keeps (insert hash b item).1 after item l.is_filter
        (insert-finds b item f (omega (arith, h)))
  insert-contains b (x ∷ before) after item f h =
      let l = insert-Follows b x f in
      insert-contains (insert hash b x).1 before after item l.is_filter
        (omega (arith, h, l.at_most_one, l.same_capacity))

-- The filter that is made with at least one bit is one.
pub create-IsFilter :
    (bits hashes entries : ℕ) (b : Bloom)
    → 0 < bits
    → create true bits hashes entries ≡ some b
    → IsFilter b
unfolding create
create-IsFilter bits hashes entries b h e = subst IsFilter (some-injective _ _ e) (record {
  some_bit = h;
  room = omega (arith, length-replicate ((bits + 7) / 8) 0);
  bound = omega arith;
})
