-- ===== src/Bloom.antt =====
-- The Bloom filter of mdv_platform/generic/mdv_bloom.c. The hash function (mdv_hash.c, a copy of
-- MurmurHash) is a parameter, and so are the numbers of bits and of hash functions that floating-point
-- arithmetic gives at the creation. The field `err`, which no operation reads, is left out.
pub mod Keeps
pub mod Negatives
use medved_db.Base.{
  ℕ, zero, suc, ◌+◌, ◌*◌, ◌/◌, ◌%◌, ◌^◌, List, [], ◌∷◌, Bool, true, false, Option, none, some, ◌==◌,
  ◌||◌, leb, if◌then◌else◌, set, get_or, replicate,
}
use medved_db.Lmdb.Engine.{Bytes}

pub record Bloom : Type 0 where
  pub bits : ℕ
  pub capacity : ℕ
  pub size : ℕ
  pub hashes : ℕ
  pub bf : List ℕ

unfoldable pub create : Bool → ℕ → ℕ → ℕ → Option Bloom
create allocated bits hashes entries =
    if allocated
    then some (record {
      bits = bits;
      capacity = entries;
      size = 0;
      hashes = hashes;
      bf = replicate ((bits + 7) / 8) 0;
    })
    else none

-- `MDV_HASH_SEED`.
abbrev pub hash_seed : ℕ
hash_seed = 836091947

-- `b | 1 << offset`.
unfoldable pub or_bit : ℕ → ℕ → ℕ
or_bit b offset = if b / 2 ^ offset % 2 == 1 then b else b + 2 ^ offset

-- The test of the byte of a bit, whose shift keeps the bits behind it as well.
unfoldable pub is_clear : List ℕ → ℕ → Bool
is_clear bf bit = get_or bf (bit / 8) 0 / 2 ^ (bit % 8) == 0

unfoldable pub mark : List ℕ → ℕ → List ℕ
mark bf bit = set bf (bit / 8) (or_bit (get_or bf (bit / 8) 0) (bit % 8))

module _ (hash : Bytes → ℕ → ℕ) where
  -- The bit of the hash function with a number.
  unfoldable pub bit_of : ℕ → Bytes → ℕ → ℕ
  bit_of bits item i = hash item (i * hash_seed % 2 ^ 32) % bits

  -- The loop of `mdv_bloom_insert`: `n` hash functions from number `i` on.
  unfoldable pub insert_bits : ℕ → ℕ → ℕ → Bytes → Bool × List ℕ → Bool × List ℕ
  insert_bits zero i bits item r = r
  insert_bits (suc n) i bits item (is_changed, bf) =
      let bit = bit_of bits item i in
      insert_bits n (i + 1) bits item (is_changed || is_clear bf bit, mark bf bit)

  abbrev pub inserted : Bloom → Bool × List ℕ → Bool × Bloom
  inserted bloom (is_changed, bf) = (
    is_changed,
    record bloom { bf = bf; size = if is_changed then bloom.size + 1 else bloom.size },
  )

  unfoldable pub insert : Bloom → Bytes → Bool × Bloom
  insert bloom item =
      if leb bloom.capacity bloom.size
      then (false, bloom)
      else inserted bloom (insert_bits bloom.hashes 0 bloom.bits item (false, bloom.bf))

  -- The loop of `mdv_bloom_contains`.
  unfoldable pub contains_bits : ℕ → ℕ → ℕ → Bytes → List ℕ → Bool
  contains_bits zero i bits item bf = true
  contains_bits (suc n) i bits item bf =
      let rest = contains_bits n (i + 1) bits item bf in
      if is_clear bf (bit_of bits item i) then false else rest

  unfoldable pub contains : Bloom → Bytes → Bool
  contains bloom item = contains_bits bloom.hashes 0 bloom.bits item bloom.bf
