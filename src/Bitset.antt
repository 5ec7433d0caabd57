-- ===== src/Bitset.antt =====
-- The fixed-size bit sequence of mdv_platform/generic/mdv_bitset.c, in words of 32 bits. A position
-- past the words is read as 0 here, and a write there changes nothing; the source does not test it.
use Prim.Native.Nat.{bit_and, bit_or}
use medved_db.Base.{
  ℕ, zero, suc, ◌+◌, ◌-◌, ◌*◌, ◌/◌, ◌%◌, ◌^◌, List, Bool, true, false, Option, none, some, ◌==◌,
  if◌then◌else◌, set, get_or, replicate,
}

pub record Bitset : Type 0 where
  pub size : ℕ
  pub bits : List ℕ

-- `mdv_bitset_capacity_calc`.
unfoldable pub capacity_calc : ℕ → ℕ
capacity_calc size = 32 * ((size + 32 - 1) / 32)

unfoldable pub capacity : Bitset → ℕ
capacity bitset = capacity_calc bitset.size

-- Every byte of the words is `0xff` or 0.
unfoldable pub fill : Bitset → Bool → Bitset
fill bitset val = record bitset {
  bits = replicate (capacity bitset / 32) (if val then 2 ^ 32 - 1 else 0);
}

unfoldable pub create : Bool → ℕ → Option Bitset
create allocated size =
    if allocated
    then some (fill (record { size = size; bits = replicate (capacity_calc size / 32) 0 }) false)
    else none

unfoldable pub test : Bitset → ℕ → Bool
test bitset pos = get_or bitset.bits (pos / 32) 0 / 2 ^ (pos % 32) % 2 == 1

unfoldable pub set_bit : Bitset → ℕ → Bool × Bitset
set_bit bitset pos =
    let word = get_or bitset.bits (pos / 32) 0 in
    if word / 2 ^ (pos % 32) % 2 == 1
    then (false, bitset)
    else (true, record bitset { bits = set bitset.bits (pos / 32) (bit_or word (2 ^ (pos % 32))) })

unfoldable pub reset : Bitset → ℕ → Bitset
reset bitset pos =
    let word = get_or bitset.bits (pos / 32) 0 in
    record bitset { bits = set bitset.bits (pos / 32) (bit_and word (2 ^ 32 - 1 - 2 ^ (pos % 32))) }

-- The positions below `i` that are as `val` says.
unfoldable pub count_to : ℕ → Bitset → Bool → ℕ
count_to zero bitset val = 0
count_to (suc i) bitset val =
    let n = count_to i bitset val in
    let hit = if test bitset i then val else (if val then false else true) in
    if hit then n + 1 else n

unfoldable pub count : Bitset → Bool → ℕ
count bitset val = count_to bitset.size bitset val
