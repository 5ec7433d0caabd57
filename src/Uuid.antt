-- ===== src/Uuid.antt =====
-- The identifiers of mdv_platform/mdv_uuid.c: 16 bytes, which the source also reads as two
-- little-endian numbers of 64 bits. The generation of one is a call of a library.
pub mod Text
pub mod Keys
use Prim.Native.Nat.{bit_or, bit_xor}
use medved_db.Base.{
  ℕ, zero, suc, ◌+◌, ◌-◌, ◌*◌, ◌/◌, ◌%◌, ◌^◌, List, [], ◌∷◌, Bool, true, false, Option, none, some,
  ◌==◌, ◌&&◌, leb, ltb, if◌then◌else◌, set, get_or, replicate, length, take, drop, of_le,
}

abbrev pub Uuid : Type 0
Uuid = List ℕ

abbrev pub u64 : Uuid → ℕ → ℕ
u64 uuid zero = of_le (take 8 uuid)
u64 uuid (suc i) = of_le (drop 8 uuid)

-- The sign of what `mdv_uuid_cmp` returns.
pub data Sign : Type 0 where
  negative null positive : Sign

unfoldable pub uuid_cmp : Uuid → Uuid → Sign
uuid_cmp a b =
    if ltb (u64 a 0) (u64 b 0)
    then negative
    else if ltb (u64 b 0) (u64 a 0)
    then positive
    else if ltb (u64 a 1) (u64 b 1)
    then negative
    else if ltb (u64 b 1) (u64 a 1)
    then positive
    else null

unfoldable pub uuid_hash : Uuid → ℕ
uuid_hash a =
    let hash = bit_xor (2166136261 * 16777619 % 2 ^ 64) (u64 a 0) in
    bit_xor (hash * 16777619 % 2 ^ 64) (u64 a 1)

-- "0123456789ABCDEF".
abbrev pub hex : List ℕ
hex = 48 ∷ 49 ∷ 50 ∷ 51 ∷ 52 ∷ 53 ∷ 54 ∷ 55 ∷ 56 ∷ 57 ∷ 65 ∷ 66 ∷ 67 ∷ 68 ∷ 69 ∷ 70 ∷ []

-- The loop of `mdv_uuid_to_str`: `n` characters from position `i` on.
unfoldable pub to_str_loop : ℕ → ℕ → Uuid → List ℕ
to_str_loop zero i uuid = []
to_str_loop (suc n) i uuid =
    get_or hex (get_or uuid (i / 2) 0 / 2 ^ ((1 - i % 2) * 4) % 16) 0 ∷ to_str_loop n (i + 1) uuid

-- Without the zero at the end.
unfoldable pub to_str : Uuid → List ℕ
to_str uuid = to_str_loop 32 0 uuid

-- The cases of the switch.
unfoldable pub digit_value : ℕ → Option ℕ
digit_value c =
    if leb 48 c && leb c 57
    then some (c - 48)
    else if leb 65 c && leb c 70
    then some (c - 55)
    else if leb 97 c && leb c 102
    then some (c - 87)
    else none

abbrev pub put_digit : Uuid → ℕ → ℕ → Uuid
put_digit uuid i d = set uuid (i / 2) (bit_or (get_or uuid (i / 2) 0) (d * 2 ^ ((1 - i % 2) * 4)))

-- The loop of `mdv_uuid_from_str`; `none` is a character that is no digit.
unfoldable pub from_str_loop : ℕ → List ℕ → Uuid → Option Uuid
from_str_loop i [] uuid = some uuid
from_str_loop i (c ∷ cs) uuid = elim (digit_value c) [
  | none ↦ none
  | some d ↦ from_str_loop (i + 1) cs (put_digit uuid i d)
]

-- `none` is the result `false`.
unfoldable pub from_str : List ℕ → Option Uuid
from_str str = if length str == 32 then from_str_loop 0 str (replicate 16 0) else none
