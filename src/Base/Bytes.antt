-- ===== src/Base/Bytes.antt =====
-- Numbers as little-endian bytes, the layout of `*(uint32_t *)p` and of a stored pointer.
use Prim.Native.Nat.{ℕ, zero, suc, ◌+◌, ◌*◌, ◌/◌, ◌%◌, ◌^◌, ◌<◌}
use mathlib.Core.Path.{◌≡◌, refl, ap}
use mathlib.Core.List.{List, [], ◌∷◌}
use native.Mathlib.Omega.{arith}
use native.Mathlib.Nat.{pow-suc}
use medved_db.Base.Lists.{length}

-- The `n` bytes of `v`, the least significant first.
unfoldable pub le_bytes : ℕ → ℕ → List ℕ
le_bytes zero v = []
le_bytes (suc n) v = (v % 256) ∷ le_bytes n (v / 256)

-- The number that the bytes stand for.
unfoldable pub of_le : List ℕ → ℕ
of_le [] = 0
of_le (b ∷ bs) = b + 256 * of_le bs

pub length-le_bytes : (n v : ℕ) → length (le_bytes n v) ≡ n
unfolding le_bytes
length-le_bytes zero v = refl
length-le_bytes (suc n) v = ap suc (length-le_bytes n (v / 256))

pub of_le-le_bytes : (n v : ℕ) → v < 256 ^ n → of_le (le_bytes n v) ≡ v
unfolding le_bytes of_le
of_le-le_bytes zero v h = omega arith
of_le-le_bytes (suc n) v h =
    let room : 256 ^ suc n ≡ 256 ^ n * 256 = pow-suc 256 n in
    omega (arith, of_le-le_bytes n (v / 256) (omega arith))
