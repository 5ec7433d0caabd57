-- ===== src/Algorithm/Membership.antt =====
-- What is in the results of mdv_algorithm.c.
use Prim.Native.Nat.{compare}
use medved_db.Base.{
  ℕ, ◌≤◌, ◌<◌, ◌≡◌, refl, List, [], ◌∷◌, Bool, true, false, not, ◌&&◌, ◌||◌, ◌==◌, if◌then◌else◌,
  length, take, take-append, arith, All,
}
use medved_db.Algorithm.{diff, diff_from, union, union_from, kept, kept_from, exclude}

unfoldable pub has : ℕ → List ℕ → Bool
has x [] = false
has x (y ∷ ys) = if x == y then true else has x ys

-- Sorted, and no number twice.
abbrev pub Ascending : List ℕ → Type 0
Ascending [] = Unit
Ascending (x ∷ xs) = All (λ y. x < y) xs × Ascending xs

has-above : (x y : ℕ) (ys : List ℕ) → All (λ z. y < z) ys → x ≤ y → has x ys ≡ false
unfolding has
has-above x y [] h le = refl
has-above x y (z ∷ ys) h le = ground (arith, has-above x y ys h.1 le, h.0)

has-diff_from :
    (x a : ℕ) (set_a : List ℕ) (later : List ℕ → List ℕ) (set_b : List ℕ)
    → All (λ y. a < y) set_a
    → Ascending set_b
    → ((bs : List ℕ) → Ascending bs → has x (later bs) ≡ (has x set_a && not (has x bs)))
    → has x (diff_from a set_a later set_b) ≡ (has x (a ∷ set_a) && not (has x set_b))
unfolding has
has-diff_from x a set_a later [] above d h = ground arith
has-diff_from x a set_a later (b ∷ set_b) above d h = ground (
  arith,
  has-diff_from x a set_a later set_b above d.1 h,
  h (b ∷ set_b) d,
  h set_b d.1,
  has-above x a set_a above,
  has-above x b set_b d.0,
)

-- The difference of two arrays in which each number is greater than the one before it, so that none
-- stands there twice, has the numbers of the first that are not in the second.
pub has-diff :
    (x : ℕ) (set_a set_b : List ℕ)
    → Ascending set_a
    → Ascending set_b
    → has x (diff set_a set_b) ≡ (has x set_a && not (has x set_b))
unfolding diff has
has-diff x [] set_b c d = refl
has-diff x (a ∷ set_a) set_b c d =
    has-diff_from x a set_a (diff set_a) set_b c.0 d (λ bs e. has-diff x set_a bs c.1 e)

has-union_from :
    (x a : ℕ) (set_a : List ℕ) (later : List ℕ → List ℕ) (set_b : List ℕ)
    → ((bs : List ℕ) → has x (later bs) ≡ (has x set_a || has x bs))
    → has x (union_from a set_a later set_b) ≡ (has x (a ∷ set_a) || has x set_b)
unfolding has
has-union_from x a set_a later [] h = ground arith
has-union_from x a set_a later (b ∷ set_b) h =
    ground (arith, has-union_from x a set_a later set_b h, h (b ∷ set_b), h set_b)

-- The union of two arrays, sorted or not, has the numbers that are in one of them.
pub has-union :
    (x : ℕ) (set_a set_b : List ℕ) → has x (union set_a set_b) ≡ (has x set_a || has x set_b)
unfolding union has
has-union x [] set_b = refl
has-union x (a ∷ set_a) set_b =
    has-union_from x a set_a (union set_a) set_b (λ bs. has-union x set_a bs)

kept_from-diff :
    (a : ℕ) (set_a : List ℕ) (f g : List ℕ → List ℕ) (set_b : List ℕ)
    → ((bs : List ℕ) → f bs ≡ g bs)
    → kept_from compare a set_a f set_b ≡ diff_from a set_a g set_b
kept_from-diff a set_a f g [] h = refl
kept_from-diff a set_a f g (b ∷ set_b) h =
    ground (arith, kept_from-diff a set_a f g set_b h, h (b ∷ set_b), h set_b)

kept-diff : (set_a set_b : List ℕ) → kept compare set_a set_b ≡ diff set_a set_b
unfolding kept diff
kept-diff [] set_b = refl
kept-diff (a ∷ set_a) set_b =
    kept_from-diff a set_a (kept compare set_a) (diff set_a) set_b (λ bs. kept-diff set_a bs)

-- An exclusion with the order of the numbers leaves their difference at the front of the array, and
-- answers its size.
pub exclude-diff :
    (set_a set_b : List ℕ)
    → (take (exclude compare set_a set_b).1 (exclude compare set_a set_b).0 ≡ diff set_a set_b)
      × ((exclude compare set_a set_b).1 ≡ length (diff set_a set_b))
unfolding exclude
exclude-diff set_a set_b =
    rw kept-diff (take-append (diff set_a set_b) _ (length (diff set_a set_b)) refl, refl)
