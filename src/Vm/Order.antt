-- ===== src/Vm/Order.antt =====
-- The comparisons of mdv_vm.c decide the lexicographic order of the operands' bytes.
use Prim.Native.Nat.{compare, Ordering}
use medved_db.Base.{
  ℕ, zero, suc, ◌+◌, ◌≤◌, ◌≡◌, refl, ap, List, [], ◌∷◌, ◌++◌, Bool, not, ◌&&◌, ◌||◌, arith, length,
  length-append, leb, ltb, ◌==◌, if◌then◌else◌,
}
use medved_db.Vm.{Datum, internal, external, datum_size, payload, Machine, done, M, contents, read}
use medved_db.Vm.Ops.{
  memcmp, is_lt, is_eq, is_gt, cmp_res, pop_pair, push_res, equal, not_equal, greater,
  greater_or_equal, less, less_or_equal, vm_true, vm_false,
}
use medved_db.Vm.RoundTrip.{
  with_items, encode, IsDatum, stack_pop-encode, stack_push-room, length-encode,
}

-- Dictionary order, a proper prefix first.
unfoldable pub lex : List ℕ → List ℕ → Ordering
lex [] [] = Ordering.eq
lex [] (y ∷ ys) = Ordering.lt
lex (x ∷ xs) [] = Ordering.gt
lex (x ∷ xs) (y ∷ ys) = elim (compare x y) [
  | Ordering.lt ↦ Ordering.lt
  | Ordering.eq ↦ lex xs ys
  | Ordering.gt ↦ Ordering.gt
]

abbrev shorter : List ℕ → List ℕ → ℕ
shorter xs ys = if ltb (length xs) (length ys) then length xs else length ys

-- The three outcomes of `memcmp` over the shorter length, with a tie broken by the lengths.
abbrev tie_break : Ordering → ℕ → ℕ → Ordering
tie_break Ordering.lt m n = Ordering.lt
tie_break Ordering.eq m n = compare m n
tie_break Ordering.gt m n = Ordering.gt

lex-memcmp :
    (xs ys : List ℕ) (n : ℕ)
    → n ≡ shorter xs ys
    → tie_break (memcmp n xs ys) (length xs) (length ys) ≡ lex xs ys
unfolding memcmp lex
lex-memcmp [] [] zero h = refl
lex-memcmp [] [] (suc n) h = ground arith
lex-memcmp [] (y ∷ ys) zero h = ground arith
lex-memcmp [] (y ∷ ys) (suc n) h = ground arith
lex-memcmp (x ∷ xs) [] zero h = ground arith
lex-memcmp (x ∷ xs) [] (suc n) h = ground arith
lex-memcmp (x ∷ xs) (y ∷ ys) zero h = ground arith
lex-memcmp (x ∷ xs) (y ∷ ys) (suc n) h = ground (arith, lex-memcmp xs ys n)

pub lex-eq : (xs ys : List ℕ) → lex xs ys ≡ Ordering.eq → xs ≡ ys
unfolding lex
lex-eq [] [] h = refl
lex-eq [] (y ∷ ys) h = ground arith
lex-eq (x ∷ xs) [] h = ground arith
lex-eq (x ∷ xs) (y ∷ ys) h = ground (arith, lex-eq xs ys)

pub lex_refl : (xs : List ℕ) → lex xs xs ≡ Ordering.eq
unfolding lex
lex_refl [] = refl
lex_refl (x ∷ xs) = ground (arith, lex_refl xs)

pub lex_flip : (xs ys : List ℕ) → lex xs ys ≡ Ordering.lt → lex ys xs ≡ Ordering.gt
unfolding lex
lex_flip [] [] h = ground arith
lex_flip [] (y ∷ ys) h = refl
lex_flip (x ∷ xs) [] h = ground arith
lex_flip (x ∷ xs) (y ∷ ys) h = ground (arith, lex_flip xs ys)

pub lex_trans :
    (xs ys zs : List ℕ)
    → lex xs ys ≡ Ordering.lt
    → lex ys zs ≡ Ordering.lt
    → lex xs zs ≡ Ordering.lt
unfolding lex
lex_trans [] [] zs h k = ground arith
lex_trans [] (y ∷ ys) [] h k = ground arith
lex_trans [] (y ∷ ys) (z ∷ zs) h k = refl
lex_trans (x ∷ xs) [] zs h k = ground arith
lex_trans (x ∷ xs) (y ∷ ys) [] h k = ground arith
lex_trans (x ∷ xs) (y ∷ ys) (z ∷ zs) h k = ground (arith, lex_trans xs ys zs)

-- The two equality tests read the sizes first.
lex_equal :
    (xs ys : List ℕ)
    → (length xs == length ys && is_eq (memcmp (length xs) xs ys)) ≡ is_eq (lex xs ys)
unfolding memcmp lex
lex_equal [] [] = refl
lex_equal [] (y ∷ ys) = ground arith
lex_equal (x ∷ xs) [] = ground arith
lex_equal (x ∷ xs) (y ∷ ys) = ground (arith, lex_equal xs ys)

lex_unequal :
    (xs ys : List ℕ)
    → (not (length xs == length ys) || not (is_eq (memcmp (length xs) xs ys)))
      ≡ not (is_eq (lex xs ys))
lex_unequal xs ys = ground (arith, lex_equal xs ys)

-- The four others break a tie of `memcmp` by the sizes.
module _ (xs ys : List ℕ) where
  abbrev cmp : Ordering
  cmp = memcmp (shorter xs ys) xs ys

  lex_greater : (is_gt cmp || (is_eq cmp && ltb (length ys) (length xs))) ≡ is_gt (lex xs ys)
  lex_greater = ground (arith, lex-memcmp xs ys (shorter xs ys) refl)

  lex_greater_or_equal :
      (is_gt cmp || (is_eq cmp && leb (length ys) (length xs))) ≡ not (is_lt (lex xs ys))
  lex_greater_or_equal = ground (arith, lex-memcmp xs ys (shorter xs ys) refl)

  lex_less : (is_lt cmp || (is_eq cmp && ltb (length xs) (length ys))) ≡ is_lt (lex xs ys)
  lex_less = ground (arith, lex-memcmp xs ys (shorter xs ys) refl)

  lex_less_or_equal :
      (is_lt cmp || (is_eq cmp && leb (length xs) (length ys))) ≡ not (is_gt (lex xs ys))
  lex_less_or_equal = ground (arith, lex-memcmp xs ys (shorter xs ys) refl)

-- The six comparisons, with the handler and the verdict on an ordering of each.
pub data Comparison : Type 0 where
  eq_cmp ne_cmp gt_cmp ge_cmp lt_cmp le_cmp : Comparison

unfoldable pub handler : Comparison → M (Unit {0})
handler eq_cmp = equal
handler ne_cmp = not_equal
handler gt_cmp = greater
handler ge_cmp = greater_or_equal
handler lt_cmp = less
handler le_cmp = less_or_equal

unfoldable pub verdict : Comparison → Ordering → Bool
verdict eq_cmp o = is_eq o
verdict ne_cmp o = not (is_eq o)
verdict gt_cmp o = is_gt o
verdict ge_cmp o = not (is_lt o)
verdict lt_cmp o = is_lt o
verdict le_cmp o = not (is_gt o)

-- The datum of a truth value.
abbrev pub bool_datum : Bool → Datum
bool_datum b = internal ((if b then vm_true else vm_false) ∷ [])

length-read : (memory : ℕ → ℕ) (n a : ℕ) → length (read memory n a) ≡ n
unfolding read
length-read memory zero a = refl
length-read memory (suc n) a = ap suc (length-read memory n (a + 1))

pub length-contents : (memory : ℕ → ℕ) (d : Datum) → length (contents memory d) ≡ datum_size d
unfolding contents datum_size
length-contents memory (internal bs) = refl
length-contents memory (external n a) = length-read memory n a

-- What a handler is applied to: `b` on top of `a`, within the capacity.
pub record Operands (a b : Datum) (below : List ℕ) (m : Machine) : Type 0 where
  pub first : IsDatum a
  pub second : IsDatum b
  pub stacked : m.stack.items ≡ (below ++ encode a) ++ encode b
  pub within : length m.stack.items ≤ m.stack.capacity

module _ {a b : Datum} {below : List ℕ} {m : Machine} (o : Operands a b below m) where
  pub pop_pair-encode : pop_pair m ≡ (done (a, b), with_items m below)
  unfolding pop_pair
  pop_pair-encode =
      rw
        (
          stack_pop-encode b m (below ++ encode a) o.second o.stacked,
          stack_pop-encode a (with_items m (below ++ encode a)) below o.first refl,
        )
        refl

  pub room_below :
      length below + (length (payload a) + 5) + (length (payload b) + 5) ≤ m.stack.capacity
  room_below = omega (
    arith,
    o.within,
    ap length o.stacked,
    length-append (below ++ encode a) (encode b),
    length-append below (encode a),
    length-encode a,
    length-encode b,
  )

  push_res-room :
      (r : Bool)
      → push_res r (with_items m below) ≡ (done tt, with_items m (below ++ encode (bool_datum r)))
  unfolding push_res payload
  push_res-room r = stack_push-room (bool_datum r) (with_items m below) (omega (arith, room_below))

  -- Each comparison takes both operands off the stack and leaves `0xff` there, or 0, as their bytes
  -- are in its relation in dictionary order.
  pub handler-lex :
      (c : Comparison)
      → handler c m ≡ (
        done tt,
        with_items m (
            below
            ++ encode (bool_datum (verdict c (lex (contents m.memory a) (contents m.memory b))))),
      )
  unfolding handler verdict equal not_equal greater greater_or_equal less less_or_equal cmp_res
  handler-lex eq_cmp =
      rw
        (
          pop_pair-encode,
          ← length-contents m.memory a,
          ← length-contents m.memory b,
          lex_equal (contents m.memory a) (contents m.memory b),
        )
        (push_res-room _)
  handler-lex ne_cmp =
      rw
        (
          pop_pair-encode,
          ← length-contents m.memory a,
          ← length-contents m.memory b,
          lex_unequal (contents m.memory a) (contents m.memory b),
        )
        (push_res-room _)
  handler-lex gt_cmp =
      rw
        (
          pop_pair-encode,
          ← length-contents m.memory a,
          ← length-contents m.memory b,
          lex_greater (contents m.memory a) (contents m.memory b),
        )
        (push_res-room _)
  handler-lex ge_cmp =
      rw
        (
          pop_pair-encode,
          ← length-contents m.memory a,
          ← length-contents m.memory b,
          lex_greater_or_equal (contents m.memory a) (contents m.memory b),
        )
        (push_res-room _)
  handler-lex lt_cmp =
      rw
        (
          pop_pair-encode,
          ← length-contents m.memory a,
          ← length-contents m.memory b,
          lex_less (contents m.memory a) (contents m.memory b),
        )
        (push_res-room _)
  handler-lex le_cmp =
      rw
        (
          pop_pair-encode,
          ← length-contents m.memory a,
          ← length-contents m.memory b,
          lex_less_or_equal (contents m.memory a) (contents m.memory b),
        )
        (push_res-room _)
