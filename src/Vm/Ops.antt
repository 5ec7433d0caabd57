-- ===== src/Vm/Ops.antt =====
-- The operations `mdv_vmop_*` of mdv_platform/mdv_vm.c.
use Prim.Native.Nat.{compare, Ordering, bit_and, bit_or}
use medved_db.Base.{
  ℕ, zero, suc, ◌+◌, ◌-◌, List, [], ◌∷◌, ◌++◌, Bool, true, false, not, ◌&&◌, ◌||◌, leb, ltb, ◌==◌,
  if◌then◌else◌, length, take, drop,
}
use mathlib.Core.List.{map}
use medved_db.Errno.{invalid_arg, invalid_type}
use medved_db.Vm.{
  Datum, internal, external, datum_size, done, M, ◌>>=◌, pure, throw, stack_push, stack_pop,
  stack_top, contents,
}

abbrev pub vm_true : ℕ
vm_true = 0xff

abbrev pub vm_false : ℕ
vm_false = 0

-- The sign of `memcmp` over the first `n` bytes.
unfoldable pub memcmp : ℕ → List ℕ → List ℕ → Ordering
memcmp zero xs ys = Ordering.eq
memcmp (suc n) [] ys = Ordering.eq
memcmp (suc n) (x ∷ xs) [] = Ordering.eq
memcmp (suc n) (x ∷ xs) (y ∷ ys) = elim (compare x y) [
  | Ordering.lt ↦ Ordering.lt
  | Ordering.eq ↦ memcmp n xs ys
  | Ordering.gt ↦ Ordering.gt
]

abbrev pub is_lt : Ordering → Bool
is_lt o = elim o [ Ordering.lt ↦ true | _ ↦ false ]

abbrev pub is_eq : Ordering → Bool
is_eq o = elim o [ Ordering.eq ↦ true | _ ↦ false ]

abbrev pub is_gt : Ordering → Bool
is_gt o = elim o [ Ordering.gt ↦ true | _ ↦ false ]

-- The second operand is on top.
unfoldable pub pop_pair : M (Datum × Datum)
pop_pair = do b ← stack_pop; a ← stack_pop; pure (a, b)

-- The result datum of a comparison.
unfoldable pub push_res : Bool → M (Unit {0})
push_res b = stack_push (internal ((if b then vm_true else vm_false) ∷ []))

-- The state is not changed by a look at the memory.
abbrev pub get_memory : M (ℕ → ℕ)
get_memory m = (done m.memory, m)

unfoldable pub equal : M (Unit {0})
equal = do
  (a, b) ← pop_pair
  memory ← get_memory
  push_res (
      datum_size a == datum_size b
      && is_eq (memcmp (datum_size a) (contents memory a) (contents memory b)))

unfoldable pub not_equal : M (Unit {0})
not_equal = do
  (a, b) ← pop_pair
  memory ← get_memory
  push_res (
      not (datum_size a == datum_size b)
      || not (is_eq (memcmp (datum_size a) (contents memory a) (contents memory b))))

-- `memcmp` over the bytes that both operands have.
unfoldable pub cmp_res : (ℕ → ℕ) → Datum → Datum → Ordering
unfolding memcmp contents
cmp_res memory a b =
    memcmp (if ltb (datum_size a) (datum_size b) then datum_size a else datum_size b)
      (contents memory a) (contents memory b)

unfoldable pub greater : M (Unit {0})
greater = do
  (a, b) ← pop_pair
  memory ← get_memory
  let cmp = cmp_res memory a b
  push_res (is_gt cmp || (is_eq cmp && ltb (datum_size b) (datum_size a)))

unfoldable pub greater_or_equal : M (Unit {0})
greater_or_equal = do
  (a, b) ← pop_pair
  memory ← get_memory
  let cmp = cmp_res memory a b
  push_res (is_gt cmp || (is_eq cmp && leb (datum_size b) (datum_size a)))

unfoldable pub less : M (Unit {0})
less = do
  (a, b) ← pop_pair
  memory ← get_memory
  let cmp = cmp_res memory a b
  push_res (is_lt cmp || (is_eq cmp && ltb (datum_size a) (datum_size b)))

unfoldable pub less_or_equal : M (Unit {0})
less_or_equal = do
  (a, b) ← pop_pair
  memory ← get_memory
  let cmp = cmp_res memory a b
  push_res (is_lt cmp || (is_eq cmp && leb (datum_size a) (datum_size b)))

-- `res[i] = op(lhs[i], rhs[i])` for operands of one size.
unfoldable pub zip_bytes : (ℕ → ℕ → ℕ) → List ℕ → List ℕ → List ℕ
zip_bytes op [] ys = []
zip_bytes op (x ∷ xs) [] = []
zip_bytes op (x ∷ xs) (y ∷ ys) = op x y ∷ zip_bytes op xs ys

unfoldable pub and : M (Unit {0})
and = do
  (a, b) ← pop_pair
  memory ← get_memory
  if datum_size a == datum_size b
      then stack_push (internal (zip_bytes bit_and (contents memory a) (contents memory b)))
      else throw invalid_arg

unfoldable pub or : M (Unit {0})
or = do
  (a, b) ← pop_pair
  memory ← get_memory
  if datum_size a == datum_size b
      then stack_push (internal (zip_bytes bit_or (contents memory a) (contents memory b)))
      else throw invalid_arg

-- `~x` of a byte.
abbrev pub complement : ℕ → ℕ
complement x = 255 - x

-- The bytes are changed where they are: in the stack's buffer, or in memory.
unfoldable pub invert : Datum → M (Unit {0})
invert (internal bs) m =
    let items = m.stack.items in
    let n : ℕ = length items in
    let items' = take (n - 5 - length bs) items ++ map complement bs ++ drop (n - 5) items in
    (done tt, record m { stack = record (m.stack) { items = items' } })
invert (external n a) m =
    let inverted : ℕ → ℕ =
      λ p. if leb a p && ltb p (a + n) then complement (m.memory p) else m.memory p in
    (done tt, record m { memory = inverted })

-- `not` is a name of the library.
unfoldable pub not_op : M (Unit {0})
not_op = stack_top >>= invert

-- The first byte of the result; a result of no byte was refused before.
abbrev first_byte : List ℕ → ℕ
first_byte [] = 0
first_byte (x ∷ xs) = x

unfoldable pub result_as_bool : M Bool
unfolding contents
result_as_bool = do
  d ← stack_top
  memory ← get_memory
  if datum_size d == 1
      then pure (not (first_byte (contents memory d) == vm_false))
      else throw invalid_type
