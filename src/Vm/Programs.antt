-- ===== src/Vm/Programs.antt =====
-- Programs of mdv_vm.c that come from an expression, in postfix order, and what they leave on the
-- stack. The expressions are a specification of the handlers of mdv_predicate.c; the repository has
-- no compiler for them yet.
use Prim.Native.Nat.{bit_and, bit_or}
use mathlib.Core.List.{map}
use medved_db.Base.{
  ℕ, ◌+◌, ◌^◌, ◌≤◌, ◌<◌, List, [], ◌∷◌, ◌++◌, Bool, Option, none, some, arith, length, length-map,
  ◌==◌, if◌then◌else◌, le_bytes,
}
use medved_db.Vm.Ops.{zip_bytes, complement, vm_true, vm_false}
use medved_db.Vm.Run.{vm_push, vm_call}
use medved_db.Vm.Order.{Comparison, eq_cmp, ne_cmp, gt_cmp, ge_cmp, lt_cmp, le_cmp, verdict, lex}
use medved_db.Vm.Logic.{length-zip_bytes}

pub data Expr : Type 0 where
  lit : List ℕ → Expr
  compare_with : Comparison → Expr → Expr → Expr
  both either : Expr → Expr → Expr
  negate : Expr → Expr

abbrev pub bool_bytes : Bool → List ℕ
bool_bytes b = (if b then vm_true else vm_false) ∷ []

abbrev pub zip_same : (ℕ → ℕ → ℕ) → Option (List ℕ) → Option (List ℕ) → Option (List ℕ)
zip_same op none w = none
zip_same op (some v) none = none
zip_same op (some v) (some w) = if length v == length w then some (zip_bytes op v w) else none

abbrev pub judge : Comparison → Option (List ℕ) → Option (List ℕ) → Option (List ℕ)
judge c none w = none
judge c (some v) none = none
judge c (some v) (some w) = some (bool_bytes (verdict c (lex v w)))

abbrev pub map_bytes : (ℕ → ℕ) → Option (List ℕ) → Option (List ℕ)
map_bytes f none = none
map_bytes f (some v) = some (map f v)

-- The value of an expression: none, if a conjunction or a disjunction has operands of two sizes.
unfoldable pub eval : Expr → Option (List ℕ)
eval (lit bs) = some bs
eval (compare_with c a b) = judge c (eval a) (eval b)
eval (both a b) = zip_same bit_and (eval a) (eval b)
eval (either a b) = zip_same bit_or (eval a) (eval b)
eval (negate a) = map_bytes complement (eval a)

unfoldable pub handler_id : Comparison → ℕ
handler_id eq_cmp = 0
handler_id ne_cmp = 1
handler_id gt_cmp = 2
handler_id ge_cmp = 3
handler_id lt_cmp = 4
handler_id le_cmp = 5

-- The instruction `[2][xx]`.
abbrev pub call_code : ℕ → List ℕ
call_code id = vm_call ∷ le_bytes 2 id

-- The bytes of a program for the expression, without the end.
unfoldable pub code : Expr → List ℕ
code (lit bs) = vm_push ∷ 0 ∷ (le_bytes 4 (length bs) ++ bs)
code (compare_with c a b) = code a ++ (code b ++ call_code (handler_id c))
code (both a b) = code a ++ (code b ++ call_code 6)
code (either a b) = code a ++ (code b ++ call_code 7)
code (negate a) = code a ++ call_code 8

-- The rounds of the loop that the program takes.
unfoldable pub rounds : Expr → ℕ
rounds (lit bs) = 1
rounds (compare_with c a b) = rounds a + rounds b + 1
rounds (both a b) = rounds a + rounds b + 1
rounds (either a b) = rounds a + rounds b + 1
rounds (negate a) = rounds a + 1

-- Room on the stack that is enough for the program.
unfoldable pub room : Expr → ℕ
room (lit bs) = length bs + 5
room (compare_with c a b) = room a + room b
room (both a b) = room a + room b
room (either a b) = room a + room b
room (negate a) = room a

-- The size of each literal fits in its four bytes.
abbrev pub Fits : Expr → Type 0
Fits (lit bs) = length bs < 2 ^ 32
Fits (compare_with c a b) = Fits a × Fits b
Fits (both a b) = Fits a × Fits b
Fits (either a b) = Fits a × Fits b
Fits (negate a) = Fits a

abbrev pub SmallValue : ℕ → Option (List ℕ) → Type 0
SmallValue n none = Unit
SmallValue n (some v) = (length v + 5 ≤ n) × (length v < 2 ^ 32)

judge-SmallValue :
    (c : Comparison) (v w : Option (List ℕ)) (m n : ℕ)
    → SmallValue m v
    → SmallValue n w
    → SmallValue (m + n) (judge c v w)
judge-SmallValue c none w m n h k = tt
judge-SmallValue c (some v) none m n h k = tt
judge-SmallValue c (some v) (some w) m n h k = (omega arith, omega arith)

zip_same-SmallValue :
    (op : ℕ → ℕ → ℕ) (v w : Option (List ℕ)) (m n : ℕ)
    → SmallValue m v
    → SmallValue n w
    → SmallValue (m + n) (zip_same op v w)
zip_same-SmallValue op none w m n h k = tt
zip_same-SmallValue op (some v) none m n h k = tt
zip_same-SmallValue op (some v) (some w) m n h k = ground (arith, length-zip_bytes op v w)

map_bytes-SmallValue :
    (f : ℕ → ℕ) (v : Option (List ℕ)) (n : ℕ) → SmallValue n v → SmallValue n (map_bytes f v)
map_bytes-SmallValue f none n h = tt
map_bytes-SmallValue f (some v) n h =
    (omega (arith, h, length-map v f), omega (arith, h, length-map v f))

pub eval-SmallValue : (e : Expr) → Fits e → SmallValue (room e) (eval e)
unfolding room eval
eval-SmallValue (lit bs) h = (omega arith, h)
eval-SmallValue (compare_with c a b) h =
    judge-SmallValue c _ _ (room a) (room b) (eval-SmallValue a h.0) (eval-SmallValue b h.1)
eval-SmallValue (both a b) h =
    zip_same-SmallValue bit_and _ _ _ _ (eval-SmallValue a h.0) (eval-SmallValue b h.1)
eval-SmallValue (either a b) h =
    zip_same-SmallValue bit_or _ _ _ _ (eval-SmallValue a h.0) (eval-SmallValue b h.1)
eval-SmallValue (negate a) h = map_bytes-SmallValue complement _ _ (eval-SmallValue a h)
