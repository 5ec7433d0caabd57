-- ===== src/Vm/Instructions.antt =====
-- What one round of the interpreter of mdv_vm.c does at a push and at a call, by the bytes that
-- stand in memory.
use mathlib.Core.Path.{subst}
use medved_db.Base.{
  ℕ, zero, suc, ◌+◌, ◌^◌, ◌≤◌, ◌<◌, ◌≡◌, refl, List, [], ◌∷◌, ◌++◌, some, arith, length, le_bytes,
  of_le, length-le_bytes, of_le-le_bytes, get_elem?,
}
use medved_db.Vm.{internal, payload, Machine, done, M, read}
use medved_db.Vm.Run.{run, step, call, predicate_fns}
use medved_db.Vm.RoundTrip.{with_items, encode, stack_push-room}
use medved_db.Vm.Order.{Comparison, eq_cmp, ne_cmp, gt_cmp, ge_cmp, lt_cmp, le_cmp, handler}
use medved_db.Vm.Programs.{lit, code, handler_id, call_code}

-- The bytes stand in memory from an address on.
abbrev pub At : (ℕ → ℕ) → ℕ → List ℕ → Type 0
At memory ip [] = Unit
At memory ip (b ∷ bs) = (memory ip ≡ b) × At memory (ip + 1) bs

pub At-read :
    (memory : ℕ → ℕ) (ip n : ℕ) (bs : List ℕ)
    → length bs ≡ n
    → At memory ip bs
    → read memory n ip ≡ bs
unfolding read
At-read memory ip zero [] h a = refl
At-read memory ip (suc n) [] h a = absurd (omega arith)
At-read memory ip zero (b ∷ bs) h a = absurd (omega arith)
At-read memory ip (suc n) (b ∷ bs) h a = rw (a.0, At-read memory (ip + 1) n bs (omega arith) a.1)

pub At-append :
    (memory : ℕ → ℕ) (ip : ℕ) (xs ys : List ℕ)
    → At memory ip (xs ++ ys)
    → At memory ip xs × At memory (ip + length xs) ys
At-append memory ip [] ys a = (tt, subst (λ p. At memory p ys) (omega arith) a)
At-append memory ip (x ∷ xs) ys a =
    let rest = At-append memory (ip + 1) xs ys a.1 in
    ((a.0, rest.0), subst (λ p. At memory p ys) (omega arith) rest.1)

pub step-push :
    (fns : List (M (Unit {0}))) (ip : ℕ) (bs : List ℕ) (m : Machine)
    → At m.memory ip (code (lit bs))
    → length bs < 2 ^ 32
    → length m.stack.items + (length bs + 5) ≤ m.stack.capacity
    → step fns ip m
      ≡ (done (some (ip + 1 + 5 + length bs)), with_items m (m.stack.items ++ encode (internal bs)))
unfolding code step payload
step-push fns ip bs m a small fits =
    let parts = At-append m.memory (ip + 1 + 1) (le_bytes 4 (length bs)) bs a.1.1 in
    let size : of_le (read m.memory 4 (ip + 1 + 1)) ≡ length bs =
      rw (At-read m.memory (ip + 1 + 1) 4 (le_bytes 4 (length bs)) (length-le_bytes 4 _) parts.0)
        (of_le-le_bytes 4 (length bs) (omega arith)) in
    let body : read m.memory (length bs) (ip + 1 + 5) ≡ bs =
      At-read m.memory (ip + 1 + 5) (length bs) bs refl
        (subst (λ p. At m.memory p bs) (omega (arith, length-le_bytes 4 (length bs))) parts.1) in
    rw (a.0, a.1.0, size, body, stack_push-room (internal bs) m fits) refl

pub step-call :
    (fns : List (M (Unit {0}))) (ip id : ℕ) (fn : M (Unit {0})) (m m' : Machine)
    → At m.memory ip (call_code id)
    → id < 2 ^ 16
    → get_elem? fns id ≡ some fn
    → fn m ≡ (done tt, m')
    → step fns ip m ≡ (done (some (ip + 1 + 2)), m')
unfolding step
step-call fns ip id fn m m' a small found run =
    let index : of_le (read m.memory 2 (ip + 1)) ≡ id =
      rw (At-read m.memory (ip + 1) 2 (le_bytes 2 id) (length-le_bytes 2 id) a.1)
        (of_le-le_bytes 2 id (omega arith)) in
    rw (a.0, index, found, call, run) refl

-- From here on the interpreter goes on with `k` rounds of fuel at one place exactly as it does with
-- `f` rounds at another.
abbrev pub Reaches : ℕ → ℕ → Machine → ℕ → ℕ → Machine → Type 0
Reaches k ip m f ip' m' = run k predicate_fns ip m ≡ run f predicate_fns ip' m'

pub run-step :
    (k f ip next : ℕ) (m m' : Machine)
    → k ≡ suc f
    → step predicate_fns ip m ≡ (done (some next), m')
    → Reaches k ip m f next m'
unfolding run
run-step k f ip next m m' e h = rw (e, run, h) refl

pub run-call :
    (f ip id : ℕ) (fn : M (Unit {0})) (m m' : Machine)
    → At m.memory ip (call_code id)
    → id < 2 ^ 16
    → get_elem? predicate_fns id ≡ some fn
    → fn m ≡ (done tt, m')
    → Reaches (suc f) ip m f (ip + 1 + 2) m'
run-call f ip id fn m m' a small found h =
    run-step (suc f) f ip (ip + 1 + 2) m m' refl
      (step-call predicate_fns ip id fn m m' a small found h)

-- The handlers by their numbers in `predicate_fns`.
pub handler-found : (c : Comparison) → get_elem? predicate_fns (handler_id c) ≡ some (handler c)
unfolding handler_id handler
handler-found eq_cmp = refl
handler-found ne_cmp = refl
handler-found gt_cmp = refl
handler-found ge_cmp = refl
handler-found lt_cmp = refl
handler-found le_cmp = refl

pub handler_id-lt : (c : Comparison) → handler_id c < 2 ^ 16
unfolding handler_id
handler_id-lt eq_cmp = omega arith
handler_id-lt ne_cmp = omega arith
handler_id-lt gt_cmp = omega arith
handler_id-lt ge_cmp = omega arith
handler_id-lt lt_cmp = omega arith
handler_id-lt le_cmp = omega arith
