-- ===== src/Vm/Run.antt =====
-- The interpreter `mdv_vm_run` of mdv_platform/mdv_vm.c, and the predicates of
-- mdv_storage/mdv_predicate.c.
use medved_db.Base.{
  ℕ, zero, suc, ◌+◌, List, [], ◌∷◌, Option, none, some, ◌==◌, if◌then◌else◌, get_elem?, of_le,
}
use medved_db.Errno.{failed, no_impl}
use medved_db.Vm.{
  internal, external, Machine, Outcome, done, fail, M, ◌>>=◌, ◌>>◌, pure, throw, stack_push, read,
}
use medved_db.Vm.Ops.{
  equal, not_equal, greater, greater_or_equal, less, less_or_equal, and, or, not_op, get_memory,
  vm_true,
}

abbrev pub vm_nop : ℕ
vm_nop = 0

abbrev pub vm_push : ℕ
vm_push = 1

abbrev pub vm_call : ℕ
vm_call = 2

abbrev pub vm_end : ℕ
vm_end = 0xff

-- A byte and its tests as the source reads them: any byte but 0 is true.
abbrev pub push_step : ℕ → M (Option ℕ)
push_step ip = do
  memory ← get_memory
  let size = of_le (read memory 4 (ip + 1))
  if memory ip == 0
      then (stack_push (internal (read memory size (ip + 5))) >> pure (some (ip + 5 + size)))
      else (stack_push (external size (ip + 5)) >> pure (some (ip + 5 + 8)))

abbrev pub call : Option (M (Unit {0})) → M (Unit {0})
call none = throw no_impl
call (some fn) = fn

abbrev pub call_step : List (M (Unit {0})) → ℕ → M (Option ℕ)
call_step fns ip = do
  memory ← get_memory
  call (get_elem? fns (of_le (read memory 2 ip)))
  pure (some (ip + 2))

-- One round of the loop, with the next value of `ip`: `none` is the null pointer that ends it.
unfoldable pub step : List (M (Unit {0})) → ℕ → M (Option ℕ)
step fns ip = do
  memory ← get_memory
  let op = memory ip
  if op == vm_nop
      then pure (some (ip + 1))
      else if op == vm_push
      then push_step (ip + 1)
      else if op == vm_end
      then pure none
      else if op == vm_call
      then call_step fns (ip + 1)
      else throw failed

abbrev pub Ended : Type 0
Ended = Option (Outcome (Unit {0}) × Machine)

-- `while(ip)`, and the value that is returned after the loop.
abbrev pub loop : Outcome (Option ℕ) × Machine → (ℕ → Machine → Ended) → Ended
loop (done (some next), m) again = again next m
loop (done none, m) again = some (done tt, m)
loop (fail e, m) again = some (fail e, m)

-- The loop of the interpreter, on fuel: `none` means that the fuel ran out.
unfoldable pub run : ℕ → List (M (Unit {0})) → ℕ → Machine → Ended
run zero fns ip m = none
run (suc fuel) fns ip m = loop (step fns ip m) (run fuel fns)

abbrev pub predicate_fns : List (M (Unit {0}))
predicate_fns =
    equal ∷ not_equal ∷ greater ∷ greater_or_equal ∷ less ∷ less_or_equal ∷ and ∷ or ∷ not_op ∷ []

abbrev pub empty_predicate : List ℕ
empty_predicate = vm_push ∷ 0 ∷ 1 ∷ 0 ∷ 0 ∷ 0 ∷ vm_true ∷ vm_end ∷ []
