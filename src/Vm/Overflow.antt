-- ===== src/Vm/Overflow.antt =====
-- When `mdv_vm_stack_push` of mdv_vm.c finds no room.
use medved_db.Base.{
  ℕ, ◌+◌, ◌≤◌, ◌≡◌, List, ◌++◌, arith, length, length-append, length-le_bytes, le_bytes, leb,
  if◌then◌else◌,
}
use medved_db.Errno.{stack_overflow}
use medved_db.Stack.{push_multiple}
use medved_db.Vm.{Datum, datum_size, payload, Machine, done, fail, push_bytes, stack_push}

-- A push answers success if the payload, the size and the flag fit together, and an overflow of the
-- stack otherwise.
pub stack_push-overflow :
    (d : Datum) (m : Machine)
    → length m.stack.items ≤ m.stack.capacity
    → (stack_push d m).0 ≡ (
        if leb (length m.stack.items + (length (payload d) + 5)) m.stack.capacity
        then done tt
        else fail stack_overflow)
unfolding stack_push push_bytes push_multiple
stack_push-overflow d m fits =
    let one : List ℕ = payload d in
    let two : List ℕ = le_bytes 4 (datum_size d) in
    ground (
      arith,
      length-append m.stack.items one,
      length-append (m.stack.items ++ one) two,
      length-le_bytes 4 (datum_size d),
    )
