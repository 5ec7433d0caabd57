-- ===== src/Vm.antt =====
-- The stack machine of mdv_platform/mdv_vm.c: data on the byte stack, and the machine's state.
pub mod Ops
pub mod Run
pub mod RoundTrip
pub mod Safety
pub mod Order
pub mod Overflow
pub mod Logic
pub mod Programs
pub mod Instructions
pub mod Compiled
use medved_db.Base.{
  ℕ, zero, suc, ◌+◌, ◌-◌, List, [], ◌∷◌, ◌++◌, Bool, true, false, not, Option, none, some, leb, ltb,
  ◌==◌, if◌then◌else◌, length, take, drop, le_bytes, of_le,
}
use medved_db.Errno.{Errno, failed, stack_overflow}
use medved_db.Stack.{Stack, push_multiple, pop_multiple}

-- What the pointer of a datum leads to: `size` bytes, for a datum that is not external, or an
-- address in the machine's memory.
pub data Datum : Type 0 where
  internal : List ℕ → Datum
  external : (size addr : ℕ) → Datum

unfoldable pub datum_size : Datum → ℕ
datum_size (internal bs) = length bs
datum_size (external n a) = n

-- `memory` is what lies outside the stack: the program, and the external data.
pub record Machine : Type 0 where
  pub stack : Stack ℕ
  pub memory : ℕ → ℕ

-- `done` is `MDV_OK`.
pub data Outcome {ℓ} (A : Type ℓ) : Type ℓ where
  done : A → Outcome A
  fail : Errno → Outcome A

-- A step that fails keeps what it has done to the machine so far.
abbrev pub M : Type 0 → Type 0
M A = Machine → Outcome A × Machine

abbrev pub resume : {A B : Type 0} → Outcome A × Machine → (A → M B) → Outcome B × Machine
resume (done a, m) f = f a m
resume (fail e, m) f = (fail e, m)

infixl 5 ◌>>=◌ ◌>>◌
abbrev pub ◌>>=◌ : {A B : Type 0} → M A → (A → M B) → M B
◌>>=◌ c f m = resume (c m) f

abbrev pub ◌>>◌ : {B : Type 0} → M (Unit {0}) → M B → M B
◌>>◌ c d m = resume (c m) (λ _. d)

abbrev pub pure : {A : Type 0} → A → M A
pure a m = (done a, m)

abbrev pub throw : {A : Type 0} → Errno → M A
throw e m = (fail e, m)

-- `mdv_stack_push` on the machine's stack.
unfoldable pub push_bytes : List ℕ → M (Unit {0})
push_bytes bs m =
    let (pushed, st) = push_multiple m.stack bs in
    if pushed then (done tt, record m { stack = st }) else (fail stack_overflow, m)

-- `mdv_stack_pop` on the machine's stack.
unfoldable pub pop_bytes : ℕ → M (List ℕ)
pop_bytes n m =
    let (popped, st) = pop_multiple m.stack n in
    elim popped [ some bs ↦ (done bs, record m { stack = st }) | none ↦ (fail failed, m) ]

abbrev pub flag_byte : Bool → ℕ
flag_byte b = if b then 1 else 0

abbrev pub to_bool : ℕ → Bool
to_bool b = not (b == 0)

-- The bytes that a push of the datum writes first: the data, or the pointer.
unfoldable pub payload : Datum → List ℕ
payload (internal bs) = bs
payload (external n a) = le_bytes 8 a

abbrev pub is_external : Datum → Bool
is_external (internal bs) = false
is_external (external n a) = true

unfoldable pub stack_push : Datum → M (Unit {0})
unfolding datum_size payload
stack_push d = do
  push_bytes (payload d)
  push_bytes (le_bytes 4 (datum_size d))
  push_bytes (flag_byte (is_external d) ∷ [])

abbrev pub make_datum : Bool → ℕ → List ℕ → Datum
make_datum ext n bs = if ext then external n (of_le bs) else internal bs

unfoldable pub stack_pop : M Datum
stack_pop = do
  flag ← pop_bytes 1
  size ← pop_bytes 4
  let ext = to_bool (of_le flag)
  bs ← pop_bytes (if ext then 8 else of_le size)
  pure (make_datum ext (of_le size) bs)

-- The size and the flag that end a stack of `n` bytes.
unfoldable pub header_at : ℕ → List ℕ → ℕ × Bool
header_at n items = (of_le (take 4 (drop (n - 5) items)), to_bool (of_le (drop (n - 1) items)))

unfoldable pub top_at : ℕ × Bool → M Datum
top_at (size, ext) m =
    let items = m.stack.items in
    let n : ℕ = length items in
    let sz : ℕ = if ext then 8 else size in
    if ltb n (sz + 5)
    then (fail failed, m)
    else (done (make_datum ext size (take sz (drop (n - 5 - sz) items))), m)

unfoldable pub stack_top : M Datum
unfolding header_at top_at
stack_top m =
    let n : ℕ = length m.stack.items in
    let found = top_at (header_at n m.stack.items) m in if ltb n 5 then (fail failed, m) else found

-- `n` bytes of memory from an address on.
unfoldable pub read : (ℕ → ℕ) → ℕ → ℕ → List ℕ
read memory zero addr = []
read memory (suc n) addr = memory addr ∷ read memory n (addr + 1)

-- The bytes that a handler reads through the pointer of a datum.
unfoldable pub contents : (ℕ → ℕ) → Datum → List ℕ
contents memory (internal bs) = bs
contents memory (external n a) = read memory n a
