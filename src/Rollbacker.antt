-- ===== src/Rollbacker.antt =====
-- The stack of rollback operations of mdv_platform/mdv_rollbacker.c. A function and an argument are
-- their addresses. A pointer is `none` if it is null.
pub mod Order
use medved_db.Base.{
  ℕ, zero, suc, ◌+◌, List, [], ◌∷◌, ◌++◌, Bool, true, false, Option, none, some, leb, ◌==◌,
  if◌then◌else◌, length, get_elem?, get_or,
}

-- `mdv_rollback_op`.
pub record Op : Type 0 where
  pub function : ℕ
  pub args_count : ℕ
  pub args : List ℕ

pub record Rollbacker : Type 0 where
  pub capacity : ℕ
  pub ops : List Op

-- `_mdv_rollbacker_push`.
unfoldable pub push : Option Rollbacker → Op → Bool × Option Rollbacker
push none op = (false, none)
push (some rbr) op =
    if leb rbr.capacity (length rbr.ops)
    then (false, some rbr)
    else (true, some (record rbr { ops = rbr.ops ++ op ∷ [] }))

-- `mdv_rollbacker_free` as an operation on the rollbacker at `address`.
abbrev pub free_op : ℕ → ℕ → Op
free_op free address = record { function = free; args_count = 1; args = address ∷ [] }

-- `fresh` is the address that the allocation returns, and `free` that of `mdv_rollbacker_free`.
unfoldable pub create : ℕ → Option ℕ → ℕ → Option Rollbacker
unfolding push
create free none capacity = none
create free (some address) capacity =
    (push (some (record { capacity = capacity + 1; ops = [] })) (free_op free address)).1

-- A call that a rollback makes.
pub record Call : Type 0 where
  pub callee : ℕ
  pub with_args : List ℕ

abbrev pub arg : Op → ℕ → ℕ
arg op i = get_or op.args i 0

-- The `switch` over the number of arguments; an operation with another number of them is skipped.
unfoldable pub perform : Op → List Call
perform op =
    if op.args_count == 1
    then record { callee = op.function; with_args = arg op 0 ∷ [] } ∷ []
    else if op.args_count == 2
    then record { callee = op.function; with_args = arg op 0 ∷ arg op 1 ∷ [] } ∷ []
    else if op.args_count == 3
    then record { callee = op.function; with_args = arg op 0 ∷ arg op 1 ∷ arg op 2 ∷ [] } ∷ []
    else []

-- The loop, from `size` operations down.
unfoldable pub rollback_from : ℕ → List Op → List Call
rollback_from zero ops = []
rollback_from (suc size) ops =
    let rest = rollback_from size ops in
    elim (get_elem? ops size) [ none ↦ rest | some op ↦ perform op ++ rest ]

unfoldable pub rollback : Option Rollbacker → List Call
rollback none = []
rollback (some rbr) = rollback_from (length rbr.ops) rbr.ops
