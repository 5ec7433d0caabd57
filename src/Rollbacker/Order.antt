-- ===== src/Rollbacker/Order.antt =====
-- The order in which mdv_rollbacker.c undoes.
use medved_db.Base.{
  ℕ, zero, suc, ◌+◌, ◌≤◌, ◌<◌, ◌≡◌, refl, List, [], ◌∷◌, ◌++◌, append_assoc, append-nil, Bool, true,
  false, Option, some, if◌then◌else◌, length, get_elem?, arith, length-append,
}
use medved_db.Rollbacker.{
  Op, Rollbacker, push, create, free_op, Call, perform, rollback, rollback_from,
}

-- All of the operations, one push each; whether each of them was stored.
unfoldable pub push_all : Option Rollbacker → List Op → Bool × Option Rollbacker
push_all rbr [] = (true, rbr)
push_all rbr (op ∷ ops) =
    let (stored, rbr₁) = push rbr op in
    let rest = push_all rbr₁ ops in if stored then rest else (false, rbr₁)

-- The calls of the last operation first.
unfoldable pub undo : List Op → List Call
undo [] = []
undo (op ∷ ops) = undo ops ++ perform op

push_all-room :
    (capacity : ℕ) (ops new : List Op)
    → length ops + length new ≤ capacity
    → push_all (some (record { capacity = capacity; ops = ops })) new
      ≡ (true, some (record { capacity = capacity; ops = ops ++ new }))
unfolding push_all push
push_all-room capacity ops [] h = ground (arith, append-nil ops)
push_all-room capacity ops (op ∷ new) h = ground (
  arith,
  push_all-room capacity (ops ++ op ∷ []) new (omega (arith, length-append ops (op ∷ []))),
  append_assoc ops (op ∷ []) new,
)

get_elem?-last : (ops : List Op) (op : Op) → get_elem? (ops ++ op ∷ []) (length ops) ≡ some op
get_elem?-last [] op = refl
get_elem?-last (o ∷ ops) op = get_elem?-last ops op

get_elem?-front :
    (ops new : List Op) (i : ℕ) → i < length ops → get_elem? (ops ++ new) i ≡ get_elem? ops i
get_elem?-front [] new i h = absurd (omega arith)
get_elem?-front (o ∷ ops) new zero h = refl
get_elem?-front (o ∷ ops) new (suc i) h = get_elem?-front ops new i (omega arith)

rollback_from-front :
    (n : ℕ) (ops new : List Op)
    → n ≤ length ops
    → rollback_from n (ops ++ new) ≡ rollback_from n ops
unfolding rollback_from
rollback_from-front zero ops new h = refl
rollback_from-front (suc n) ops new h =
    ground (arith, get_elem?-front ops new n, rollback_from-front n ops new)

rollback_from-undo :
    (n : ℕ) (before later : List Op)
    → n ≡ length before + length later
    → rollback_from n (before ++ later) ≡ undo later ++ rollback_from (length before) before
unfolding undo
rollback_from-undo n before [] e = ground (arith, append-nil before)
rollback_from-undo n before (op ∷ later) e =
    let all : List Op = before ++ op ∷ [] in
    let split : all ++ later ≡ before ++ op ∷ later = append_assoc before (op ∷ []) later in
    let long : length all ≡ suc (length before) = omega (arith, length-append before (op ∷ [])) in
    let last : rollback_from (suc (length before)) all
        ≡ perform op ++ rollback_from (length before) before =
      unfold rollback_from in
      ground
        (arith, get_elem?-last before op, rollback_from-front (length before) before (op ∷ [])) in
    ground (
      arith,
      split,
      long,
      last,
      rollback_from-undo n all later,
      append_assoc (undo later) (perform op) (rollback_from (length before) before),
    )

-- A rollbacker that was made for so many operations stores as many, and a rollback makes the call of
-- the last one first; the call that frees the rollbacker is the last.
pub rollback-undo :
    (free address capacity : ℕ) (ops : List Op)
    → length ops ≤ capacity
    → ((push_all (create free (some address) capacity) ops).0 ≡ true)
      × (rollback (push_all (create free (some address) capacity) ops).1
          ≡ undo ops ++ record { callee = free; with_args = address ∷ [] } ∷ [])
unfolding create push rollback
rollback-undo free address capacity ops h =
    let first : List Op = free_op free address ∷ [] in
    let stored = push_all-room (capacity + 1) first ops (omega arith) in
    let undone = rollback_from-undo (length (first ++ ops)) first ops (length-append first ops) in
    let freed : rollback_from 1 first ≡ record { callee = free; with_args = address ∷ [] } ∷ [] =
      unfold rollback_from perform in refl in
    (ground (arith, stored), ground (arith, stored, undone, freed))
