-- ===== src/Predicate.antt =====
-- The predicates of mdv_storage/mdv_predicate.c: a compiled expression with the handlers that it
-- calls. The memory that a failed call leaves is not modelled, nor the rollbacker with its allocation,
-- whose failure the source does not test for.
pub mod Accepts
use medved_db.Base.{ℕ, List, [], ◌∷◌, Bool, true, Option, none, some, length, if◌then◌else◌}
use medved_db.Vector.{Vector}
use medved_db.Vector
use medved_db.Vm.{M}
use medved_db.Vm.Run.{predicate_fns, empty_predicate}

pub record Predicate : Type 0 where
  pub expr : Vector ℕ
  pub fns : List (M (Unit {0}))

-- What the append of the default program answers is not looked at.
abbrev pub with_program : Option (Bool × Vector ℕ) → Option Predicate
with_program none = none
with_program (some (appended, v)) = some (record { expr = v; fns = predicate_fns })

-- The text of the expression is not read (it is only logged): the default program is used. The
-- arguments say whether the predicate, and the header and the store of its vector, are allocated.
unfoldable pub predicate_parse : Bool → Bool → Bool → List ℕ → Option Predicate
predicate_parse allocated header store expression =
    if allocated
    then elim (Vector.create header store (length empty_predicate)) [
      | none ↦ none
      | some v ↦ with_program (Vector.append true v empty_predicate)
    ]
    else none
