-- ===== src/Predicate/Accepts.antt =====
-- What a run of a predicate of mdv_predicate.c answers.
use mathlib.Core.Path.{subst}
use medved_db.Base.{
  ℕ, suc, ◌+◌, ◌≤◌, ◌<◌, ◌≡◌, refl, sym, ◌∙◌, List, [], ◌∷◌, ◌++◌, Bool, true, false, not, some,
  arith, length, ◌==◌, ◌-◌, le_bytes,
}
use medved_db.Vm.{internal, Machine, done, contents, datum_size}
use medved_db.Vm.Ops.{result_as_bool, vm_true}
use medved_db.Vm.Run.{run, step, predicate_fns, empty_predicate, vm_end}
use medved_db.Vm.RoundTrip.{with_items, encode, stack_top-encode}
use medved_db.Vm.Programs.{Expr, lit, eval, code, rounds, room, Fits}
use medved_db.Vm.Instructions.{At, At-append}
use medved_db.Vm.Compiled.{eval-Computes}
use medved_db.Vector
use mathlib.Core.Option.{some-injective}
use medved_db.Predicate.{Predicate, predicate_parse}

-- The program of an expression with a value, followed by the end, runs to its end on any fuel above
-- the number of its instructions, and leaves that value on the stack and nothing else changed, if
-- the literals' sizes fit in four bytes and the stack has room for the program.
pub run-code :
    (e : Expr) (v : List ℕ) (fuel ip : ℕ) (m : Machine)
    → Fits e
    → eval e ≡ some v
    → At m.memory ip (code e ++ vm_end ∷ [])
    → length m.stack.items + room e ≤ m.stack.capacity
    → rounds e < fuel
    → run fuel predicate_fns ip m
      ≡ some (done tt, with_items m (m.stack.items ++ encode (internal v)))
unfolding run step
run-code e v fuel ip m small value at fits enough =
    let parts = At-append m.memory ip (code e) (vm_end ∷ []) at in
    eval-Computes e v small value fuel (suc (fuel - rounds e - 1)) ip m parts.0 fits (omega arith)
    ∙ rw parts.1.0 refl

-- A byte on top is read as false exactly if it is 0, and the machine is left as it is.
pub result_as_bool-encode :
    (x : ℕ) (m : Machine) (below : List ℕ)
    → m.stack.items ≡ below ++ encode (internal (x ∷ []))
    → result_as_bool m ≡ (done (not (x == 0)), m)
unfolding result_as_bool contents datum_size
result_as_bool-encode x m below e =
    rw (stack_top-encode (internal (x ∷ [])) m below (omega arith) e) refl

abbrev pub Accepts : Predicate → ℕ → Machine → Type 0
Accepts p ip m =
    (m' : Machine) × (run (length p.expr.items) p.fns ip m ≡ some (done tt, m'))
    × (result_as_bool m' ≡ (done true, m'))

default_Accepts :
    (ip capacity : ℕ) (m : Machine)
    → At m.memory ip empty_predicate
    → length m.stack.items + 6 ≤ m.stack.capacity
    → Accepts
        (record {
          expr = record { capacity = capacity; items = empty_predicate };
          fns = predicate_fns;
        })
        ip
        m
unfolding code eval room rounds le_bytes
default_Accepts ip capacity m at fits =
    let e : Expr = lit (vm_true ∷ []) in
    (
      with_items m (m.stack.items ++ encode (internal (vm_true ∷ []))),
      run-code e (vm_true ∷ []) 8 ip m (omega arith) refl at fits (omega arith),
      result_as_bool-encode vm_true _ m.stack.items refl,
    )

-- The text of a predicate is not parsed, and the default program is used for it: a predicate that
-- `mdv_predicate_parse` returns accepts every row. Its program, which stands somewhere in memory,
-- runs to the end in at most as many rounds as it has bytes, and the value that it leaves is read
-- as true, if the stack has room for six bytes.
pub predicate_parse-Accepts :
    (allocated header store : Bool) (text : List ℕ) (p : Predicate) (ip : ℕ) (m : Machine)
    → predicate_parse allocated header store text ≡ some p
    → At m.memory ip p.expr.items
    → length m.stack.items + 6 ≤ m.stack.capacity
    → Accepts p ip m
unfolding predicate_parse Vector.append Vector.resize_if_required Vector.grow
predicate_parse-Accepts false header store text p ip m e at fits = absurd (cc)
predicate_parse-Accepts true false store text p ip m e at fits = absurd (cc)
predicate_parse-Accepts true true false text p ip m e at fits = absurd (cc)
predicate_parse-Accepts true true true text p ip m e at fits =
    let same = some-injective _ _ e in
    let at' = subst (λ x. At m.memory ip x.expr.items) (sym same) at in
    subst (λ x. Accepts x ip m) same (default_Accepts ip 8 m at' fits)
