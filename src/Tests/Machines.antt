-- ===== src/Tests/Machines.antt =====
-- Runs of mdv_vm.c and mdv_predicate.c on concrete programs.
use medved_db.Base.{
  of_le, ℕ, ◌≡◌, refl, List, [], ◌∷◌, ◌++◌, true, false, some, arith, get_or, le_bytes,
}
use medved_db.Vm.{
  internal, external, Machine, done, fail, push_bytes, datum_size, stack_push, stack_pop, payload,
  contents, read,
}
use medved_db.Errno.{stack_overflow}
use medved_db.Stack.{push_multiple}
use medved_db.Vm.Run.{run, step, predicate_fns, vm_end}
use medved_db.Vm.RoundTrip.{with_items, encode, stack_pop-stack_push}
use medved_db.Vm.Safety.{Bounded, EndsBounded, Visits, run-predicate-Bounded}
use medved_db.Vm.Order.{Operands, gt_cmp, handler, verdict, lex, bool_datum, handler-lex}
use medved_db.Vm.Programs.{Expr, lit, compare_with, code, eval, room, rounds, handler_id}
use medved_db.Predicate.{Predicate, predicate_parse}
use medved_db.Vector
use medved_db.Predicate.Accepts.{run-code, Accepts, predicate_parse-Accepts}

abbrev machine : List ℕ → List ℕ → Machine
machine items program = record {
  stack = record { capacity = 64; items = items };
  memory = λ a. get_or program a 0;
}

-- 7 > 5
abbrev seven_over_five : Expr
seven_over_five = compare_with gt_cmp (lit (7 ∷ [])) (lit (5 ∷ []))

run-code_example :
    run 4 predicate_fns 0 (machine [] (code seven_over_five ++ vm_end ∷ []))
    ≡ some (
      done tt,
      with_items
          (machine [] (code seven_over_five ++ vm_end ∷ []))
          ([] ++ encode (internal (255 ∷ []))),
    )
unfolding code eval room rounds verdict lex handler_id le_bytes
run-code_example =
    run-code seven_over_five (255 ∷ []) 4 0 (machine [] (code seven_over_five ++ vm_end ∷ []))
      (omega arith, omega arith) refl
      (
        refl,
        (
          refl,
          (
            refl,
            (
              refl,
              (
                refl,
                (
                  refl,
                  (
                    refl,
                    (
                      refl,
                      (
                        refl,
                        (refl, (refl, (refl, (refl, (refl, (refl, (refl, (refl, (refl, tt))))))))),
                      ),
                    ),
                  ),
                ),
              ),
            ),
          ),
        ),
      )
      (omega arith) (omega arith)

-- Two pushes of a byte on a stack with room for one: the second one is refused.
abbrev two_pushes : Machine
two_pushes = record {
  stack = record { capacity = 8; items = 5 ∷ [] };
  memory = λ a. get_or (1 ∷ 0 ∷ 1 ∷ 0 ∷ 0 ∷ 0 ∷ 7 ∷ 1 ∷ 0 ∷ 1 ∷ 0 ∷ 0 ∷ 0 ∷ 9 ∷ 255 ∷ []) a 0;
}

abbrev full_after : Machine
full_after = with_items two_pushes (5 ∷ 7 ∷ 1 ∷ 0 ∷ 0 ∷ 0 ∷ 0 ∷ 9 ∷ [])

run-two_pushes : run 3 predicate_fns 0 two_pushes ≡ some (fail stack_overflow, full_after)
unfolding run step stack_push push_bytes push_multiple le_bytes of_le read payload datum_size
run-two_pushes = refl

run-predicate-Bounded_example :
    EndsBounded 8 (run 3 predicate_fns 0 two_pushes)
    × ((m' : Machine) → Visits predicate_fns m' 0 two_pushes → Bounded 8 m')
run-predicate-Bounded_example =
    run-predicate-Bounded 3 0 8 two_pushes (record { capacity = refl; within = omega arith })

-- 2, 7 and then 2, 9 on the stack, the second one outside it.
abbrev two_items : Machine
two_items =
    machine (([] ++ encode (internal (2 ∷ 7 ∷ []))) ++ encode (external 2 1)) (0 ∷ 2 ∷ 9 ∷ [])

two_items-Operands : Operands (internal (2 ∷ 7 ∷ [])) (external 2 1) [] two_items
unfolding encode payload le_bytes
two_items-Operands = record {
  first = omega arith;
  second = (omega arith, omega arith);
  stacked = refl;
  within = omega arith;
}

handler-lex_example :
    handler gt_cmp two_items ≡ (done tt, with_items two_items ([] ++ encode (bool_datum false)))
unfolding contents verdict lex read
handler-lex_example = handler-lex two_items-Operands gt_cmp

stack_pop-stack_push_example :
    ((stack_push (external 9 258) (machine (3 ∷ []) [])).0 ≡ done tt)
    × (stack_pop (stack_push (external 9 258) (machine (3 ∷ []) [])).1
        ≡ (done (external 9 258), machine (3 ∷ []) []))
unfolding payload le_bytes
stack_pop-stack_push_example =
    stack_pop-stack_push (external 9 258) (machine (3 ∷ []) []) (omega arith, omega arith)
      (omega arith)

abbrev with_predicate : Machine
with_predicate = machine (6 ∷ []) (1 ∷ 0 ∷ 1 ∷ 0 ∷ 0 ∷ 0 ∷ 255 ∷ 255 ∷ [])

abbrev default_predicate : Predicate
default_predicate = record {
  expr = record { capacity = 8; items = 1 ∷ 0 ∷ 1 ∷ 0 ∷ 0 ∷ 0 ∷ 255 ∷ 255 ∷ [] };
  fns = predicate_fns;
}

predicate_parse-Accepts_example : Accepts default_predicate 0 with_predicate
unfolding predicate_parse Vector.append Vector.resize_if_required Vector.grow
predicate_parse-Accepts_example =
    predicate_parse-Accepts true true true (65 ∷ 66 ∷ []) default_predicate 0 with_predicate refl
      (refl, (refl, (refl, (refl, (refl, (refl, (refl, (refl, tt)))))))) (omega arith)
