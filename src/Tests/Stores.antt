-- ===== src/Tests/Stores.antt =====
-- Runs of mdv_trlog.c, mdv_syncerlog.c and mdv_2pset.c.
use medved_db.Base.{
  ℕ, ◌+◌, ◌<◌, ◌≡◌, ◌⊎◌, refl, List, [], ◌∷◌, ◌++◌, Bool, true, false, none, some, arith, length,
  ◌==◌, if◌then◌else◌,
}
use medved_db.Lmdb.Engine.{Bytes, value_of, at_least, last_of}
use medved_db.Trlog.{Op, Trlog, trlog_map, add, add_op, apply, init, applied_pos_set, word}
use medved_db.Trlog.Append.{all_works, Numbered, Extends, first, add-Extends, add-get, add_op-next}
use medved_db.Trlog.Loops.{handed, Refuses, accepts, pairs}
use medved_db.Trlog.Apply.{apply-hands_out}
use medved_db.Trlog.Drain.{pending, apply_times, apply-drains}
use medved_db.Trlog.Init.{init-resumes}
use medved_db.Syncerlog.{Syncerlog, schedule}
use medved_db.Syncerlog.Ranges.{Covers, schedule-Covers}
use medved_db.Syncerlog.Delivery.{deliver, sync-converges}
use medved_db.Pset.{Pset, get, add_batch, removed_map, reserve_ids_range}
use medved_db.Pset.Add.{add-found}
use medved_db.Pset.Batch.{first_of, add_batch-found}
use medved_db.Pset.Aborted.{add_batch-nothing}
use medved_db.Pset.Idgen.{Resumes, reserve-Resumes}
use medved_db.Tests.Engine.{Store, engine, cursors, get_of, entries_of, insert_entry}

-- Operations 0, 1 and 3.
abbrev three : Store
three = (0, 3, 7 ∷ []) ∷ (0, 1, 5 ∷ []) ∷ (0, 0, 4 ∷ []) ∷ []

abbrev log : Trlog Store
log = record { storage = three; top = 4; applied = 0 }

init-resumes_example :
    Numbered engine three (init engine cursors all_works three).top
    × ((init engine cursors all_works (applied_pos_set engine all_works log 3).storage).applied ≡ 3)
unfolding entries_of insert_entry
init-resumes_example =
    init-resumes engine cursors log 3 (omega arith, (omega arith, (omega arith, tt))) (omega arith)

three-Numbered : Numbered engine three 4
unfolding entries_of insert_entry init last_of word
three-Numbered =
    (init-resumes engine cursors log 3 (omega arith, (omega arith, (omega arith, tt)))
      (omega arith)).0

abbrev op_two : Op
op_two = record { id = 2; op = 6 ∷ [] }

add-Extends_example :
    Extends engine three 4
      (add engine all_works log (op_two ∷ [])).2.storage
      (add engine all_works log (op_two ∷ [])).2.top
    × Numbered engine
        (add engine all_works log (op_two ∷ [])).2.storage
        (add engine all_works log (op_two ∷ [])).2.top
    × ((add engine all_works log (op_two ∷ [])).2.applied ≡ 0)
add-Extends_example =
    add-Extends engine all_works log (op_two ∷ []) three-Numbered (omega arith, tt)

add-get_example :
    ((add engine all_works log (op_two ∷ [])).0 ≡ true)
    × (get_of (add engine all_works log (op_two ∷ [])).2.storage trlog_map 2 ≡ some (6 ∷ []))
unfolding entries_of insert_entry value_of first
add-get_example = add-get engine log (op_two ∷ []) 2

add_op-next_example :
    (add_op engine all_works log (9 ∷ [])
      ≡ (true, true, record { storage = (0, 4, 9 ∷ []) ∷ three; top = 5; applied = 0 }))
    × Extends engine three 4 ((0, 4, 9 ∷ []) ∷ three) 5
    × Numbered engine ((0, 4, 9 ∷ []) ∷ three) 5
add_op-next_example = add_op-next engine log (9 ∷ []) three-Numbered (omega arith)

-- Accepts all but the operation 5, and counts the calls.
abbrev but_five : ℕ → Bytes → Bool × ℕ
but_five n v = elim v [
  | [] ↦ (true, n + 1)
  | x ∷ xs ↦ if x == 5 then (false, n + 1) else (true, n + 1)
]

abbrev any : ℕ → Bytes → Bool × ℕ
any n v = (true, n + 1)

apply-hands_out_example :
    (taken refused : List Op) × (behind : List (ℕ × Bytes)) × (accepts but_five 0 taken ≡ true)
    × Refuses but_five (handed but_five 0 taken) refused
    × ((apply engine cursors all_works all_works log 2 0 but_five).1
        ≡ handed but_five 0 (taken ++ refused))
    × (at_least 0 (entries_of three trlog_map) ≡ pairs (taken ++ refused) ++ behind)
    × ((apply engine cursors all_works all_works log 2 0 but_five).0 ≡ length taken)
    × (at_least 0 (entries_of three trlog_map)
        ≡ pairs taken
          ++ at_least
              (apply engine cursors all_works all_works log 2 0 but_five).2.applied
              (entries_of three trlog_map))
    × ((apply engine cursors all_works all_works log 2 0 but_five).2.top ≡ 4)
    × (entries_of (apply engine cursors all_works all_works log 2 0 but_five).2.storage trlog_map
        ≡ entries_of three trlog_map)
apply-hands_out_example =
    apply-hands_out engine cursors all_works all_works log 2 0 but_five three-Numbered

apply-drains_example : pending engine cursors (apply_times engine cursors 3 log 2 0 any) ≡ []
unfolding entries_of insert_entry at_least
apply-drains_example =
    apply-drains engine cursors 3 log 2 0 any three-Numbered (omega arith) (λ a v. refl)
      (omega arith)

abbrev syncerlog : Syncerlog
syncerlog = record { requests = 1; synced = 1; batch_size = 2 }

schedule-Covers_example :
    (jobs : List (ℕ × ℕ)) × (schedule (λ j. true) syncerlog 4 1
      ≡ some (true, jobs, record { requests = 0; synced = 4; batch_size = 2 }))
    × Covers 2 1 jobs 4
schedule-Covers_example =
    schedule-Covers syncerlog 4 1 (omega arith) (omega arith) (omega arith) (omega arith)

abbrev peer : Trlog Store
peer = record { storage = (0, 0, 4 ∷ []) ∷ []; top = 1; applied = 1 }

peer_part :
    (q : ℕ) (v : Bytes)
    → get_of peer.storage trlog_map q ≡ some v
    → get_of three trlog_map q ≡ some v
unfolding entries_of insert_entry value_of
peer_part q v h = ground (arith, h)

peer_front : (q : ℕ) → q < 1 → get_of peer.storage trlog_map q ≡ get_of three trlog_map q
unfolding entries_of insert_entry value_of
peer_front q h = ground (arith, h)

sync-converges_example :
    (jobs : List (ℕ × ℕ)) × (schedule (λ j. true) syncerlog 4 1
      ≡ some (true, jobs, record { requests = 0; synced = 4; batch_size = 2 }))
    × ((q : ℕ)
        → get_of (deliver engine cursors log peer jobs).storage trlog_map q
          ≡ get_of three trlog_map q)
sync-converges_example =
    sync-converges engine cursors syncerlog log peer (omega arith) (omega arith) three-Numbered
      (omega arith) (omega arith) peer_part peer_front

-- Objects 0 and 3, of which 3 was removed, as 9 was.
abbrev objects : Pset Store
objects = record {
  storage = (1, 9, 1 ∷ []) ∷ (1, 3, 1 ∷ []) ∷ (0, 3, 7 ∷ []) ∷ (0, 0, 4 ∷ []) ∷ [];
  idgen = 12;
}

add-found_example :
    ((medved_db.Pset.add engine all_works objects 5 (8 ∷ [])).0 ≡ none)
    × (get engine all_works (medved_db.Pset.add engine all_works objects 5 (8 ∷ [])).1 5
        ≡ some (8 ∷ []))
    × ((medved_db.Pset.add engine all_works objects 5 (8 ∷ [])).1.idgen ≡ 12)
unfolding entries_of insert_entry value_of
add-found_example = add-found engine objects 5 (8 ∷ []) 5

add_batch-found_example :
    ((add_batch engine all_works objects ((0, 1 ∷ []) ∷ (5, 2 ∷ []) ∷ (5, 6 ∷ []) ∷ [])).0 ≡ none)
    × (get engine all_works
          (add_batch engine all_works objects ((0, 1 ∷ []) ∷ (5, 2 ∷ []) ∷ (5, 6 ∷ []) ∷ [])).1
          5
        ≡ some (2 ∷ []))
    × ((add_batch engine all_works objects ((0, 1 ∷ []) ∷ (5, 2 ∷ []) ∷ (5, 6 ∷ []) ∷ [])).1.idgen
        ≡ 12)
unfolding entries_of insert_entry value_of first_of
add_batch-found_example =
    add_batch-found engine objects ((0, 1 ∷ []) ∷ (5, 2 ∷ []) ∷ (5, 6 ∷ []) ∷ []) 5
      (refl, (refl, (refl, tt)))

add_batch-nothing_example :
    (add_batch engine all_works objects ((5, 2 ∷ []) ∷ (3, 6 ∷ []) ∷ (7, 8 ∷ []) ∷ [])).1 ≡ objects
unfolding entries_of insert_entry value_of
add_batch-nothing_example =
    add_batch-nothing engine all_works objects ((5, 2 ∷ []) ∷ []) ((7, 8 ∷ []) ∷ []) 3 (6 ∷ [])
      (1 ∷ []) refl refl

reserve-Resumes_example :
    (reserve_ids_range engine true all_works 0 objects 8 ≡ (none, objects))
    ⊎ Resumes engine 0 objects 8 (reserve_ids_range engine true all_works 0 objects 8)
reserve-Resumes_example = reserve-Resumes engine true all_works 0 objects 8 refl (omega arith)
