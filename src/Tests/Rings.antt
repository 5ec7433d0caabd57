-- ===== src/Tests/Rings.antt =====
-- Runs of mdv_queue.c on a queue whose items go round the end of the ring.
use medved_db.Base.{
  ℕ, suc, zero, ◌*◌, ◌≤◌, ◌<◌, ◌≡◌, ◌≢◌, refl, List, [], ◌∷◌, true, false, none, some, arith,
  get_elem?,
}
use medved_db.Queue.{Queue, items_count, push_multiple, pop_multiple}
use medved_db.Queue.Ring.{Holds, slot}
use medved_db.Queue.Push.{push_multiple-Holds}
use medved_db.Queue.Pop.{pop_multiple-Holds}

abbrev held : List ℕ
held = 7 ∷ 8 ∷ []

abbrev ring : Queue ℕ
ring = record { capacity = 4; item_size = 8; head = 3; tail = 0; slots = 0 ∷ 0 ∷ 0 ∷ 7 ∷ 8 ∷ [] }

ring-reads : (i : ℕ) → i < 2 → get_elem? ring.slots (slot 5 3 i) ≡ get_elem? (7 ∷ 8 ∷ []) i
unfolding slot
ring-reads zero h = refl
ring-reads (suc zero) h = refl
ring-reads (suc (suc i)) h = absurd (omega arith)

ring-Holds : Holds (7 ∷ 8 ∷ []) ring
unfolding slot
ring-Holds = record {
  width = refl;
  head_lt = omega arith;
  fits = omega arith;
  tail_at = refl;
  reads = ring-reads;
}

push_multiple-Holds_example :
    (4 ≤ 4
      → (push_multiple ring (1 ∷ 2 ∷ []) 16).0 ≡ true
        × Holds (7 ∷ 8 ∷ 1 ∷ 2 ∷ []) (push_multiple ring (1 ∷ 2 ∷ []) 16).1)
    × (4 < 4 → push_multiple ring (1 ∷ 2 ∷ []) 16 ≡ (false, ring))
    × ((bytes : ℕ)
        → bytes ≢ items_count ring bytes * 8
        → push_multiple ring (1 ∷ 2 ∷ []) bytes ≡ (false, ring))
push_multiple-Holds_example =
    push_multiple-Holds (7 ∷ 8 ∷ []) (1 ∷ 2 ∷ []) ring ring-Holds (omega arith)

pop_multiple-Holds_example :
    (2 ≤ 2 → (pop_multiple ring 16).0 ≡ some (7 ∷ 8 ∷ []) × Holds [] (pop_multiple ring 16).1)
    × (2 < 2 → pop_multiple ring 16 ≡ (none, ring))
    × ((bytes : ℕ) → bytes ≢ items_count ring bytes * 8 → pop_multiple ring bytes ≡ (none, ring))
pop_multiple-Holds_example = pop_multiple-Holds (7 ∷ 8 ∷ []) ring 2 ring-Holds (omega arith)
