-- ===== src/Tests/Maps.antt =====
-- Runs of mdv_hashmap.c on concrete maps.
use medved_db.Base.{
  ℕ, ◌+◌, ◌≤◌, ◌<◌, ◌≡◌, refl, [], ◌∷◌, Bool, true, false, Option, none, some, arith, sym, ap, ◌∙◌,
}
use medved_db.Hashmap.{
  Hashmap, Allocs, Run, returns, faults, create, insert, erase, find, resize, clear, make_room,
  unlink, push_new, add_entry, move_buckets, move_bucket,
}
use medved_db.Hashmap.Chain
use mathlib.Core.Path.{subst}
use medved_db.Hashmap.Placed.{update}
use medved_db.Hashmap.Refines.{Models, Kept, counted, create-Models}
use medved_db.Hashmap.Insert.{insert-Models, insert-refuses, erase-Models}
use medved_db.Hashmap.Clear.{clear-size}
use medved_db.Lru.{Ref, lru_keys}

abbrev ref_at : ℕ → ℕ → Ref
ref_at k id = record { key = k; entry = id }

abbrev new_map : Hashmap Ref
new_map = record { capacity = 1; size = 0; key_offset = 0; key_size = 8; buckets = [] ∷ [] }

abbrev one : Hashmap Ref
one = record {
  capacity = 1;
  size = 1;
  key_offset = 0;
  key_size = 8;
  buckets = (ref_at 5 9 ∷ []) ∷ [];
}

abbrev map_of : Run (Bool × Hashmap Ref) → Hashmap Ref
map_of faults = new_map
map_of (returns (stored, hm)) = hm

abbrev nothing : ℕ → Option Ref
nothing q = none

abbrev only_five : ℕ → Option Ref
only_five = update lru_keys nothing 5 (some (ref_at 5 9))

with_memory_at :
    insert lru_keys (record { table = true; entry = true }) new_map (ref_at 5 9) 16
    ≡ returns (true, one)
unfolding insert make_room unlink push_new add_entry Chain.find
with_memory_at = refl

-- A grown table: the second key needs a second bucket.
grown_at :
    insert lru_keys (record { table = true; entry = true }) one (ref_at 6 8) 16
    ≡ returns (
      true,
      record {
        capacity = 2;
        size = 2;
        key_offset = 0;
        key_size = 8;
        buckets = (ref_at 6 8 ∷ []) ∷ (ref_at 5 9 ∷ []) ∷ [];
      },
    )
unfolding insert make_room unlink push_new resize move_buckets move_bucket add_entry Chain.find
grown_at = refl

new_map-Models : Models lru_keys nothing new_map
unfolding create
new_map-Models = (create-Models lru_keys 1 0 8 new_map refl).0

one-Models : Models lru_keys only_five one
one-Models =
    let (hm, ran, m, size, kept) =
      insert-Models lru_keys nothing new_map (ref_at 5 9) 16 new_map-Models (omega arith)
        (omega arith) in
    subst (Models lru_keys only_five) (ap map_of (sym ran ∙ with_memory_at)) m

insert-Models_example :
    (hm' : Hashmap Ref) × (insert lru_keys
        (record { table = true; entry = true })
        one
        (ref_at 6 8)
        16
      ≡ returns (true, hm'))
    × Models lru_keys (update lru_keys only_five 6 (some (ref_at 6 8))) hm'
    × (hm'.size + counted (only_five 6) ≡ 2)
    × Kept one hm'
insert-Models_example =
    insert-Models lru_keys only_five one (ref_at 6 8) 16 one-Models (omega arith) (omega arith)

insert-refuses_example :
    ((allocs : Allocs) → 16 < 8 → insert lru_keys allocs one (ref_at 6 8) 16 ≡ returns (false, one))
    × ((entry : Bool)
        → 8 ≤ 16
        → 0 < 1
        → insert lru_keys (record { table = false; entry = entry }) one (ref_at 6 8) 16
          ≡ returns (false, one))
    × (8 ≤ 16
        → (hm' : Hashmap Ref) × (insert lru_keys
              (record { table = true; entry = false })
              one
              (ref_at 6 8)
              16
            ≡ returns (false, hm'))
          × Models lru_keys (update lru_keys only_five 6 none) hm')
insert-refuses_example =
    insert-refuses lru_keys only_five one (ref_at 6 8) 16 one-Models (omega arith)

abbrev no_buckets : Hashmap Ref
no_buckets = record { capacity = 0; size = 0; key_offset = 0; key_size = 8; buckets = [] }

no_buckets-Models : Models lru_keys nothing no_buckets
unfolding create
no_buckets-Models = (create-Models lru_keys 0 0 8 no_buckets refl).0

erase-Models_example :
    Models lru_keys (update lru_keys only_five 5 none) (erase lru_keys one 5).1
    × ((erase lru_keys one 5).1.size + 1 ≡ 1)
    × ((erase lru_keys one 5).0 ≡ true)
    × Kept one (erase lru_keys one 5).1
erase-Models_example = erase-Models lru_keys only_five one 5 one-Models

clear-size_example :
    ((q : ℕ) → find lru_keys (clear one) q ≡ none)
    × ((clear one).size ≡ 1)
    × ((g : ℕ → Option Ref) → ¬ Models lru_keys g (clear one))
clear-size_example = clear-size lru_keys only_five one one-Models (omega arith)
