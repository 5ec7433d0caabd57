-- ===== src/Tests/Caches.antt =====
-- Runs of mdv_lrucache.c on a cache of one item.
use mathlib.Core.Path.{subst}
use medved_db.Base.{ℕ, ◌≡◌, refl, ap, sym, ◌∙◌, [], ◌∷◌, Bool, true, some, arith}
use medved_db.Hashmap.{Run, returns, faults, insert, make_room, unlink, push_new, add_entry}
use medved_db.Hashmap
use medved_db.Hashmap.Chain
use medved_db.Lru.{Cache, create, null_item, put, get}
use medved_db.Lru.Entries.{Item, at_id}
use medved_db.Lru.Invariant.{Inv, items, lookup, delete, spec_put, spec_get, create-Inv}
use medved_db.Lru.Put.{with_memory, put-refines}
use medved_db.Lru.Get.{get-refines}

abbrev item : ℕ → ℕ → Item
item k v = record { key = k; value = v }

abbrev new_cache : Cache
new_cache = record {
  capacity = 1;
  keys = record { capacity = 1; size = 0; key_offset = 0; key_size = 8; buckets = [] ∷ [] };
  values = [];
}

abbrev one : Cache
one = record {
  capacity = 1;
  keys = record {
    capacity = 1;
    size = 1;
    key_offset = 0;
    key_size = 8;
    buckets = (record { key = 5; entry = 100 } ∷ []) ∷ [];
  };
  values = record { id = 100; key = 5; value = 50 } ∷ [];
}

abbrev cache_of : Run (Bool × Item × Cache) → Cache
cache_of faults = new_cache
cache_of (returns (ok, old, c)) = c

first_put : put with_memory (some 100) new_cache (item 5 50) ≡ returns (true, null_item, one)
unfolding put insert make_room unlink push_new add_entry Hashmap.find Chain.find
first_put = refl

new_cache-Inv : Inv new_cache
unfolding create Hashmap.create
new_cache-Inv = (create-Inv 1 new_cache (omega arith) refl).0

one-Inv : Inv one
unfolding at_id
one-Inv =
    let (c, ran, shows, inv, cap) =
      put-refines new_cache (item 5 50) 100 new_cache-Inv (omega arith) refl in
    subst Inv (ap cache_of (sym ran ∙ first_put)) inv

-- The full cache gives up its only item.
put-refines_example :
    (c' : Cache) × (put with_memory (some 200) one (item 6 60) ≡ returns (true, item 5 50, c'))
    × (items c'.values ≡ item 6 60 ∷ [])
    × Inv c'
    × (c'.capacity ≡ 1)
unfolding at_id spec_put items lookup
put-refines_example = put-refines one (item 6 60) 200 one-Inv (omega arith) refl

get-refines_example :
    (c' : Cache) × (get one 5 ≡ returns (some 50, c'))
    × (items c'.values ≡ item 5 50 ∷ [])
    × Inv c'
    × (c'.capacity ≡ 1)
unfolding spec_get items lookup delete
get-refines_example = get-refines one 5 one-Inv
