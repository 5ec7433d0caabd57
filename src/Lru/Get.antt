-- ===== src/Lru/Get.antt =====
-- `mdv_lrucache_get` of mdv_lrucache.c against the bounded list of items.
use medved_db.Base.{
  ℕ, ◌≡◌, refl, ap, ◌∙◌, List, [], ◌∷◌, ◌++◌, none, some, arith, Option-cases, inl, inr,
}
use medved_db.Hashmap.{returns}
use medved_db.Hashmap
use medved_db.Hashmap.Refines.{find-Models}
use medved_db.Lru.{Cache, lru_keys, get, to_back}
use medved_db.Lru.Entries.{Entry, by_key, take_out, at_id-by_key}
use medved_db.Lru.Invariant.{
  Inv, items, spec_get, refs, ref_of, Models-ext, move-Moved, lookup-items, lookup-items_none,
}

-- A lookup answers as in the list of items, makes the item that it finds the most recently used one,
-- and keeps the invariant.
pub get-refines :
    (c : Cache) (k : ℕ)
    → Inv c
    → (c' : Cache) × (get c k ≡ returns ((spec_get k (items c.values)).0, c'))
      × (items c'.values ≡ (spec_get k (items c.values)).1)
      × Inv c'
      × (c'.capacity ≡ c.capacity)
unfolding get to_back spec_get
get-refines c k inv =
    let found : Hashmap.find lru_keys c.keys k ≡ refs c.values k =
      find-Models lru_keys (refs c.values) c.keys k inv.models in
    elim (Option-cases (by_key k c.values)) [
      | inl e ↦
          let miss : Hashmap.find lru_keys c.keys k ≡ none = found ∙ ap ref_of e in
          (
            c,
            ground (arith, miss, lookup-items_none k c.values e),
            ground (arith, lookup-items_none k c.values e),
            inv,
            refl,
          )
      | inr (x, e) ↦
          let hit : Hashmap.find lru_keys c.keys k ≡ some (record { key = x.key; entry = x.id }) =
            found ∙ ap ref_of e in
          let (by_id, is_k) = at_id-by_key k c.values x inv.distinct e in
          let m = move-Moved k (x.value) c.values x inv.distinct e in
          let back : List Entry =
            take_out (x.id) c.values ++ record { id = x.id; key = k; value = x.value } ∷ [] in
          (
            record c { values = back },
            ground (arith, hit, by_id, is_k, lookup-items k c.values x e),
            ground (arith, m.shows, lookup-items k c.values x e),
            record {
              models = Models-ext (refs c.values) (refs back) c.keys m.reads inv.models;
              counted = omega (arith, inv.counted, m.long);
              within = omega (arith, inv.within, m.long);
              distinct = m.distinct;
              layout = inv.layout;
              buckets = inv.buckets;
            },
            refl,
          )
    ]
