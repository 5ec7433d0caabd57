-- ===== src/Lru/Put.antt =====
-- `mdv_lrucache_put` of mdv_lrucache.c against the bounded list of items.
use medved_db.Base.{
  ℕ, ◌≤◌, ◌<◌, ◌≡◌, ◌≢◌, refl, ap, sym, List, [], ◌∷◌, ◌++◌, Bool, true, Option, none, some, arith,
  ltb, length, length-append, Option-cases, Bool-cases, inl, inr,
}
use mathlib.Core.Path.{subst}
use medved_db.Hashmap.{Hashmap, Allocs, Run, returns}
use medved_db.Hashmap
use medved_db.Hashmap.Placed.{update}
use medved_db.Hashmap.Refines.{find-Models}
use medved_db.Hashmap.Insert.{insert-Models, erase-Models}
use medved_db.Lru.{Cache, Ref, lru_keys, ref_size, put, put_at, put_known, put_new, evict, to_back}
use medved_db.Lru.Entries.{
  Item, Entry, by_key, at_id, take_out, store, Distinct, at_id-by_key, store-push,
  at_id-take_out_self, push-Distinct, by_key-push,
}
use medved_db.Lru.Invariant.{
  Inv, items, spec_put, refs, ref_of, Models-ext, move-Moved, lookup-items, lookup-items_none,
  items-push, length-items,
}

-- Memory is there for a grown table and for an entry of the hash map.
abbrev pub with_memory : Allocs
with_memory = record { table = true; entry = true }

-- The call succeeds, does what the specification does, and keeps the invariant.
abbrev pub Refined : Cache → Item → Run (Bool × Item × Cache) → Type 0
Refined c new r =
    (c' : Cache) × (r ≡ returns (true, (spec_put c.capacity new (items c.values)).0, c'))
    × (items c'.values ≡ (spec_put c.capacity new (items c.values)).1)
    × Inv c'
    × (c'.capacity ≡ c.capacity)

known-Refined :
    (c : Cache) (new : Item) (e : Entry)
    → Inv c
    → by_key (new.key) c.values ≡ some e
    → Refined c new (put_known c new (at_id (e.id) c.values) (record { key = e.key; entry = e.id }))
unfolding to_back spec_put
known-Refined c new e inv h =
    let (by_id, is_k) = at_id-by_key (new.key) c.values e inv.distinct h in
    let m = move-Moved (new.key) (new.value) c.values e inv.distinct h in
    let gone = at_id-take_out_self (e.id) c.values inv.distinct in
    let back : List Entry =
      take_out (e.id) c.values ++ record { id = e.id; key = new.key; value = new.value } ∷ [] in
    let stored = store-push (take_out (e.id) c.values) e (e.key) (new.value) gone in
    (
      record c { values = back },
      ground (arith, by_id, is_k, stored, lookup-items (new.key) c.values e h),
      ground (arith, m.shows, lookup-items (new.key) c.values e h),
      record {
        models = Models-ext (refs c.values) (refs back) c.keys m.reads inv.models;
        counted = omega (arith, inv.counted, m.long);
        within = omega (arith, inv.within, m.long);
        distinct = m.distinct;
        layout = inv.layout;
        buckets = inv.buckets;
      },
      refl,
    )

new-Refined :
    (c : Cache) (new : Item) (id : ℕ)
    → Inv c
    → by_key (new.key) c.values ≡ none
    → at_id id c.values ≡ none
    → length c.values < c.capacity
    → Refined c new (put_new with_memory (some id) c new)
unfolding spec_put
new-Refined c new id inv absent fresh room =
    let ref : Ref = record { key = new.key; entry = id } in
    let e : Entry = record { id = id; key = new.key; value = new.value } in
    let (hm, ran, m, size, kept) =
      insert-Models lru_keys (refs c.values) c.keys ref ref_size inv.models inv.buckets
        inv.layout in
    let unknown : refs c.values (new.key) ≡ none = ap ref_of absent in
    let long = length-append c.values (e ∷ []) in
    (
      record c { keys = hm; values = c.values ++ e ∷ [] },
      ground (arith, ran, lookup-items_none (new.key) c.values absent, length-items c.values),
      ground (
        arith,
        lookup-items_none (new.key) c.values absent,
        length-items c.values,
        items-push c.values e,
      ),
      record {
        models =
            Models-ext (update lru_keys (refs c.values) (new.key) (some ref))
              (refs (c.values ++ e ∷ [])) hm (λ q. ground (arith, by_key-push q c.values e absent))
              m;
        counted = ground (arith, size, unknown, inv.counted, long);
        within = omega (arith, long);
        distinct = push-Distinct c.values e inv.distinct fresh absent;
        layout = omega (arith, kept.offset, kept.key_width, inv.layout);
        buckets = omega (arith, kept.grows, inv.buckets);
      },
      refl,
    )

evict-Refined :
    (c : Cache) (new : Item) (first : Entry) (rest : List Entry)
    → Inv c
    → c.values ≡ first ∷ rest
    → by_key (new.key) c.values ≡ none
    → c.capacity ≤ length c.values
    → Refined c new (evict with_memory c new (first ∷ rest))
unfolding spec_put to_back at_id take_out store
evict-Refined c new first rest inv split absent full =
    let ref : Ref = record { key = new.key; entry = first.id } in
    let e : Entry = record { id = first.id; key = new.key; value = new.value } in
    let before : ℕ → Option Ref = update lru_keys (refs c.values) (new.key) (some ref) in
    let (hm, ran, m, size, kept) =
      insert-Models lru_keys (refs c.values) c.keys ref ref_size inv.models inv.buckets
        inv.layout in
    let (m', size', was, kept') = erase-Models lru_keys before hm (first.key) m in
    let unknown : refs c.values (new.key) ≡ none = ap ref_of absent in
    let distinct : Distinct (first ∷ rest) = subst Distinct split inv.distinct in
    let (no_id, no_key, apart) = distinct in
    let absent' : by_key (new.key) (first ∷ rest) ≡ none =
      subst (λ es. by_key (new.key) es ≡ none) split absent in
    let parted : (new.key ≢ first.key) × (by_key (new.key) rest ≡ none) =
      unfold by_key in ground arith in
    let shown : c.values ≡ first ∷ rest = split in
    let old_there : before (first.key) ≡ some (record { key = first.key; entry = first.id }) =
      unfold by_key in ground (arith, shown, parted) in
    let oldest : Item = record { key = first.key; value = first.value } in
    let in_order : items c.values ≡ oldest ∷ items rest = unfold items in ap items split in
    let back : to_back (first.id) (store (first.id) (new.key) (new.value) c.values)
        ≡ rest ++ e ∷ [] =
      ground (arith, shown) in
    let long = length-append rest (e ∷ []) in
    let none_there = lookup-items_none (new.key) c.values absent in
    let hm' : Hashmap Ref = (Hashmap.erase lru_keys hm (first.key)).1 in
    (
      record c { keys = hm'; values = rest ++ e ∷ [] },
      ground (arith, ran, none_there, in_order, back, length-items c.values),
      ground (arith, none_there, in_order, length-items c.values, items-push rest e),
      record {
        models =
            Models-ext (update lru_keys before (first.key) none) (refs (rest ++ e ∷ [])) hm'
              (λ q. unfold by_key in ground (arith, by_key-push q rest e (parted.1), shown, no_key))
              m';
        counted = ground (arith, size, size', unknown, inv.counted, long, shown, old_there);
        within = ground (arith, long, shown, inv.within);
        distinct = push-Distinct rest e apart no_id (parted.1);
        layout =
            omega (arith, kept.offset, kept.key_width, kept'.offset, kept'.key_width, inv.layout);
        buckets = omega (arith, kept.grows, kept'.grows, inv.buckets);
      },
      refl,
    )

oldest-cases :
    (es : List Entry) → 0 < length es → (e : Entry) × (rest : List Entry) × (es ≡ e ∷ rest)
oldest-cases [] h = absurd (omega arith)
oldest-cases (e ∷ es) h = (e, es, refl)

unknown-Refined :
    (c : Cache) (new : Item) (id : ℕ)
    → Inv c
    → 0 < c.capacity
    → at_id id c.values ≡ none
    → by_key (new.key) c.values ≡ none
    → Refined c new (put_at with_memory (some id) c new none)
unknown-Refined c new id inv pos fresh absent = elim (Bool-cases (ltb c.keys.size c.capacity)) [
  | inl e ↦ rw e (new-Refined c new id inv absent fresh (ground (arith, inv.counted)))
  | inr e ↦
      let full : c.capacity ≤ length c.values = ground (arith, inv.counted) in
      let (first, rest, split) = oldest-cases c.values (omega arith) in
      let done = evict-Refined c new first rest inv split absent full in
      rw e (subst (λ es. Refined c new (evict with_memory c new es)) (sym split) done)
]

-- With memory, and with an address for a new entry that no entry of the list has, a put into a cache
-- of at least one item succeeds: the item is the most recently used one, the item that it replaces
-- or, in a full cache, the one that was used the longest time ago is handed out and gone, the other
-- items are as before and in their order, and the invariant is kept.
pub put-refines :
    (c : Cache) (new : Item) (id : ℕ)
    → Inv c
    → 0 < c.capacity
    → at_id id c.values ≡ none
    → (c' : Cache) × (put with_memory (some id) c new
        ≡ returns (true, (spec_put c.capacity new (items c.values)).0, c'))
      × (items c'.values ≡ (spec_put c.capacity new (items c.values)).1)
      × Inv c'
      × (c'.capacity ≡ c.capacity)
unfolding put
put-refines c new id inv pos fresh =
    let found = find-Models lru_keys (refs c.values) c.keys (new.key) inv.models in
    elim (Option-cases (by_key (new.key) c.values)) [
      | inl e ↦ rw (found, e) (unknown-Refined c new id inv pos fresh e)
      | inr (x, e) ↦ rw (found, e) (known-Refined c new x inv e)
    ]
