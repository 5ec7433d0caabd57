-- ===== src/Hashmap/Insert.antt =====
-- `mdv_hashmap_insert` and `mdv_hashmap_erase` of mdv_hashmap.c, on every branch.
use medved_db.Base.{
  ℕ, ◌+◌, ◌*◌, ◌/◌, ◌≤◌, ◌<◌, ◌≡◌, refl, ap, sym, ◌∙◌, Bool, true, false, Option, none, some, arith,
  ◌==◌, inl, inr, ltb, Bool-cases,
}
use medved_db.Hashmap.Interface.{Keys}
use medved_db.Hashmap.{
  Hashmap, Allocs, returns, faults, resize, unlink, push_new, make_room, insert, find, erase,
}
use medved_db.Hashmap.Placed.{update, add_entry-Table}
use medved_db.Hashmap.Refines.{
  Models, counted, is_some, unlink-Models, resize-Models, update-absent, find-Models, Kept,
}

module _ {A K : Type 0} (ks : Keys A K) where
  open ks use {key, hash, same, same_refl}

  -- There is room for one more item, or the table cannot be grown.
  make_room-Models :
      (f : K → Option A) (hm : Hashmap A) (allocated : Bool)
      → 0 < hm.capacity
      → Models ks f hm
      → Models ks f (make_room ks allocated hm).1
        × (0 < (make_room ks allocated hm).1.capacity)
        × ((make_room ks allocated hm).1.size ≡ hm.size)
        × (allocated ≡ true
            → ((make_room ks allocated hm).0 ≡ true)
              × (hm.size + 1 ≤ (make_room ks allocated hm).1.capacity)
              × Kept hm (make_room ks allocated hm).1)
  unfolding make_room
  make_room-Models f hm allocated pos t = elim (Bool-cases (ltb (hm.capacity * 3 / 4) hm.size)) [
    | inl e ↦ rw e (
      resize-Models ks f hm allocated (hm.capacity * 2) t,
      unfold resize in ground arith,
      unfold resize in ground arith,
      unfold resize in ground (arith, t.fits),
    )
    | inr e ↦ rw e (t, pos, refl, λ h. (refl, ground arith, omega arith))
  ]

  push_new-Models :
      (f : K → Option A) (hm : Hashmap A) (x : A)
      → 0 < hm.capacity
      → hm.size + 1 ≤ hm.capacity
      → Models ks (update ks f (key x) none) hm
      → Models ks (update ks f (key x) (some x)) (push_new ks true hm x).1
  unfolding push_new
  push_new-Models f hm x pos room t =
      let absent : update ks f (key x) none (key x) ≡ none = rw (same_refl (key x)) refl in
      let added = add_entry-Table ks t.table pos x absent in
      record {
        table = record {
          width = added.width;
          stored = added.stored;
          once = added.once;
          at_home = added.at_home;
          reads = λ q. ground (arith, added.reads q);
        };
        fits = room;
      }

  -- With memory and a table of at least one bucket, an item that is large enough to hold a key is
  -- stored: the call succeeds, a lookup of its key finds it, the other lookups are as before, and
  -- the size grows by one, unless the key was there. The place of the keys in the items is kept, and
  -- the table does not shrink.
  pub insert-Models :
      (f : K → Option A) (hm : Hashmap A) (x : A) (item_size : ℕ)
      → Models ks f hm
      → 0 < hm.capacity
      → hm.key_offset + hm.key_size ≤ item_size
      → (hm' : Hashmap A) × (insert ks (record { table = true; entry = true }) hm x item_size
          ≡ returns (true, hm'))
        × Models ks (update ks f (key x) (some x)) hm'
        × (hm'.size + counted (f (key x)) ≡ hm.size + 1)
        × Kept hm hm'
  unfolding insert
  insert-Models f hm x item_size t pos large =
      let grown : Hashmap A = (make_room ks true hm).1 in
      let (m, pos', size, roomy) = make_room-Models f hm true pos t in
      let (ok, room, kept) = roomy refl in
      let (n, counts, capacity, was) = unlink-Models ks f grown (key x) pos' m in
      let hm₁ : Hashmap A = (unlink ks grown (key x)).1 in
      let done = push_new-Models f hm₁ x (omega arith) (omega arith) n in
      let grows : make_room ks true hm ≡ (true, grown) = ap (λ b. (b, grown)) ok in
      let pushes : push_new ks true hm₁ x ≡ (true, (push_new ks true hm₁ x).1) =
        unfold push_new in refl in
      (
        (push_new ks true hm₁ x).1,
        (ground (arith, grows, pushes)),
        done,
        (unfold push_new in omega (arith, counts, size)),
        (unfold push_new in omega (arith, kept, capacity)),
      )

  -- The calls that do not store the item. A size that is too small, and a table that is full and
  -- cannot be grown, leave the map as it is; without memory for the entry, the item that the key had
  -- is gone all the same.
  pub insert-refuses :
      (f : K → Option A) (hm : Hashmap A) (x : A) (item_size : ℕ)
      → Models ks f hm
      → 0 < hm.capacity
      → ((allocs : Allocs)
          → item_size < hm.key_offset + hm.key_size
          → insert ks allocs hm x item_size ≡ returns (false, hm))
        × ((entry : Bool)
            → hm.key_offset + hm.key_size ≤ item_size
            → hm.capacity * 3 / 4 < hm.size
            → insert ks (record { table = false; entry = entry }) hm x item_size
              ≡ returns (false, hm))
        × (hm.key_offset + hm.key_size ≤ item_size
            → (hm' : Hashmap A) × (insert ks (record { table = true; entry = false }) hm x item_size
                ≡ returns (false, hm'))
              × Models ks (update ks f (key x) none) hm')
  unfolding insert
  insert-refuses f hm x item_size t pos =
      let grown : Hashmap A = (make_room ks true hm).1 in
      let (m, pos', size, roomy) = make_room-Models f hm true pos t in
      let (ok, room, kept) = roomy refl in
      let grows : make_room ks true hm ≡ (true, grown) = ap (λ b. (b, grown)) ok in
      let (n, counts, capacity, was) = unlink-Models ks f grown (key x) pos' m in
      (
        λ allocs h. ground arith,
        λ entry h full. unfold make_room resize in ground arith,
        λ h. ((unlink ks grown (key x)).1, unfold push_new in ground (arith, grows), n),
      )

  -- An insertion into a map of capacity 0, such as the one that `mdv_routes_find` returns for an
  -- empty topology, divides by zero.
  pub insert-faults :
      (f : K → Option A) (hm : Hashmap A) (allocs : Allocs) (x : A) (item_size : ℕ)
      → Models ks f hm
      → hm.capacity ≡ 0
      → hm.key_offset + hm.key_size ≤ item_size
      → insert ks allocs hm x item_size ≡ faults
  unfolding insert make_room
  insert-faults f hm allocs x item_size t zero_capacity large = let fits = t.fits in ground arith

  -- At any capacity, an erased key is found no more and the other lookups are as before; the call
  -- answers whether the key was there, and the size falls by one if it was. The
  -- place of the keys in the items is kept, and the table does not shrink.
  pub erase-Models :
      (f : K → Option A) (hm : Hashmap A) (k : K)
      → Models ks f hm
      → Models ks (update ks f k none) (erase ks hm k).1
        × ((erase ks hm k).1.size + counted (f k) ≡ hm.size)
        × ((erase ks hm k).0 ≡ is_some (f k))
        × Kept hm (erase ks hm k).1
  unfolding erase
  erase-Models f hm k t = elim (Bool-cases (hm.capacity == 0)) [
    | inl e ↦
        let absent : f k ≡ none = sym (find-Models ks f hm k t) ∙ unfold find in rw e in
        let same_reads = update-absent ks f hm k absent t in
        rw (e, absent)
          (
            record {
              table = record {
                width = t.table.width;
                stored = t.table.stored;
                once = t.table.once;
                at_home = t.table.at_home;
                reads = λ q. t.table.reads q ∙ same_reads q;
              };
              fits = t.fits;
            },
            omega arith,
            refl,
            omega arith,
          )
    | inr e ↦
        let (n, counts, capacity, was) = unlink-Models ks f hm k (ground arith) t in
        rw e (n, counts, was, capacity)
  ]
