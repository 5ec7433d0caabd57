-- ===== src/Hashmap/Refines.antt =====
-- The hash map of mdv_hashmap.c refines a function from keys to items.
use medved_db.Base.{
  ℕ, zero, suc, ◌+◌, ◌*◌, ◌/◌, ◌%◌, ◌≤◌, ◌<◌, ◌≡◌, refl, sym, ◌∙◌, List, [], ◌∷◌, Bool, true, false,
  Option, none, some, arith, ◌==◌, length, Option-cases, inl, inr, ltb, Bool-cases,
}
use mathlib.Core.Option.{some-injective}
use medved_db.Hashmap.Interface.{Keys}
use medved_db.Hashmap.Chain
use medved_db.Hashmap.Chain.{nth}
use medved_db.Hashmap.{Hashmap, create, resize, unlink, find}
use medved_db.Hashmap.Placed.{Table, update, remove-Table, empty-Table, entries-set, same_slot}
use medved_db.Hashmap.Resize.{move_buckets-Table}

nth-past {ℓ} : {A : Type ℓ} (bs : List (List A)) (i : ℕ) → length bs ≤ i → nth bs i ≡ []
nth-past [] i h = refl
nth-past (b ∷ bs) zero h = absurd (omega arith)
nth-past (b ∷ bs) (suc i) h = nth-past bs i (omega arith)

-- 1 for an item, 0 for none.
abbrev pub counted {ℓ} : {A : Type ℓ} → Option A → ℕ
counted none = 0
counted (some a) = 1

abbrev pub is_some {ℓ} : {A : Type ℓ} → Option A → Bool
is_some none = false
is_some (some a) = true

-- The place of the keys in the items is the same, and the table is no smaller.
pub record Kept {A : Type 0} (before after : Hashmap A) : Type 0 where
  pub offset : after.key_offset ≡ before.key_offset
  pub key_width : after.key_size ≡ before.key_size
  pub grows : before.capacity ≤ after.capacity

module _ {A K : Type 0} (ks : Keys A K) where
  open ks use {key, hash, same, same_refl}

  -- The table has its capacity and size, no more items than buckets, every entry in the bucket of
  -- its key and no key twice, and the map reads as `f`.
  pub record Models (f : K → Option A) (hm : Hashmap A) : Type 0 where
    pub table : Table ks hm.capacity hm.size f hm.buckets
    pub fits : hm.size ≤ hm.capacity

  -- A new map stands for the function that finds nothing.
  pub create-Models :
      (capacity offset width : ℕ) (hm : Hashmap A)
      → create true capacity offset width ≡ some hm
      → Models (λ q. none) hm × (hm.size ≡ 0)
  unfolding create
  create-Models capacity offset width hm e =
      rw (← some-injective _ _ e)
        (record { table = empty-Table ks (capacity * (5 / 4)); fits = omega arith }, refl)

  -- A lookup answers what the map stands for, at any capacity.
  pub find-Models : (f : K → Option A) (hm : Hashmap A) (q : K) → Models f hm → find ks hm q ≡ f q
  unfolding find Chain.find
  find-Models f hm q t = elim (Bool-cases (hm.capacity == 0)) [
    | inl e ↦ rw e (
        ground (
          arith,
          t.table.reads q,
          nth-past hm.buckets (hash q % hm.capacity) (ground (arith, t.table.width)),
        ))
    | inr e ↦ rw e (t.table.reads q)
  ]

  -- A resize, done or refused, changes no lookup.
  pub resize-Models :
      (f : K → Option A) (hm : Hashmap A) (allocated : Bool) (capacity : ℕ)
      → Models f hm
      → Models f (resize ks allocated hm capacity).1
  unfolding resize
  resize-Models f hm true capacity t = elim (Bool-cases (ltb hm.size capacity)) [
    | inl e ↦ rw e (record {
      table = move_buckets-Table ks capacity t.table (ground arith);
      fits = ground arith;
    })
    | inr e ↦ rw e t
  ]
  resize-Models f hm false capacity t = elim (Bool-cases (ltb hm.size capacity)) [
    | inl e ↦ rw e t
    | inr e ↦ rw e t
  ]

  pub update-absent :
      (f : K → Option A) (hm : Hashmap A) (k : K)
      → f k ≡ none
      → Models f hm
      → (q : K) → f q ≡ update ks f k none q
  update-absent f hm k e t q =
      let b : K → List A = λ j. nth hm.buckets (hash j % hm.capacity) in
      let gone : same q k ≡ true → Chain.find ks q (b k) ≡ none = λ h.
        Chain.find-absent ks q (b k) (Chain.count-absent ks k q (b k) (t.table.reads k ∙ e) h) in
      ground (arith, gone, t.table.reads q, same_slot ks hm.capacity q k)

  -- A key that is found is counted in the size.
  found_counted :
      (f : K → Option A) (hm : Hashmap A) (k : K) (old : A)
      → 0 < hm.capacity
      → Models f hm
      → f k ≡ some old
      → 0 < hm.size
  found_counted f hm k old pos t e =
      let i : ℕ = hash k % hm.capacity in
      let i_lt : i < length hm.buckets = omega (arith, t.table.width) in
      omega (
        arith,
        Chain.length-remove ks k (nth hm.buckets i) old (t.table.reads k ∙ e),
        entries-set hm.buckets i [] i_lt,
        t.table.stored,
      )

  pub unlink-Models :
      (f : K → Option A) (hm : Hashmap A) (k : K)
      → 0 < hm.capacity
      → Models f hm
      → Models (update ks f k none) (unlink ks hm k).1
        × ((unlink ks hm k).1.size + counted (f k) ≡ hm.size)
        × Kept hm (unlink ks hm k).1
        × ((unlink ks hm k).0 ≡ is_some (f k))
  unfolding unlink
  unlink-Models f hm k pos t =
      elim (Option-cases (Chain.find ks k (nth hm.buckets (hash k % hm.capacity)))) [
        | inl e ↦
            let none_there : f k ≡ none = sym (t.table.reads k) ∙ e in
            let same_reads = update-absent f hm k none_there t in
            rw (e, unlink, none_there)
              (
                record {
                  table = record {
                    width = t.table.width;
                    stored = t.table.stored;
                    once = t.table.once;
                    at_home = t.table.at_home;
                    reads = λ q. t.table.reads q ∙ same_reads q;
                  };
                  fits = t.fits;
                },
                omega arith,
                omega arith,
                refl,
              )
        | inr (old, e) ↦
            let there : f k ≡ some old = sym (t.table.reads k) ∙ e in
            let some_size = found_counted f hm k old pos t there in
            rw (e, unlink, there)
              (
                record { table = remove-Table ks t.table pos k old there; fits = omega arith },
                omega arith,
                omega arith,
                refl,
              )
      ]
