-- ===== src/Hashmap/Resize.antt =====
-- `mdv_hashmap_resize` of mdv_hashmap.c keeps every entry and every lookup.
use medved_db.Base.{
  ℕ, zero, suc, ◌+◌, ◌%◌, ◌≤◌, ◌<◌, ◌≡◌, ◌≢◌, refl, sym, ◌∙◌, List, [], ◌∷◌, ◌++◌, Option, none,
  some, arith, length, length-append, replicate,
}
use medved_db.Hashmap.Interface.{Keys}
use medved_db.Hashmap.Chain
use medved_db.Hashmap.Chain.{nth}
use medved_db.Hashmap.{move_bucket, move_buckets, add_entry}
use medved_db.Hashmap.Placed.{Table, entries, update, add_entry-Table, empty-Table}

-- The first answer, or the second.
abbrev first_of_two {ℓ} : {A : Type ℓ} → Option A → Option A → Option A
first_of_two none b = b
first_of_two (some a) b = some a

-- All the entries, bucket after bucket.
flat {ℓ} : {A : Type ℓ} → List (List A) → List A
flat [] = []
flat (b ∷ bs) = b ++ flat bs

length-flat {ℓ} : {A : Type ℓ} (bs : List (List A)) → length (flat bs) ≡ entries bs
unfolding flat entries
length-flat [] = refl
length-flat (b ∷ bs) = omega (arith, length-append b (flat bs), length-flat bs)

module _ {A K : Type 0} (ks : Keys A K) where
  open ks use {key, hash, same, same_refl}

  find-append :
      (q : K) (xs ys : List A)
      → Chain.find ks q (xs ++ ys) ≡ first_of_two (Chain.find ks q xs) (Chain.find ks q ys)
  unfolding Chain.find
  find-append q [] ys = refl
  find-append q (x ∷ xs) ys = ground (arith, find-append q xs ys)

  count-append :
      (q : K) (xs ys : List A)
      → Chain.count ks q (xs ++ ys) ≡ Chain.count ks q xs + Chain.count ks q ys
  unfolding Chain.count
  count-append q [] ys = omega arith
  count-append q (x ∷ xs) ys = omega (arith, count-append q xs ys)

  move_bucket-append :
      (n : ℕ) (xs ys : List A) (fresh : List (List A))
      → move_bucket ks n (xs ++ ys) fresh ≡ move_bucket ks n ys (move_bucket ks n xs fresh)
  unfolding move_bucket
  move_bucket-append n [] ys fresh = refl
  move_bucket-append n (x ∷ xs) ys fresh = move_bucket-append n xs ys (add_entry ks n x fresh)

  -- The two nested loops go through the entries of all the buckets in order.
  move_buckets-flat :
      (n : ℕ) (bs fresh : List (List A))
      → move_buckets ks n bs fresh ≡ move_bucket ks n (flat bs) fresh
  unfolding move_buckets flat move_bucket
  move_buckets-flat n [] fresh = refl
  move_buckets-flat n (b ∷ bs) fresh =
      move_buckets-flat n bs (move_bucket ks n b fresh)
      ∙ sym (move_bucket-append n b (flat bs) fresh)

  count-flat_none :
      (q : K) (bs : List (List A))
      → ((i : ℕ) → Chain.count ks q (nth bs i) ≡ 0)
      → Chain.count ks q (flat bs) ≡ 0
  unfolding flat Chain.count
  count-flat_none q [] h = refl
  count-flat_none q (b ∷ bs) h =
      omega (arith, count-append q b (flat bs), h 0, count-flat_none q bs (λ i. h (suc i)))

  -- A key that only one bucket may have is looked up there.
  flat_at :
      (q : K) (bs : List (List A)) (j : ℕ)
      → ((i : ℕ) → i ≢ j → Chain.count ks q (nth bs i) ≡ 0)
      → (Chain.find ks q (flat bs) ≡ Chain.find ks q (nth bs j))
        × (Chain.count ks q (flat bs) ≡ Chain.count ks q (nth bs j))
  unfolding flat Chain.find Chain.count
  flat_at q [] j h = (refl, refl)
  flat_at q (b ∷ bs) zero h =
      let rest = count-flat_none q bs (λ i. h (suc i) (omega arith)) in
      (
        find-append q b (flat bs) ∙ ground (arith, Chain.find-absent ks q (flat bs) rest),
        omega (arith, count-append q b (flat bs), rest),
      )
  flat_at q (b ∷ bs) (suc j) h =
      let (f, c) = flat_at q bs j (λ i d. h (suc i) (omega arith)) in
      let here = h 0 (omega arith) in
      (
        find-append q b (flat bs) ∙ ground (arith, Chain.find-absent ks q b here, f),
        omega (arith, count-append q b (flat bs), here, c),
      )

  move_bucket-Table :
      (n total : ℕ) (f g : K → Option A) (es : List A) (fresh : List (List A))
      → 0 < n
      → Table ks n total f fresh
      → ((q : K) → Chain.count ks q es ≤ 1)
      → ((q : K) → 0 < Chain.count ks q es → f q ≡ none)
      → ((q : K) → first_of_two (f q) (Chain.find ks q es) ≡ g q)
      → Table ks n (total + length es) g (move_bucket ks n es fresh)
  unfolding move_bucket Chain.count Chain.find
  move_bucket-Table n total f g [] fresh pos t once apart reads = record {
    width = t.width;
    stored = omega (arith, t.stored);
    once = t.once;
    at_home = t.at_home;
    reads = λ q. ground (arith, t.reads q, reads q);
  }
  move_bucket-Table n total f g (x ∷ es) fresh pos t once apart reads =
      let k : K = key x in
      let added = add_entry-Table ks t pos x (apart k (ground (arith, same_refl k))) in
      let moved =
        move_bucket-Table n (total + 1) (update ks f k (some x)) g es (add_entry ks n x fresh) pos
          added (λ q. ground (arith, once q)) (λ q h. ground (arith, once q, apart q))
          (λ q. ground (arith, once q, reads q, apart q, Chain.find-absent ks q es)) in
      record {
        width = moved.width;
        stored = omega (arith, moved.stored);
        once = moved.once;
        at_home = moved.at_home;
        reads = moved.reads;
      }

  -- A table of the new width holds the same entries, and reads alike.
  pub move_buckets-Table :
      {n total : ℕ} {f : K → Option A} {bs : List (List A)} (n' : ℕ)
      → Table ks n total f bs
      → 0 < n'
      → Table ks n' total f (move_buckets ks n' bs (replicate n' []))
  move_buckets-Table {n} {total} {f} {bs} n' t pos =
      let only : (q : K) → (Chain.find ks q (flat bs) ≡ f q) × (Chain.count ks q (flat bs) ≤ 1) =
        λ q.
          let (found, counted) =
            flat_at q bs (hash q % n) (λ i d. t.at_home q i (λ e. d (sym e))) in
          (found ∙ t.reads q, omega (arith, counted, t.once q (hash q % n))) in
      let moved =
        move_bucket-Table n' 0 (λ q. none) f (flat bs) (replicate n' []) pos (empty-Table ks n')
          (λ q. (only q).1) (λ q h. refl) (λ q. (only q).0) in
      rw (move_buckets-flat n' bs (replicate n' [])) (record {
        width = moved.width;
        stored = omega (arith, moved.stored, length-flat bs, t.stored);
        once = moved.once;
        at_home = moved.at_home;
        reads = moved.reads;
      })
