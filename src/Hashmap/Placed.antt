-- ===== src/Hashmap/Placed.antt =====
-- Where the entries of the table of mdv_hashmap.c stand, and what a write to one bucket does.
use medved_db.Base.{
  ℕ, zero, suc, ◌+◌, ◌-◌, ◌%◌, ◌≤◌, ◌<◌, ◌≡◌, ◌≢◌, refl, ◌∙◌, List, [], ◌∷◌, ◌++◌, true, Option,
  none, some, arith, ◌==◌, if◌then◌else◌, length, set, length-append, length-set, replicate,
  length-replicate,
}
use medved_db.Hashmap.Interface.{Keys}
use medved_db.Hashmap.Chain
use medved_db.Hashmap.Chain.{nth, nth-set}
use medved_db.Hashmap.{add_entry}

-- The entries of all the buckets.
unfoldable pub entries {ℓ} : {A : Type ℓ} → List (List A) → ℕ
entries [] = 0
entries (b ∷ bs) = length b + entries bs

pub entries-set {ℓ} :
    {A : Type ℓ} (bs : List (List A)) (i : ℕ) (b : List A)
    → i < length bs
    → entries (set bs i b) + length (nth bs i) ≡ entries bs + length b
unfolding entries
entries-set [] i b h = absurd (omega arith)
entries-set (c ∷ bs) zero b h = omega arith
entries-set (c ∷ bs) (suc i) b h = omega (arith, entries-set bs i b (omega arith))

nth-replicate {ℓ} : {A : Type ℓ} (n i : ℕ) → nth {A = A} (replicate n []) i ≡ []
nth-replicate zero i = refl
nth-replicate (suc n) zero = refl
nth-replicate (suc n) (suc i) = nth-replicate n i

entries-replicate {ℓ} : (A : Type ℓ) (n : ℕ) → entries {A = A} (replicate n []) ≡ 0
unfolding entries
entries-replicate A zero = refl
entries-replicate A (suc n) = omega (arith, entries-replicate A n)

module _ {A K : Type 0} (ks : Keys A K) where
  open ks use {key, hash, same, same_refl, hash-same, same_symm}

  -- `n` buckets with `total` entries, each in the bucket of its key and with a key of its own, so
  -- that a lookup of a key in its bucket reads `f`.
  pub record Table (n total : ℕ) (f : K → Option A) (bs : List (List A)) : Type 0 where
    pub width : length bs ≡ n
    pub stored : entries bs ≡ total
    pub once : (q : K) (i : ℕ) → Chain.count ks q (nth bs i) ≤ 1
    pub at_home : (q : K) (i : ℕ) → hash q % n ≢ i → Chain.count ks q (nth bs i) ≡ 0
    pub reads : (q : K) → Chain.find ks q (nth bs (hash q % n)) ≡ f q

  pub empty-Table : (n : ℕ) → Table n 0 (λ q. none) (replicate n [])
  unfolding Chain.count Chain.find
  empty-Table n = record {
    width = length-replicate n [];
    stored = entries-replicate A n;
    once = λ q i. rw nth-replicate (omega arith);
    at_home = λ q i h. rw nth-replicate refl;
    reads = λ q. rw nth-replicate refl;
  }

  module _ {n total : ℕ} {f : K → Option A} {bs : List (List A)} (t : Table n total f bs)
      (pos : 0 < n) (k : K) where
    -- The bucket of `k` is replaced by `c`, which has no key twice nor a key from elsewhere.
    pub set-Table :
        (total' : ℕ) (g : K → Option A) (c : List A)
        → total' + length (nth bs (hash k % n)) ≡ total + length c
        → ((q : K) → Chain.count ks q c ≤ 1)
        → ((q : K) → hash q % n ≢ hash k % n → Chain.count ks q c ≡ 0)
        → ((q : K) → (if hash q % n == hash k % n then Chain.find ks q c else f q) ≡ g q)
        → Table n total' g (set bs (hash k % n) c)
    set-Table total' g c sizes few apart reads =
        let i : ℕ = hash k % n in
        let i_lt : i < length bs = omega (arith, t.width) in
        record {
          width = length-set bs i c ∙ t.width;
          stored = omega (arith, entries-set bs i c i_lt, t.stored);
          once = λ q j. rw (nth-set bs i j c i_lt) (ground (arith, few q, t.once q j));
          at_home = λ q j h. rw (nth-set bs i j c i_lt) (ground (arith, apart q, t.at_home q j h));
          reads = λ q. rw (nth-set bs i (hash q % n) c i_lt) (ground (arith, reads q, t.reads q));
        }

  -- The lookup function with another answer for a key.
  abbrev pub update : (K → Option A) → K → Option A → K → Option A
  update f k v q = if same q k then v else f q

  pub same_slot : (n : ℕ) (q k : K) → same q k ≡ true → hash q % n ≡ hash k % n
  same_slot n q k e = rw (hash-same q k e) refl

  module _ {n total : ℕ} {f : K → Option A} {bs : List (List A)} (t : Table n total f bs)
      (pos : 0 < n) where
    -- A new key's entry is appended to its bucket.
    pub add_entry-Table :
        (x : A)
        → f (key x) ≡ none
        → Table n (total + 1) (update f (key x) (some x)) (add_entry ks n x bs)
    unfolding add_entry Chain.count
    add_entry-Table x new =
        let k : K = key x in
        let old : List A = nth bs (hash k % n) in
        let absent : (q : K) → same q k ≡ true → Chain.count ks q old ≡ 0 =
          λ q e. Chain.count-absent ks k q old (t.reads k ∙ new) e in
        set-Table t pos k (total + 1) (update f k (some x)) (old ++ x ∷ [])
          (omega (arith, length-append old (x ∷ [])))
          (λ q. ground (arith, Chain.count-push ks q old x, absent q, t.once q (hash k % n)))
          (λ q h.
            ground
              (arith, Chain.count-push ks q old x, same_slot n q k, t.at_home q (hash k % n) h))
          (λ q. ground (
            arith,
            Chain.find-push ks q old x,
            absent q,
            t.once q (hash k % n),
            t.reads q,
            same_slot n q k,
          ))

    -- The entry of a key is taken out of its bucket.
    pub remove-Table :
        (k : K) (old : A)
        → f k ≡ some old
        → Table n
            (total - 1)
            (update f k none)
            (set bs (hash k % n) (Chain.remove ks k (nth bs (hash k % n))))
    remove-Table k old there =
        let b : List A = nth bs (hash k % n) in
        let i_lt : hash k % n < length bs = omega (arith, t.width) in
        let shorter = Chain.length-remove ks k b old (t.reads k ∙ there) in
        set-Table t pos k (total - 1) (update f k none) (Chain.remove ks k b)
          (omega (arith, shorter, entries-set bs (hash k % n) [] i_lt, t.stored))
          (λ q. omega (arith, Chain.count-remove-le ks k q b, t.once q (hash k % n)))
          (λ q h. omega (arith, Chain.count-remove-le ks k q b, t.at_home q (hash k % n) h))
          (λ q.
            ground (
              arith,
              Chain.find-remove ks k q b (t.once q (hash k % n)),
              t.reads q,
              same_slot n q k,
            ))
