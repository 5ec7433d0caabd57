-- ===== src/Queue/Pop.antt =====
-- The pops of mdv_queue.c take items from the front, in the order in which they were pushed.
use native.Mathlib.Nat.{mul-div_cancel}
use medved_db.Base.{
  ℕ, zero, suc, ◌+◌, ◌-◌, ◌*◌, ◌%◌, ◌≤◌, ◌<◌, ◌≡◌, ◌≢◌, refl, ap, ◌∙◌, List, [], ◌∷◌, ◌++◌, none,
  some, arith, ltb, if◌then◌else◌, get_elem?, take, drop, length, length-take, length-drop,
  Bool-cases, inl, inr,
}
use mathlib.Core.Path.{subst}
use medved_db.Queue.{Queue, read, pop_one, pop_multiple, items_count}
use medved_db.Queue.Ring.{
  slot, mod-slot, Holds, get_elem?-append, get_elem?-take, get_elem?-drop, list_ext,
}

module _ {A : Type 0} where
  abbrev retreat : Queue A → ℕ → Queue A
  retreat q n = record q { head = (q.head + n) % (q.capacity + 1) }

  -- The queue without its first `n` items.
  drop-Holds :
      (xs : List A) (q : Queue A) (n : ℕ)
      → Holds xs q
      → n ≤ length xs
      → Holds (drop n xs) (retreat q n)
  drop-Holds xs q n h le =
      let m : ℕ = q.capacity + 1 in
      let l = length-drop n xs in
      let head' : (q.head + n) % m ≡ slot m q.head n =
        mod-slot m q.head n (omega (arith, h.head_lt)) (omega (arith, h.fits)) in
      record {
        width = h.width;
        head_lt = ground (arith, head', h.head_lt, h.fits);
        fits = omega (arith, l, h.fits);
        tail_at = ground (arith, head', l, h.tail_at, h.head_lt, h.fits);
        reads = λ i lt.
            let same : slot m ((q.head + n) % m) i ≡ slot m q.head (n + i) =
              ground (arith, head', l, h.head_lt, h.fits) in
            rw same (h.reads (n + i) (omega (arith, l)) ∙ ground (arith, get_elem?-drop n xs i));
      }

  get_elem?-read :
      (i n j : ℕ) (slots : List A)
      → get_elem? (read i n slots) j ≡ (if ltb j n then get_elem? slots (i + j) else none)
  unfolding read
  get_elem?-read i n j slots =
      ground (arith, get_elem?-take n (drop i slots) j, get_elem?-drop i slots j)

  get_elem?-past : (xs : List A) (i : ℕ) → length xs ≤ i → get_elem? xs i ≡ none
  get_elem?-past [] i h = refl
  get_elem?-past (x ∷ xs) zero h = absurd (omega arith)
  get_elem?-past (x ∷ xs) (suc i) h = get_elem?-past xs i (omega arith)

  -- A block that ends before the ring does is the front of the queue.
  read-straight :
      (xs : List A) (q : Queue A) (n : ℕ)
      → Holds xs q
      → n ≤ length xs
      → q.head + n ≤ q.capacity + 1
      → read q.head n q.slots ≡ take n xs
  read-straight xs q n h le fit = list_ext _ _ λ j.
      get_elem?-read q.head n j q.slots ∙ elim (Bool-cases (ltb j n)) [
        | inl e ↦ ground (arith, h.reads j (ground arith), get_elem?-take n xs j, h.head_lt)
        | inr e ↦ ground (arith, get_elem?-take n xs j)
      ]

  -- Two blocks, one to the end of the ring and one from its start.
  read-round :
      (xs : List A) (q : Queue A) (n : ℕ)
      → Holds xs q
      → n ≤ length xs
      → q.capacity + 1 < q.head + n
      → read q.head (q.capacity + 1 - q.head) q.slots
          ++ read 0 (n - (q.capacity + 1 - q.head)) q.slots
        ≡ take n xs
  read-round xs q n h le wraps =
      let block : ℕ = q.capacity + 1 - q.head in
      let one : List A = read q.head block q.slots in
      let two : List A = read 0 (n - block) q.slots in
      let l : length one ≡ block =
        unfold read in
        omega
          (arith, length-take block (drop q.head q.slots), length-drop q.head q.slots, h.width) in
      list_ext _ _ λ j. get_elem?-append one two j ∙ elim (Bool-cases (ltb j n)) [
        | inl e ↦ ground (
          arith,
          l,
          get_elem?-read q.head block j q.slots,
          get_elem?-read 0 (n - block) (j - block) q.slots,
          h.reads j (ground arith),
          get_elem?-take n xs j,
          h.head_lt,
        )
        | inr e ↦
            ground
              (arith, l, get_elem?-read 0 (n - block) (j - block) q.slots, get_elem?-take n xs j)
      ]

  -- A pop of one item hands out the oldest one and leaves the rest; of an empty queue, or at
  -- another size, it hands out nothing and changes nothing.
  pub pop_one-Holds :
      (xs : List A) (q : Queue A)
      → Holds xs q
      → ((x : A) (rest : List A)
          → xs ≡ x ∷ rest
          → (pop_one q q.item_size).0 ≡ some (x ∷ []) × Holds rest (pop_one q q.item_size).1)
        × (xs ≡ [] → pop_one q q.item_size ≡ (none, q))
        × ((bytes : ℕ) → bytes ≢ q.item_size → pop_one q bytes ≡ (none, q))
  unfolding pop_one
  pop_one-Holds xs q h = (
    λ x rest e.
        let l : length xs ≡ suc (length rest) = ap length e in
        let taken : read q.head 1 q.slots ≡ x ∷ [] =
          read-straight xs q 1 h (omega arith) (omega (arith, h.head_lt)) ∙ ap (take 1) e in
        let left : Holds rest (retreat q 1) =
          subst (λ ys. Holds ys (retreat q 1)) (ap (drop 1) e)
            (drop-Holds xs q 1 h (omega arith)) in
        let popped : pop_one q q.item_size ≡ (some (read q.head 1 q.slots), retreat q 1) =
          ground (arith, h.tail_at, h.head_lt, h.fits) in
        rw (popped, taken) (refl, left),
    λ e. ground (arith, h.tail_at, h.head_lt, ap length e),
    λ bytes other. ground arith,
  )

  -- A transfer of as many items as are there hands out the oldest ones in their order and leaves
  -- the rest; one of more items, or of a size that is not of whole items, changes nothing.
  pub pop_multiple-Holds :
      (xs : List A) (q : Queue A) (n : ℕ)
      → Holds xs q
      → 0 < q.item_size
      → (n ≤ length xs
          → (pop_multiple q (n * q.item_size)).0 ≡ some (take n xs)
            × Holds (drop n xs) (pop_multiple q (n * q.item_size)).1)
        × (length xs < n → pop_multiple q (n * q.item_size) ≡ (none, q))
        × ((bytes : ℕ)
            → bytes ≢ items_count q bytes * q.item_size
            → pop_multiple q bytes ≡ (none, q))
  unfolding pop_multiple
  pop_multiple-Holds xs q n h pos =
      let count : items_count q (n * q.item_size) ≡ n = mul-div_cancel n pos in
      (
        λ le. elim (Bool-cases (ltb (q.capacity + 1) (q.head + n))) [
          | inl wraps ↦
              let popped : pop_multiple q (n * q.item_size) ≡ (
                some (
                    read q.head (q.capacity + 1 - q.head) q.slots
                    ++ read 0 (n - (q.capacity + 1 - q.head)) q.slots),
                retreat q n,
              ) =
                rw (pop_multiple, count) (ground (arith, h.tail_at, h.head_lt, h.fits)) in
              rw (popped, read-round xs q n h le (ground arith)) (refl, drop-Holds xs q n h le)
          | inr straight ↦
              let popped : pop_multiple q (n * q.item_size)
                  ≡ (some (read q.head n q.slots), retreat q n) =
                rw (pop_multiple, count) (ground (arith, h.tail_at, h.head_lt, h.fits)) in
              rw (popped, read-straight xs q n h le (ground arith)) (refl, drop-Holds xs q n h le)
        ],
        λ more. rw (pop_multiple, count) (ground (arith, h.tail_at, h.head_lt, h.fits)),
        λ bytes other. ground arith,
      )
