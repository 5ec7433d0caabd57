-- ===== src/Queue/Push.antt =====
-- The pushes of mdv_queue.c append to the queue, or change nothing.
use native.Mathlib.Nat.{mul-div_cancel}
use medved_db.Base.{
  ℕ, ◌+◌, ◌-◌, ◌*◌, ◌%◌, ◌≤◌, ◌<◌, ◌≡◌, ◌≢◌, refl, ◌∙◌, List, [], ◌∷◌, ◌++◌, true, false, arith,
  leb, ltb, if◌then◌else◌, get_elem?, take, drop, length, length-append, length-take, length-drop,
  Bool-cases, inl, inr,
}
use medved_db.Queue.{Queue, write, push_one, push_multiple, items_count}
use medved_db.Queue.Ring.{
  slot, mod-slot, Holds, length-write, get_elem?-write, get_elem?-append, get_elem?-take,
  get_elem?-drop,
}

module _ {A : Type 0} where
  -- The queue after `xs` were written from the tail on, in whatever pieces.
  abbrev advance : Queue A → ℕ → List A → Queue A
  advance q n slots = record q { slots = slots; tail = (q.tail + n) % (q.capacity + 1) }

  -- What a write of `new` from the tail on has to show for the queue to hold `xs ++ new`.
  append-Holds :
      (xs new : List A) (q : Queue A) (slots : List A)
      → Holds xs q
      → length xs + length new ≤ q.capacity
      → length slots ≡ q.capacity + 1
      → ((j : ℕ)
          → j < q.capacity + 1
          → (i : ℕ) → i < length new
          → j ≡ slot (q.capacity + 1) q.tail i
          → get_elem? slots j ≡ get_elem? new i)
      → ((j : ℕ)
          → j < q.capacity + 1
          → (i : ℕ) → i < length xs
          → j ≡ slot (q.capacity + 1) q.head i
          → get_elem? slots j ≡ get_elem? q.slots j)
      → Holds (xs ++ new) (advance q (length new) slots)
  append-Holds xs new q slots h room width shows keeps =
      let n : ℕ = q.capacity + 1 in
      let l = length-append xs new in
      record {
        width = width;
        head_lt = h.head_lt;
        fits = omega (arith, l);
        tail_at =
            mod-slot n q.tail (length new) (ground (arith, h.tail_at, h.head_lt, h.fits))
              (omega arith)
            ∙ ground (arith, l, h.tail_at, h.head_lt, h.fits);
        reads = λ i lt. elim (Bool-cases (ltb i (length xs))) [
          | inl e ↦
              keeps (slot n q.head i) (ground (arith, h.head_lt)) i (ground arith) refl
              ∙ h.reads i (ground arith)
              ∙ ground (arith, get_elem?-append xs new i)
          | inr e ↦
              shows (slot n q.head i) (ground (arith, h.head_lt, l)) (i - length xs)
                (ground (arith, l)) (ground (arith, h.tail_at, h.head_lt, h.fits, l))
              ∙ ground (arith, get_elem?-append xs new i)
        ];
      }

  tail_lt : (xs : List A) (q : Queue A) → Holds xs q → q.tail ≤ q.capacity
  tail_lt xs q h = ground (arith, h.tail_at, h.head_lt, h.fits)

  -- A push of one item of the queue's size appends it if the queue is not full; a full queue, and an
  -- item of another size, leave everything as it is.
  pub push_one-Holds :
      (xs : List A) (q : Queue A) (x : A)
      → Holds xs q
      → (length xs < q.capacity
          → (push_one q x q.item_size).0 ≡ true × Holds (xs ++ x ∷ []) (push_one q x q.item_size).1)
        × (q.capacity ≤ length xs → push_one q x q.item_size ≡ (false, q))
        × ((bytes : ℕ) → bytes ≢ q.item_size → push_one q x bytes ≡ (false, q))
  unfolding push_one
  push_one-Holds xs q x h =
      let t = tail_lt xs q h in
      let done = append-Holds xs (x ∷ []) q (write q.tail (x ∷ []) q.slots) h in
      (
        λ room.
            let pushed : push_one q x q.item_size
                ≡ (true, advance q 1 (write q.tail (x ∷ []) q.slots)) =
              ground (arith, h.tail_at, h.head_lt) in
            rw pushed (
              refl,
              done (omega arith) (length-write q.tail (x ∷ []) q.slots ∙ h.width)
                  (λ j lt i p e. ground (arith, get_elem?-write q.tail j (x ∷ []) q.slots, h.width))
                  (λ j lt i p e. ground (
                    arith,
                    get_elem?-write q.tail j (x ∷ []) q.slots,
                    h.width,
                    h.tail_at,
                    h.head_lt,
                  )),
            ),
        λ full. ground (arith, h.tail_at, h.head_lt, h.fits),
        λ bytes other. ground arith,
      )

  -- The two pieces of a write that goes round the end of the ring.
  abbrev round : Queue A → List A → List A
  round q items =
      let room = q.capacity + 1 - q.tail in
      write 0 (drop room items) (write q.tail (take room items) q.slots)

  get_elem?-round :
      (q : Queue A) (items : List A) (j : ℕ)
      → length q.slots ≡ q.capacity + 1
      → q.tail ≤ q.capacity
      → q.capacity + 1 < q.tail + length items
      → length items ≤ q.capacity
      → j < q.capacity + 1
      → get_elem? (round q items) j ≡ (
          if leb q.tail j
          then get_elem? items (j - q.tail)
          else if ltb j (q.tail + length items - (q.capacity + 1))
          then get_elem? items (q.capacity + 1 - q.tail + j)
          else get_elem? q.slots j)
  get_elem?-round q items j width t wraps small lt =
      let room : ℕ = q.capacity + 1 - q.tail in
      let first : List A = write q.tail (take room items) q.slots in
      let l₁ = length-take room items in
      let l₂ = length-drop room items in
      let w₁ : length first ≡ q.capacity + 1 =
        length-write q.tail (take room items) q.slots ∙ width in
      get_elem?-write 0 j (drop room items) first (omega arith)
      ∙ ground (
        arith,
        get_elem?-write q.tail j (take room items) q.slots,
        get_elem?-take room items (j - q.tail),
        get_elem?-drop room items (j - 0),
      )

  -- A transfer of whole items appends all of them in their order if they fit together, and changes
  -- nothing if they do not; so does one of a size that is not of whole items.
  pub push_multiple-Holds :
      (xs items : List A) (q : Queue A)
      → Holds xs q
      → 0 < q.item_size
      → (length xs + length items ≤ q.capacity
          → (push_multiple q items (length items * q.item_size)).0 ≡ true
            × Holds (xs ++ items) (push_multiple q items (length items * q.item_size)).1)
        × (q.capacity < length xs + length items
            → push_multiple q items (length items * q.item_size) ≡ (false, q))
        × ((bytes : ℕ)
            → bytes ≢ items_count q bytes * q.item_size
            → push_multiple q items bytes ≡ (false, q))
  unfolding push_multiple
  push_multiple-Holds xs items q h pos =
      let t = tail_lt xs q h in
      let n : items_count q (length items * q.item_size) ≡ length items =
        mul-div_cancel (length items) pos in
      let done = append-Holds xs items q in
      (
        λ room. elim (Bool-cases (ltb (q.capacity + 1) (q.tail + length items))) [
          | inl wraps ↦
              let pushed : push_multiple q items (length items * q.item_size)
                  ≡ (true, advance q (length items) (round q items)) =
                rw (push_multiple, n) (ground (arith, h.tail_at, h.head_lt)) in
              let at : (j : ℕ)
                  → j < q.capacity + 1
                  → get_elem? (round q items) j ≡ (
                      if leb q.tail j
                      then get_elem? items (j - q.tail)
                      else if ltb j (q.tail + length items - (q.capacity + 1))
                      then get_elem? items (q.capacity + 1 - q.tail + j)
                      else get_elem? q.slots j) =
                λ j lt. get_elem?-round q items j h.width t (ground arith) (omega arith) lt in
              rw pushed (
                refl,
                done (round q items) h room
                    (length-write 0 (drop (q.capacity + 1 - q.tail) items) _
                      ∙ length-write q.tail (take (q.capacity + 1 - q.tail) items) q.slots
                      ∙ h.width)
                    (λ j lt i p e. ground (arith, at j lt))
                    (λ j lt i p e. ground (arith, at j lt, h.tail_at, h.head_lt)),
              )
          | inr straight ↦
              let pushed : push_multiple q items (length items * q.item_size)
                  ≡ (true, advance q (length items) (write q.tail items q.slots)) =
                rw (push_multiple, n) (ground (arith, h.tail_at, h.head_lt)) in
              let fit : q.tail + length items ≤ q.capacity + 1 = ground arith in
              rw pushed (
                refl,
                done (write q.tail items q.slots) h room
                    (length-write q.tail items q.slots ∙ h.width)
                    (λ j lt i p e.
                      ground (arith, get_elem?-write q.tail j items q.slots, h.width, fit))
                    (λ j lt i p e. ground (
                      arith,
                      get_elem?-write q.tail j items q.slots,
                      h.width,
                      h.tail_at,
                      h.head_lt,
                      fit,
                    )),
              )
        ],
        λ full. rw (push_multiple, n) (ground (arith, h.tail_at, h.head_lt, h.fits)),
        λ bytes other. ground arith,
      )
