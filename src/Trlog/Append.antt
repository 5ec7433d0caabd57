-- ===== src/Trlog/Append.antt =====
-- What `mdv_trlog_add` and `mdv_trlog_add_op` of mdv_trlog.c keep of a log, and what they add.
use medved_db.Base.{
  ℕ, ◌+◌, ◌^◌, ◌≤◌, ◌<◌, ◌≡◌, refl, ◌∙◌, List, [], ◌∷◌, Bool, true, false, Option, none, some,
  arith, ◌==◌, if◌then◌else◌, All, Option-cases, Bool-cases, inl, inr,
}
use medved_db.Lmdb.Engine.{Engine as LmdbEngine, Bytes}
use medved_db.Trlog.{
  Op, Trlog, Works, trlog_map, word, id_maximize, try_put, after_put, add_ops, add, add_op,
}

pub word_small : (n : ℕ) → n < 2 ^ 64 → word n ≡ n
unfolding word
word_small n h = omega arith

-- The number of an operation, and the one after it, have 64 bits.
abbrev pub IsOp : Op → Type 0
IsOp op = op.id + 1 < 2 ^ 64

-- No call of LMDB or of the allocator fails.
abbrev pub all_works : Works
all_works = record {
  started = true;
  opened = λ m. true;
  stored = λ i. true;
  found = λ j. true;
  committed = true;
  allocated = λ i. true;
}

-- The first operation with a number.
unfoldable pub first : ℕ → List Op → Option Bytes
first q [] = none
first q (op ∷ ops) = if q == op.id then some (op.op) else first q ops

abbrev pub or_else {ℓ} : {A : Type ℓ} → Option A → Option A → Option A
or_else none o = o
or_else (some a) o = some a

module _ {E : Type 0} (db : LmdbEngine E ℕ ◌==◌) where
  -- Every operation has a number below `top`, which has 64 bits.
  pub record Numbered (e : E) (top : ℕ) : Type 0 where
    pub fits : top < 2 ^ 64
    pub under : (q : ℕ) → top ≤ q → db.get e trlog_map q ≡ none

  -- No operation is lost or replaced, no number is taken back, and the position up to which the
  -- operations are applied stays.
  pub record Extends (e : E) (top : ℕ) (e' : E) (top' : ℕ) : Type 0 where
    pub kept : (q : ℕ) (v : Bytes) → db.get e trlog_map q ≡ some v → db.get e' trlog_map q ≡ some v
    pub others : (m q : ℕ) → 0 < m → db.get e' m q ≡ db.get e m q
    pub rises : top ≤ top'

  Extends-refl : (e : E) (top top' : ℕ) → top ≤ top' → Extends e top e top'
  Extends-refl e top top' h = record { kept = λ q v h. h; others = λ m q h. refl; rises = h }

  Extends-trans :
      {e₁ e₂ e₃ : E} {n₁ n₂ n₃ : ℕ}
      → Extends e₁ n₁ e₂ n₂
      → Extends e₂ n₂ e₃ n₃
      → Extends e₁ n₁ e₃ n₃
  Extends-trans a b = record {
    kept = λ q v h. b.kept q v (a.kept q v h);
    others = λ m q h. b.others m q h ∙ a.others m q h;
    rises = omega (arith, a.rises, b.rises);
  }

  -- One operation with a number that is free.
  put-Extends :
      (e : E) (top top' : ℕ) (op : Op)
      → Numbered e top
      → db.get e trlog_map op.id ≡ none
      → top ≤ top'
      → op.id < top'
      → top' < 2 ^ 64
      → Extends e top (db.put e trlog_map op.id op.op) top'
        × Numbered (db.put e trlog_map op.id op.op) top'
  put-Extends e top top' op n free le lt fits =
      let law = db.get-put e trlog_map op.id op.op in
      (
        record {
          kept = λ q v h. ground (arith, law trlog_map q, free, h);
          others = λ m q pos. ground (arith, law m q);
          rises = le;
        },
        record { fits = fits; under = λ q h. ground (arith, law trlog_map q, n.under q) },
      )

  id_maximize-lt :
      (top id : ℕ)
      → id + 1 < 2 ^ 64
      → (top ≤ id_maximize top id)
        × (id < id_maximize top id)
        × (top < 2 ^ 64 → id_maximize top id < 2 ^ 64)
  unfolding id_maximize
  id_maximize-lt top id h =
      let w = word_small (id + 1) h in (ground (arith, w), ground (arith, w), ground (arith, w))

  -- One turn of the loop.
  after_put-Extends :
      (works : Bool) (e : E) (top : ℕ) (ch : Bool) (op : Op)
      → Numbered e top
      → IsOp op
      → Extends e top
          (after_put db e top ch op (try_put db works e op)).0
          (after_put db e top ch op (try_put db works e op)).1
        × Numbered
            (after_put db e top ch op (try_put db works e op)).0
            (after_put db e top ch op (try_put db works e op)).1
  after_put-Extends false e top ch op n h = (Extends-refl e top top (omega arith), n)
  after_put-Extends true e top ch op n h = elim (Option-cases (db.get e trlog_map op.id)) [
    | inr (v, taken) ↦
        rw (db.put_new_taken e trlog_map op.id op.op v taken)
          (Extends-refl e top top (omega arith), n)
    | inl free ↦
        let (rises, lt, fits) = id_maximize-lt top op.id h in
        rw (db.put_new_free e trlog_map op.id op.op free)
          (put-Extends e top (id_maximize top op.id) op n free rises lt (fits n.fits))
  ]

  -- The loop, whatever is stored.
  add_ops-Extends :
      (stored : ℕ → Bool) (i : ℕ) (e : E) (top : ℕ) (ch : Bool) (ops : List Op)
      → Numbered e top
      → All IsOp ops
      → Extends e top
          (add_ops db stored i (e, top, ch) ops).0
          (add_ops db stored i (e, top, ch) ops).1
        × Numbered (add_ops db stored i (e, top, ch) ops).0 (add_ops db stored i (e, top, ch) ops).1
  unfolding add_ops
  add_ops-Extends stored i e top ch [] n h = (Extends-refl e top top (omega arith), n)
  add_ops-Extends stored i e top ch (op ∷ ops) n h =
      let r : E × ℕ × Bool = after_put db e top ch op (try_put db (stored i) e op) in
      let (one, n₁) = after_put-Extends (stored i) e top ch op n h.0 in
      let (more, n₂) = add_ops-Extends stored (i + 1) r.0 r.1 r.2 ops n₁ h.1 in
      (Extends-trans one more, n₂)

  after_put-get :
      (e : E) (top : ℕ) (ch : Bool) (op : Op) (q : ℕ)
      → db.get (after_put db e top ch op (try_put db true e op)).0 trlog_map q
        ≡ or_else (db.get e trlog_map q) (if q == op.id then some (op.op) else none)
  after_put-get e top ch op q = elim (Option-cases (db.get e trlog_map op.id)) [
    | inr (v, taken) ↦ rw (db.put_new_taken e trlog_map op.id op.op v taken) (ground (arith, taken))
    | inl free ↦
        rw (db.put_new_free e trlog_map op.id op.op free)
          (ground (arith, db.get-put e trlog_map op.id op.op trlog_map q, free))
  ]

  -- Where everything is stored, the first operation of a number is kept.
  add_ops-get :
      (i : ℕ) (e : E) (top : ℕ) (ch : Bool) (ops : List Op) (q : ℕ)
      → db.get (add_ops db (λ j. true) i (e, top, ch) ops).0 trlog_map q
        ≡ or_else (db.get e trlog_map q) (first q ops)
  unfolding add_ops first
  add_ops-get i e top ch [] q = ground arith
  add_ops-get i e top ch (op ∷ ops) q =
      let r : E × ℕ × Bool = after_put db e top ch op (try_put db true e op) in
      ground (arith, add_ops-get (i + 1) r.0 r.1 r.2 ops q, after_put-get e top ch op q)

  -- Where the numbers of a log are below the next one, and each number of an added operation and
  -- the number after it have 64 bits: whichever calls of LMDB fail, the addition loses no operation
  -- and replaces none, takes no number back, and leaves every number of an operation below the next
  -- one; the position up to which the operations are applied stays.
  pub add-Extends :
      (w : Works) (trlog : Trlog E) (ops : List Op)
      → Numbered trlog.storage trlog.top
      → All IsOp ops
      → Extends trlog.storage trlog.top (add db w trlog ops).2.storage (add db w trlog ops).2.top
        × Numbered (add db w trlog ops).2.storage (add db w trlog ops).2.top
        × ((add db w trlog ops).2.applied ≡ trlog.applied)
  unfolding add
  add-Extends w trlog ops n h =
      let (x, n') = add_ops-Extends w.stored 0 trlog.storage trlog.top false ops n h in
      let same = Extends-refl trlog.storage trlog.top trlog.top (omega arith) in
      elim (Bool-cases w.started) [
        | inr e ↦ rw e (same, n, refl)
        | inl e ↦ elim (Bool-cases (w.opened trlog_map)) [
          | inr o ↦ rw (e, o) (same, n, refl)
          | inl o ↦ elim (Bool-cases w.committed) [
            | inl c ↦ rw (e, o, c) (x, n', refl)
            | inr c ↦
                rw (e, o, c)
                  (
                    Extends-refl trlog.storage trlog.top _ x.rises,
                    record { fits = n'.fits; under = λ q le. n.under q (omega (arith, x.rises)) },
                    refl,
                  )
          ]
        ]
      ]

  -- Where LMDB carries out the calls, an addition stores for each number the operation that was
  -- there, and else the first one that is added.
  pub add-get :
      (trlog : Trlog E) (ops : List Op) (q : ℕ)
      → ((add db all_works trlog ops).0 ≡ true)
        × (db.get (add db all_works trlog ops).2.storage trlog_map q
            ≡ or_else (db.get trlog.storage trlog_map q) (first q ops))
  unfolding add
  add-get trlog ops q = (refl, add_ops-get 0 trlog.storage trlog.top false ops q)

  -- Where no call fails, an operation that is added gets the next number, which none has; no other
  -- operation changes, and the numbers are below the next one, which has 64 bits.
  pub add_op-next :
      (trlog : Trlog E) (op : Bytes)
      → Numbered trlog.storage trlog.top
      → trlog.top + 1 < 2 ^ 64
      → (add_op db all_works trlog op ≡ (
        true,
        true,
        record trlog { storage = db.put trlog.storage trlog_map trlog.top op; top = trlog.top + 1 },
      ))
        × Extends trlog.storage trlog.top
            (db.put trlog.storage trlog_map trlog.top op)
            (trlog.top + 1)
        × Numbered (db.put trlog.storage trlog_map trlog.top op) (trlog.top + 1)
  unfolding add_op
  add_op-next trlog op n h =
      let free = n.under trlog.top (omega arith) in
      let new : Op = record { id = trlog.top; op = op } in
      let next = word_small (trlog.top + 1) h in
      let (x, n') =
        put-Extends trlog.storage trlog.top (trlog.top + 1) new n free (omega arith) (omega arith)
          h in
      (rw (db.put_new_free trlog.storage trlog_map trlog.top op free, next) refl, x, n')

  -- If a call of LMDB fails the operations are as before, though the number may be used up.
  pub add_op_fails :
      (w : Works) (trlog : Trlog E) (op : Bytes)
      → trlog.top + 1 < 2 ^ 64
      → (add_op db w trlog op).0 ≡ false
      → ((add_op db w trlog op).2.storage ≡ trlog.storage)
        × (trlog.top ≤ (add_op db w trlog op).2.top)
        × ((add_op db w trlog op).2.top ≤ trlog.top + 1)
  unfolding add_op
  add_op_fails w trlog op h e = let next = word_small (trlog.top + 1) h in ground (arith, next, e)
