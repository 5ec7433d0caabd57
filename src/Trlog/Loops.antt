-- ===== src/Trlog/Loops.antt =====
-- The loops of mdv_trlog.c that read operations and hand them out.
use medved_db.Base.{
  false, ℕ, ◌+◌, ◌≤◌, ◌<◌, ◌≡◌, refl, ap, List, [], ◌∷◌, ◌++◌, Bool, true, ◌&&◌, none, arith, leb,
  ltb, if◌then◌else◌, All, length, Bool-cases, inl, inr,
}
use medved_db.Lmdb.Engine.{Bytes, Sorted, value_of, at_least}
use medved_db.Lmdb.Ranges.{below, at_least-split, value_of-above}
use medved_db.Trlog.{Op, read_ops, range_ops, apply_ops, word}
use medved_db.Trlog.Append.{IsOp, word_small}

abbrev pub entry_of : Op → ℕ × Bytes
entry_of op = (op.id, op.op)

abbrev pub pairs : List Op → List (ℕ × Bytes)
pairs [] = []
pairs (op ∷ ops) = entry_of op ∷ pairs ops

pub pairs-append : (xs ys : List Op) → pairs (xs ++ ys) ≡ pairs xs ++ pairs ys
pairs-append [] ys = refl
pairs-append (x ∷ xs) ys = ap (λ es. entry_of x ∷ es) (pairs-append xs ys)

-- What was read is the front of what is there, whatever allocation fails.
pub read_ops-prefix :
    (allocated : ℕ → Bool) (size n : ℕ) (es : List (ℕ × Bytes))
    → (rest : List (ℕ × Bytes)) × (es ≡ pairs (read_ops allocated size n es) ++ rest)
unfolding read_ops
read_ops-prefix allocated size n [] = ([], refl)
read_ops-prefix allocated size n ((i, v) ∷ es) =
    let (rest, split) = read_ops-prefix allocated size (n + 1) es in
    (
      (if allocated n then (if leb size (n + 1) then es else rest) else (i, v) ∷ es),
      ground (arith, split),
    )

-- With memory, all the entries below the end are read.
pub range_ops-below :
    (to n : ℕ) (es : List (ℕ × Bytes)) → pairs (range_ops (λ i. true) to n es) ≡ below to es
unfolding range_ops below
range_ops-below to n [] = refl
range_ops-below to n ((i, v) ∷ es) = ground (arith, range_ops-below to (n + 1) es)

-- Each of the operations is accepted, the first one first.
unfoldable pub accepts : {A : Type 0} → (A → Bytes → Bool × A) → A → List Op → Bool
accepts fn arg [] = true
accepts fn arg (op ∷ ops) = (fn arg op.op).0 && accepts fn (fn arg op.op).1 ops

-- The position after operations that begin at a position.
unfoldable pub position_after : ℕ → List Op → ℕ
position_after pos [] = pos
position_after pos (op ∷ ops) = position_after (op.id + 1) ops

-- What the calls for some operations leave, one call for each in their order.
unfoldable pub handed : {A : Type 0} → (A → Bytes → Bool × A) → A → List Op → A
handed fn arg [] = arg
handed fn arg (op ∷ ops) = handed fn (fn arg op.op).1 ops

-- No operation, or a single one, which is refused.
abbrev pub Refuses : {A : Type 0} → (A → Bytes → Bool × A) → A → List Op → Type 0
Refuses fn arg [] = Unit
Refuses fn arg (op ∷ ops) = ((fn arg op.op).0 ≡ false) × (ops ≡ [])

-- The loop of `mdv_trlog_apply` takes operations from the front, as long as they are accepted.
pub apply_ops-front :
    {A : Type 0} (fn : A → Bytes → Bool × A) (arg : A) (n pos : ℕ) (ops : List Op)
    → All IsOp ops
    → (taken left refused behind : List Op) × (ops ≡ taken ++ left)
      × (accepts fn arg taken ≡ true)
      × (left ≡ refused ++ behind)
      × Refuses fn (handed fn arg taken) refused
      × ((apply_ops fn arg n pos ops).0 ≡ handed fn arg (taken ++ refused))
      × ((apply_ops fn arg n pos ops).1 ≡ n + length taken)
      × ((apply_ops fn arg n pos ops).2 ≡ position_after pos taken)
unfolding apply_ops accepts position_after handed
apply_ops-front fn arg n pos [] h = ([], [], [], [], refl, refl, refl, tt, refl, omega arith, refl)
apply_ops-front fn arg n pos (op ∷ ops) h =
    let (taken, left, refused, behind, split, ok, rest, stops, result, count, place) =
      apply_ops-front fn (fn arg op.op).1 (n + 1) (word (op.id + 1)) ops h.1 in
    let next = word_small (op.id + 1) h.0 in
    elim (Bool-cases (fn arg op.op).0) [
      | inl e ↦ (
        op ∷ taken,
        left,
        refused,
        behind,
        ap (λ xs. op ∷ xs) split,
        ground (arith, e, ok),
        rest,
        stops,
        ground (arith, e, result),
        ground (arith, e, count),
        ground (arith, e, place, next),
      )
      | inr e ↦ (
        [],
        op ∷ ops,
        op ∷ [],
        ops,
        refl,
        refl,
        refl,
        (e, refl),
        ground (arith, e),
        ground (arith, e),
        ground (arith, e),
      )
    ]

-- After operations that stand at the front of what is there from a position on, the rest is what is
-- there from the position after them on.
pub at_least-position_after :
    (pos : ℕ) (taken : List Op) (es ys : List (ℕ × Bytes))
    → Sorted es
    → at_least pos es ≡ pairs taken ++ ys
    → at_least (position_after pos taken) es ≡ ys
unfolding position_after
at_least-position_after pos [] es ys s e = e
at_least-position_after pos (op ∷ taken) es ys s e =
    at_least-position_after (op.id + 1) taken es ys s
      (at_least-split pos es [] (pairs taken ++ ys) op.id op.op s e)

-- A bound on the numbers that are found bounds the entries.
pub entries-bound :
    (top : ℕ) (es : List (ℕ × Bytes))
    → Sorted es
    → ((q : ℕ) → top ≤ q → value_of q es ≡ none)
    → All (λ e. e.0 < top) es
unfolding value_of
entries-bound top [] s h = tt
entries-bound top ((i, v) ∷ es) s h = (
  elim (Bool-cases (ltb i top)) [ inl lt ↦ ground arith | inr ge ↦ absurd (ground (arith, h i)) ],
  entries-bound top es s.1 (λ q le. ground (arith, h q, value_of-above q i es s.0)),
)
