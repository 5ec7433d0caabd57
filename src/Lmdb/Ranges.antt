-- ===== src/Lmdb/Ranges.antt =====
-- Sorted entries, and the part of them from a key on.
use mathlib.Core.Path.{subst}
use medved_db.Base.{
  ℕ, ◌+◌, ◌≤◌, ◌<◌, ◌≡◌, refl, ap, sym, ◌∙◌, List, [], ◌∷◌, ◌++◌, none, arith, leb, ltb,
  if◌then◌else◌, All, Bool-cases, inl, inr, leb→le,
}
use medved_db.Lmdb.Engine.{Bytes, Sorted, value_of, at_least}

-- The entries below a key.
unfoldable pub below : ℕ → List (ℕ × Bytes) → List (ℕ × Bytes)
below k [] = []
below k ((i, v) ∷ es) = if ltb i k then (i, v) ∷ below k es else []

pub value_of-above :
    (q k : ℕ) (es : List (ℕ × Bytes)) → All (λ e. k < e.0) es → q ≤ k → value_of q es ≡ none
unfolding value_of
value_of-above q k [] h le = refl
value_of-above q k ((i, v) ∷ es) h le = ground (arith, value_of-above q k es h.1, h.0)

pub value_of-at_least :
    (q k : ℕ) (es : List (ℕ × Bytes))
    → Sorted es
    → value_of q (at_least k es) ≡ (if leb k q then value_of q es else none)
unfolding value_of at_least
value_of-at_least q k [] s = ground arith
value_of-at_least q k ((i, v) ∷ es) s =
    ground (arith, value_of-at_least q k es s.1, value_of-above q i es s.0)

pub value_of-below :
    (q k : ℕ) (es : List (ℕ × Bytes))
    → Sorted es
    → value_of q (below k es) ≡ (if ltb q k then value_of q es else none)
unfolding value_of below
value_of-below q k [] s = ground arith
value_of-below q k ((i, v) ∷ es) s =
    ground (arith, value_of-below q k es s.1, value_of-above q i es s.0)

pub at_least-Sorted : (k : ℕ) (es : List (ℕ × Bytes)) → Sorted es → Sorted (at_least k es)
unfolding at_least
at_least-Sorted k [] s = tt
at_least-Sorted k ((i, v) ∷ es) s = ground (arith, at_least-Sorted k es s.1)

at_least_twice :
    (j k : ℕ) (es : List (ℕ × Bytes)) → k ≤ j → at_least j (at_least k es) ≡ at_least j es
unfolding at_least
at_least_twice j k [] h = refl
at_least_twice j k ((i, v) ∷ es) h = ground (arith, at_least_twice j k es)

at_least-All : (k : ℕ) (es : List (ℕ × Bytes)) → All (λ e. k < e.0) es → at_least (k + 1) es ≡ es
unfolding at_least
at_least-All k [] h = refl
at_least-All k ((i, v) ∷ es) h = ground (arith, h.0)

-- After the entries up to one of key `i` come those from `i + 1` on.
at_least-after :
    (xs ys : List (ℕ × Bytes)) (i : ℕ) (v : Bytes)
    → Sorted (xs ++ (i, v) ∷ ys)
    → at_least (i + 1) (xs ++ (i, v) ∷ ys) ≡ ys
unfolding at_least
at_least-after [] ys i v s = ground (arith, at_least-All i ys s.0)
at_least-after ((j, w) ∷ xs) ys i v s =
    let first : j < i = key_in xs s.0 in ground (arith, at_least-after xs ys i v s.1)
  where
    key_in : (xs : List (ℕ × Bytes)) → All (λ e. j < e.0) (xs ++ (i, v) ∷ ys) → j < i
    key_in [] h = h.0
    key_in (x ∷ xs) h = key_in xs h.1

above_weaken :
    (k j : ℕ) (es : List (ℕ × Bytes)) → k ≤ j → All (λ e. j < e.0) es → All (λ e. k ≤ e.0) es
above_weaken k j [] le h = tt
above_weaken k j (e ∷ es) le h = (omega (arith, h.0), above_weaken k j es le h.1)

-- No entry from a key on is below the key.
pub at_least-above :
    (k : ℕ) (es : List (ℕ × Bytes)) → Sorted es → All (λ e. k ≤ e.0) (at_least k es)
unfolding at_least
at_least-above k [] s = tt
at_least-above k ((i, v) ∷ es) s = elim (Bool-cases (leb k i)) [
  | inl le ↦ rw le (leb→le k i le, above_weaken k i es (leb→le k i le) s.0)
  | inr gt ↦ rw gt (at_least-above k es s.1)
]

All-middle :
    (k : ℕ) (xs ys : List (ℕ × Bytes)) (i : ℕ) (v : Bytes)
    → All (λ e. k ≤ e.0) (xs ++ (i, v) ∷ ys)
    → k ≤ i
All-middle k [] ys i v h = h.0
All-middle k (x ∷ xs) ys i v h = All-middle k xs ys i v h.1

pub at_least-split :
    (k : ℕ) (es xs ys : List (ℕ × Bytes)) (i : ℕ) (v : Bytes)
    → Sorted es
    → at_least k es ≡ xs ++ (i, v) ∷ ys
    → at_least (i + 1) es ≡ ys
at_least-split k es xs ys i v s e =
    let bound =
      All-middle k xs ys i v (subst (λ l. All (λ e. k ≤ e.0) l) e (at_least-above k es s)) in
    let sorted = subst Sorted e (at_least-Sorted k es s) in
    sym (at_least_twice (i + 1) k es (omega arith))
    ∙ ap (at_least (i + 1)) e
    ∙ at_least-after xs ys i v sorted
