-- ===== src/Mst/Union.antt =====
-- `mdv_union_subsets` of mdv_mst.c on subsets that are rings.
use mathlib.Core.Path.{subst}
use medved_db.Base.{
  ℕ, ◌<◌, ◌≡◌, refl, ap, sym, ◌∙◌, List, ◌∷◌, ◌++◌, false, Option, some, arith, ltb, ◌==◌, ◌&&◌,
  if◌then◌else◌, Bool-cases, inl, inr,
}
use medved_db.Mst.{Sets, put_at, or_first, union_subsets}
use medved_db.Mst.Counts.{one_if, occ, occ-append}
use medved_db.Mst.Rings.{
  Linked, last_in, closing, occ-last_in, Linked-same, Linked-last_in, Linked-union, Rings,
  united_tails, walked,
}

-- The numbers of the subsets after a union.
abbrev pub joined : ℕ → (ℕ → ℕ) → ℕ → ℕ → ℕ → ℕ
joined n set_id r1 r2 y = if ltb y n && (set_id y == r2) then r1 else set_id y

module _ (n : ℕ) (sets : Sets) (tails : ℕ → List ℕ) (rings : Rings n sets.set_id sets.next tails)
    (r1 r2 : ℕ) (lt1 : r1 < n) (lt2 : r2 < n) (root1 : sets.set_id r1 ≡ r1)
    (root2 : sets.set_id r2 ≡ r2) (apart : (r1 == r2) ≡ false) where
  -- The pointers after the union.
  pointers : ℕ → Option ℕ
  pointers =
      put_at (put_at sets.next r1 (some r2)) (last_in r2 (tails r2)) (or_first (sets.next r1) r1)

  last_is : sets.set_id (last_in r2 (tails r2)) ≡ r2
  last_is =
      ground (arith, rings.occurs r2 (last_in r2 (tails r2)) lt2 root2, occ-last_in r2 (tails r2))

  last_apart : (last_in r2 (tails r2) == r1) ≡ false
  last_apart = ground (arith, last_is, ap sets.set_id, root1, apart)

  -- The pointers of the subsets other than these two.
  pointers-other :
      (y : ℕ) → (y == r1) ≡ false → (sets.set_id y == r2) ≡ false → pointers y ≡ sets.next y
  unfolding pointers
  pointers-other y h k = elim (Bool-cases (y == last_in r2 (tails r2))) [
    | inl here ↦
        let e : y ≡ last_in r2 (tails r2) = ground (arith, here) in
        let is : sets.set_id y ≡ r2 = ap sets.set_id e ∙ last_is in absurd (ground (arith, is, k))
    | inr other ↦ rw (other, h) refl
  ]

  second_ring : Linked pointers (or_first (sets.next r1) r1) r2 (tails r2)
  unfolding pointers
  second_ring =
      let end : ℕ = last_in r2 (tails r2) in
      let at_end : pointers end ≡ or_first (sets.next r1) r1 = ground arith in
      subst (λ o. Linked pointers o r2 (tails r2)) at_end
        (Linked-last_in sets.next pointers (closing r2 (tails r2)) r2 (tails r2)
          (λ y h k. ground (arith, rings.occurs r2 y lt2 root2, h, k, root1, apart))
          (λ y. ground (arith, rings.occurs r2 y lt2 root2)) (rings.ring r2 lt2 root2))

  different : (y z : ℕ) → (sets.set_id y == sets.set_id z) ≡ false → (y == z) ≡ false
  different y z h = elim (Bool-cases (y == z)) [
    | inr other ↦ other
    | inl same ↦
        let e : y ≡ z = ground (arith, same) in
        let same_id : sets.set_id y ≡ sets.set_id z = ap sets.set_id e in
        absurd (ground (arith, same_id, h))
  ]

  -- The first node of a subset is once in its list.
  behind_first : (y : ℕ) → 0 < occ y (tails r1) → (y == r1) ≡ false
  unfolding occ
  behind_first y h = ground (arith, rings.occurs r1 y lt1 root1, h)

  of_first : (y : ℕ) → 0 < occ y (tails r1) → sets.set_id y ≡ r1
  unfolding occ
  of_first y h = ground (arith, rings.occurs r1 y lt1 root1, h)

  to_second : pointers r1 ≡ some r2
  unfolding pointers
  to_second = ground (arith, last_apart)

  module _ (set_id₁ : ℕ → ℕ) (is : (y : ℕ) → set_id₁ y ≡ joined n sets.set_id r1 r2 y) where
    -- A first node of a subset is one that was one before, and not that of the second subset.
    old_root : (r : ℕ) → r < n → set_id₁ r ≡ r → (sets.set_id r ≡ r) × ((r == r2) ≡ false)
    old_root r lt root = elim (Bool-cases (sets.set_id r == r2)) [
      | inl second ↦
          let e : r ≡ r1 = ground (arith, is r, lt, root, second) in
          absurd (ground (arith, ap sets.set_id e, root1, second, apart))
      | inr other ↦
          let same : sets.set_id r ≡ r = ground (arith, is r, lt, root, other) in
          (same, ground (arith, same, other))
    ]

    joined-root : (y : ℕ) → y < n → set_id₁ (set_id₁ y) ≡ set_id₁ y
    joined-root y lt = elim (Bool-cases (sets.set_id y == r2)) [
      | inl second ↦
          let e : set_id₁ y ≡ r1 = ground (arith, is y, lt, second) in
          rw e (ground (arith, is r1, root1, apart))
      | inr other ↦
          let e : set_id₁ y ≡ sets.set_id y = ground (arith, is y, lt, other) in
          rw e (ground (arith, is (sets.set_id y), rings.id_root y lt, other))
    ]

    joined-occurs :
        (r y : ℕ)
        → r < n
        → set_id₁ r ≡ r
        → occ y (r ∷ united_tails tails r1 r2 r) ≡ one_if (ltb y n && (set_id₁ y == r))
    unfolding occ
    joined-occurs r y lt root =
        let (was, apart₂) = old_root r lt root in
        elim (Bool-cases (r == r1)) [
          | inl first ↦
              let e : r ≡ r1 = ground (arith, first) in
              rw e (
                ground (
                  arith,
                  occ-append y (tails r2) (tails r1),
                  rings.occurs r1 y lt1 root1,
                  rings.occurs r2 y lt2 root2,
                  is y,
                  apart,
                ))
          | inr other ↦ rw other (ground (arith, rings.occurs r y lt was, is y, other, apart₂))
        ]

    joined-ring :
        (r : ℕ)
        → r < n
        → set_id₁ r ≡ r
        → Linked pointers (closing r (united_tails tails r1 r2 r)) r (united_tails tails r1 r2 r)
    joined-ring r lt root =
        let (was, apart₂) = old_root r lt root in
        elim (Bool-cases (r == r1)) [
          | inl first ↦
              let e : r ≡ r1 = ground (arith, first) in
              let all : List ℕ = r2 ∷ tails r2 ++ tails r1 in
              let list : united_tails tails r1 r2 r ≡ all = rw first refl in
              subst (λ xs. Linked pointers (closing r xs) r xs) (sym list)
                (subst (λ q. Linked pointers (closing q all) q all) (sym e)
                  (Linked-union sets.next pointers r1 r2 (tails r1) (tails r2)
                    (rings.ring r1 lt1 root1)
                    (λ y h.
                      pointers-other y (behind_first y h) (ground (arith, of_first y h, apart)))
                    to_second second_ring))
          | inr other ↦ rw other (
              Linked-same sets.next pointers (closing r (tails r)) r (tails r)
                (λ y h.
                  let is_r : sets.set_id y ≡ r = ground (arith, rings.occurs r y lt was, h) in
                  pointers-other y (different y r1 (ground (arith, is_r, root1, other)))
                    (ground (arith, is_r, apart₂)))
                (rings.ring r lt was))
        ]

    -- Numbers that are as `joined` says are those of rings again.
    joined-Rings : Rings n set_id₁ pointers (united_tails tails r1 r2)
    joined-Rings = record {
      id_lt = λ y lt. ground (arith, is y, lt, rings.id_lt y lt, lt1);
      id_root = joined-root;
      occurs = joined-occurs;
      ring = joined-ring;
    }

  -- The union of two different subsets uses no null pointer and ends, and joins them to one.
  pub union_subsets-Rings :
      (fuel : ℕ)
      → n < fuel
      → (sets₁ : Sets) × (union_subsets fuel sets r1 r2 ≡ some sets₁)
        × (sets₁.link ≡ sets.link)
        × ((y : ℕ) → sets₁.set_id y ≡ joined n sets.set_id r1 r2 y)
        × Rings n sets₁.set_id sets₁.next (united_tails tails r1 r2)
  unfolding union_subsets pointers
  union_subsets-Rings fuel enough =
      let (set_id₁, made, is₁) =
        walked n sets tails rings r1 r2 lt1 lt2 root1 root2 apart fuel enough in
      let is : (y : ℕ) → set_id₁ y ≡ joined n sets.set_id r1 r2 y =
        λ y. ground (arith, is₁ y, rings.occurs r2 y lt2 root2) in
      (
        record { set_id = set_id₁; link = sets.link; next = pointers },
        rw made refl,
        refl,
        is,
        joined-Rings set_id₁ is,
      )
