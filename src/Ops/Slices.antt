-- ===== src/Ops/Slices.antt =====
-- The loops of the projections in mdv_project.c against descriptions of the values that they take.
use medved_db.Base.{
  ℕ, zero, suc, ◌+◌, ◌-◌, ◌≡◌, refl, ap, sym, ◌∙◌, List, [], ◌∷◌, true, false, Option, none, some,
  arith, leb, ◌==◌, if◌then◌else◌, take, drop, get_elem?, Bool-cases, inl, inr,
}
use medved_db.Ops.{range_values, indexed_values}

-- The values from a position up to another one, of which the first is always looked at.
abbrev pub slice {ℓ} : {V : Type ℓ} → ℕ → ℕ → List V → List V
slice from to vs = drop from (take (if to == 0 then 1 else to) vs)

drop_nil {ℓ} : {V : Type ℓ} (n : ℕ) → drop {A = V} n [] ≡ []
drop_nil zero = refl
drop_nil (suc n) = refl

-- What is left after a value, where `k` more are looked at.
after {ℓ} :
    {V : Type ℓ} (from to i k : ℕ) (vs : List V)
    → i + suc k ≡ (if to == 0 then 1 else to)
    → ((k₁ : ℕ)
        → i + 1 + suc k₁ ≡ (if to == 0 then 1 else to)
        → range_values (λ j. true) from to (i + 1) vs
          ≡ some (drop (from - (i + 1)) (take (suc k₁) vs)))
    → (if leb to (i + 1) then some [] else range_values (λ j. true) from to (i + 1) vs)
      ≡ some (drop (from - (i + 1)) (take k vs))
after from to i zero vs h rest =
    let last : leb to (i + 1) ≡ true = ground (arith, h) in
    rw last (ap some (sym (drop_nil (from - (i + 1)))))
after from to i (suc k) vs h rest =
    let more : leb to (i + 1) ≡ false = ground (arith, h) in rw more (rest k (omega (arith, h)))

-- One value of the row, where `k` more are looked at.
range_values-drop {ℓ} :
    {V : Type ℓ} (from to i k : ℕ) (vs : List V)
    → i + suc k ≡ (if to == 0 then 1 else to)
    → range_values (λ j. true) from to i vs ≡ some (drop (from - i) (take (suc k) vs))
unfolding range_values
range_values-drop from to i k [] h = ap some (sym (drop_nil (from - i)))
range_values-drop from to i k (v ∷ vs) h =
    let next = after from to i k vs h (λ k₁ e. range_values-drop from to (i + 1) k₁ vs e) in
    elim (Bool-cases (leb from i)) [
      | inl past ↦
          let none_left : from - i ≡ 0 = ground (arith, past) in
          let none_next : from - (i + 1) ≡ 0 = ground (arith, past) in
          rw (past, next, none_left, none_next) refl
      | inr before ↦
          let one_left : from - i ≡ suc (from - (i + 1)) = ground (arith, before) in
          rw (before, next, one_left) refl
    ]

pub range_values-slice {ℓ} :
    {V : Type ℓ} (from to : ℕ) (vs : List V)
    → range_values (λ j. true) from to 0 vs ≡ some (slice from to vs)
range_values-slice from zero vs =
    let whole : from - 0 ≡ from = omega arith in
    range_values-drop from 0 0 0 vs refl ∙ ap (λ n. some (drop n (take 1 vs))) whole
range_values-slice from (suc to) vs =
    let whole : from - 0 ≡ from = omega arith in
    let last : 0 + suc to ≡ (if suc to == 0 then 1 else suc to) = ground arith in
    let bound : suc to ≡ (if suc to == 0 then 1 else suc to) = ground arith in
    range_values-drop from (suc to) 0 to vs last
    ∙ ap (λ n. some (drop n (take (suc to) vs))) whole
    ∙ ap (λ n. some (drop from (take n vs))) bound

-- A value, if there is one, before what follows it.
abbrev before_rest {ℓ} : {V : Type ℓ} → Option V → List V → List V
before_rest none rest = []
before_rest (some v) rest = v ∷ rest

-- The values at the indices, up to the first index that is past the end or not after the one before
-- it; `i` is the position of the first value.
unfoldable pub values_at {ℓ} : {V : Type ℓ} → ℕ → List ℕ → List V → List V
values_at i [] vs = []
values_at i (j ∷ indices) vs =
    let rest = values_at (j + 1) indices (drop (j + 1 - i) vs) in
    if leb i j then before_rest (get_elem? vs (j - i)) rest else []

values_at_nil {ℓ} : {V : Type ℓ} (i : ℕ) (indices : List ℕ) → values_at {V = V} i indices [] ≡ []
unfolding values_at
values_at_nil i [] = refl
values_at_nil i (j ∷ indices) = ground arith

pub indexed_values-values_at {ℓ} :
    {V : Type ℓ} (i : ℕ) (indices : List ℕ) (vs : List V)
    → indexed_values (λ j. true) i indices vs ≡ some (values_at i indices vs)
unfolding indexed_values values_at
indexed_values-values_at i [] [] = refl
indexed_values-values_at i [] (v ∷ vs) = refl
indexed_values-values_at i (j ∷ indices) [] = ap some (sym (values_at_nil i (j ∷ indices)))
indexed_values-values_at i (j ∷ indices) (v ∷ vs) =
    let found = indexed_values-values_at (i + 1) indices vs in
    let rest = indexed_values-values_at (i + 1) (j ∷ indices) vs in
    elim (Bool-cases (i == j)) [
      | inl here ↦
          let same : i ≡ j = ground (arith, here) in
          let at : j - i ≡ 0 = omega (arith, same) in
          let behind : j + 1 - i ≡ 1 = omega (arith, same) in
          let reached : leb i j ≡ true = ground (arith, same) in
          rw (here, reached, at, behind, found, same) refl
      | inr other ↦ elim (Bool-cases (leb i j)) [
        | inl ahead ↦
            let at : j - i ≡ suc (j - (i + 1)) = ground (arith, other, ahead) in
            let behind : j + 1 - i ≡ suc (j + 1 - (i + 1)) = ground (arith, other, ahead) in
            let still : leb (i + 1) j ≡ true = ground (arith, other, ahead) in
            rw (other, ahead, at, behind, rest, still) refl
        | inr past ↦
            let still : leb (i + 1) j ≡ false = ground (arith, past) in
            rw (other, past, rest, still) refl
      ]
    ]
