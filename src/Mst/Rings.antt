-- ===== src/Mst/Rings.antt =====
-- The subsets of mdv_mst.c as circular lists, and their union.
use medved_db.Base.{
  ℕ, zero, suc, ◌+◌, ◌≤◌, ◌<◌, ◌≡◌, refl, sym, ◌∙◌, List, [], ◌∷◌, ◌++◌, false, Option, none, some,
  arith, ltb, ◌==◌, ◌&&◌, if◌then◌else◌, length, append-nil, Bool-cases, inl, inr,
}
use mathlib.Core.Path.{subst}
use medved_db.Mst.{Sets, put_at, relabel, or_first}
use medved_db.Mst.Counts.{one_if, occ, length-occ}

-- The subsets from one on stand in a list, and the last one points to `stop`.
abbrev pub Linked : (ℕ → Option ℕ) → Option ℕ → ℕ → List ℕ → Type 0
Linked next stop x [] = next x ≡ stop
Linked next stop x (y ∷ ys) = (next x ≡ some y) × Linked next stop y ys

abbrev pub last_in : ℕ → List ℕ → ℕ
last_in x [] = x
last_in x (y ∷ ys) = last_in y ys

-- A subset of one node points to nothing, a larger one is closed.
abbrev pub closing : ℕ → List ℕ → Option ℕ
closing r [] = none
closing r (x ∷ xs) = some r

abbrev Stops : (ℕ → ℕ) → ℕ → Option ℕ → Type 0
Stops set_id id1 none = Unit
Stops set_id id1 (some q) = set_id q ≡ id1

Stops-put_at :
    (set_id : ℕ → ℕ) (id1 p : ℕ) (stop : Option ℕ)
    → Stops set_id id1 stop
    → Stops (put_at set_id p id1) id1 stop
Stops-put_at set_id id1 p none s = tt
Stops-put_at set_id id1 p (some q) s = ground (arith, s)

-- The walk through a list of subsets that are not changed yet changes them all.
relabel-Linked :
    (fuel id1 : ℕ) (next : ℕ → Option ℕ) (set_id : ℕ → ℕ) (stop : Option ℕ) (x : ℕ) (ys : List ℕ)
    → Linked next stop x ys
    → Stops set_id id1 stop
    → ((y : ℕ) → occ y ys ≤ 1)
    → ((y : ℕ) → 0 < occ y ys → (set_id y == id1) ≡ false)
    → length ys < fuel
    → (set_id₁ : ℕ → ℕ) × (relabel fuel id1 next set_id (next x) (some x)
        ≡ some (set_id₁, some (last_in x ys)))
      × ((y : ℕ) → set_id₁ y ≡ (if ltb 0 (occ y ys) then id1 else set_id y))
unfolding relabel occ
relabel-Linked zero id1 next set_id stop x ys l s once fresh enough = absurd (omega (arith, enough))
relabel-Linked (suc fuel) id1 next set_id none x [] l s once fresh enough =
    (set_id, rw l refl, λ y. refl)
relabel-Linked (suc fuel) id1 next set_id (some q) x [] l s once fresh enough =
    (set_id, ground (arith, l, s), λ y. refl)
relabel-Linked (suc fuel) id1 next set_id stop x (y ∷ ys) (l, ls) s once fresh enough =
    let set_id₁ : ℕ → ℕ = put_at set_id y id1 in
    let apart : occ y ys ≡ 0 = ground (arith, once y) in
    let changed : (set_id y == id1) ≡ false = fresh y (ground arith) in
    let (set_id₂, walked, is) =
      relabel-Linked fuel id1 next set_id₁ stop y ys ls (Stops-put_at set_id id1 y stop s)
        (λ z. omega (arith, once z)) (λ z h. ground (arith, apart, h, fresh z))
        (omega (arith, enough)) in
    (set_id₂, ground (arith, l, changed, walked), λ z. ground (arith, is z))

-- A list whose pointers are not changed stays one.
pub Linked-same :
    (next next₁ : ℕ → Option ℕ) (stop : Option ℕ) (x : ℕ) (ys : List ℕ)
    → ((y : ℕ) → 0 < occ y (x ∷ ys) → next₁ y ≡ next y)
    → Linked next stop x ys
    → Linked next₁ stop x ys
unfolding occ
Linked-same next next₁ stop x [] same l = same x (ground arith) ∙ l
Linked-same next next₁ stop x (y ∷ ys) same (l, ls) = (
  same x (ground arith) ∙ l,
  Linked-same next next₁ stop y ys (λ z h. same z (omega (arith, h))) ls,
)

pub occ-last_in : (y : ℕ) (ys : List ℕ) → 0 < occ (last_in y ys) (y ∷ ys)
unfolding occ
occ-last_in y [] = ground arith
occ-last_in y (z ∷ ys) = omega (arith, occ-last_in z ys)

last_in-apart : (x y : ℕ) (ys : List ℕ) → occ x (x ∷ y ∷ ys) ≤ 1 → (x == last_in y ys) ≡ false
unfolding occ
last_in-apart x y ys h = elim (Bool-cases (x == last_in y ys)) [
  | inr apart ↦ apart
  | inl here ↦
      let e : x ≡ last_in y ys = ground (arith, here) in
      let more : 0 < occ x (y ∷ ys) = subst (λ z. 0 < occ z (y ∷ ys)) (sym e) (occ-last_in y ys) in
      let once : occ x (x ∷ y ∷ ys) ≡ 1 + occ x (y ∷ ys) = ground arith in
      absurd (omega (arith, more, once, h))
]

-- The last pointer of a list is changed.
pub Linked-last_in :
    (next next₁ : ℕ → Option ℕ) (stop : Option ℕ) (x : ℕ) (ys : List ℕ)
    → ((y : ℕ) → 0 < occ y (x ∷ ys) → (y == last_in x ys) ≡ false → next₁ y ≡ next y)
    → ((y : ℕ) → occ y (x ∷ ys) ≤ 1)
    → Linked next stop x ys
    → Linked next₁ (next₁ (last_in x ys)) x ys
unfolding occ
Linked-last_in next next₁ stop x [] same once l = refl
Linked-last_in next next₁ stop x (y ∷ ys) same once (l, ls) = (
  same x (ground arith) (last_in-apart x y ys (once x)) ∙ l,
  Linked-last_in next next₁ stop y ys (λ z h. same z (omega (arith, h)))
      (λ z. omega (arith, once z)) ls,
)

-- Two lists, one behind the other.
Linked-append :
    (next : ℕ → Option ℕ) (stop : Option ℕ) (x : ℕ) (ys : List ℕ) (z : ℕ) (zs : List ℕ)
    → Linked next (some z) x ys
    → Linked next stop z zs
    → Linked next stop x (ys ++ z ∷ zs)
Linked-append next stop x [] z zs l ls = (l, ls)
Linked-append next stop x (y ∷ ys) z zs (l, ls) ms = (l, Linked-append next stop y ys z zs ls ms)

-- The ring of the second subset is put behind the first node of the first one.
pub Linked-union :
    (next next₁ : ℕ → Option ℕ) (r1 r2 : ℕ) (xs ys : List ℕ)
    → Linked next (closing r1 xs) r1 xs
    → ((y : ℕ) → 0 < occ y xs → next₁ y ≡ next y)
    → next₁ r1 ≡ some r2
    → Linked next₁ (or_first (next r1) r1) r2 ys
    → Linked next₁ (some r1) r1 (r2 ∷ ys ++ xs)
Linked-union next next₁ r1 r2 [] ys ring same to_second second =
    (to_second, rw (append-nil ys) (subst (λ o. Linked next₁ (or_first o r1) r2 ys) ring second))
Linked-union next next₁ r1 r2 (x ∷ xs) ys (to_first, ring) same to_second second = (
  to_second,
  Linked-append next₁ (some r1) r2 ys x xs
      (subst (λ o. Linked next₁ (or_first o r1) r2 ys) to_first second)
      (Linked-same next next₁ (some r1) x xs same ring),
)

-- Every node is in a subset with a first node, whose list has the nodes of the subset, each once.
pub record Rings (n : ℕ) (set_id : ℕ → ℕ) (next : ℕ → Option ℕ) (tails : ℕ → List ℕ) : Type 0 where
  pub id_lt : (y : ℕ) → y < n → set_id y < n
  pub id_root : (y : ℕ) → y < n → set_id (set_id y) ≡ set_id y
  pub occurs :
      (r y : ℕ) → r < n → set_id r ≡ r → occ y (r ∷ tails r) ≡ one_if (ltb y n && (set_id y == r))
  pub ring : (r : ℕ) → r < n → set_id r ≡ r → Linked next (closing r (tails r)) r (tails r)

-- The list of a united subset.
abbrev pub united_tails : (ℕ → List ℕ) → ℕ → ℕ → ℕ → List ℕ
united_tails tails r1 r2 = put_at tails r1 (r2 ∷ tails r2 ++ tails r1)

module _ (n : ℕ) (sets : Sets) (tails : ℕ → List ℕ) (rings : Rings n sets.set_id sets.next tails)
    (r1 r2 : ℕ) (lt1 : r1 < n) (lt2 : r2 < n) (root1 : sets.set_id r1 ≡ r1)
    (root2 : sets.set_id r2 ≡ r2) (apart : (r1 == r2) ≡ false) where
  Stops-closing : (ys : List ℕ) → Stops (put_at sets.set_id r2 r1) r1 (closing r2 ys)
  Stops-closing [] = tt
  Stops-closing (y ∷ ys) = ground arith

  -- The nodes of the second subset are those that the walk changes.
  pub walked :
      (fuel : ℕ)
      → n < fuel
      → (set_id₁ : ℕ → ℕ) × (relabel fuel r1
            (put_at sets.next r1 (some r2))
            sets.set_id
            (some r2)
            none
          ≡ some (set_id₁, some (last_in r2 (tails r2))))
        × ((y : ℕ) → set_id₁ y ≡ (if ltb 0 (occ y (r2 ∷ tails r2)) then r1 else sets.set_id y))
  unfolding relabel occ
  walked zero enough = absurd (omega (arith, enough))
  walked (suc fuel) enough =
      let next₁ : ℕ → Option ℕ = put_at sets.next r1 (some r2) in
      let ids : ℕ → ℕ = put_at sets.set_id r2 r1 in
      let is : (y : ℕ) → occ y (r2 ∷ tails r2) ≡ one_if (ltb y n && (sets.set_id y == r2)) =
        λ y. rings.occurs r2 y lt2 root2 in
      let short = length-occ n (r2 ∷ tails r2) (λ y. ground (arith, is y)) in
      let (set_id₁, made, is₁) =
        relabel-Linked fuel r1 next₁ ids (closing r2 (tails r2)) r2 (tails r2)
          (Linked-same sets.next next₁ (closing r2 (tails r2)) r2 (tails r2)
            (λ y h. ground (arith, is y, h, root1, apart)) (rings.ring r2 lt2 root2))
          (Stops-closing (tails r2)) (λ y. ground (arith, is y))
          (λ y h. ground (arith, is y, h, apart)) (omega (arith, short, enough)) in
      let fresh : (sets.set_id r2 == r1) ≡ false = ground (arith, root2, apart) in
      (set_id₁, rw fresh made, λ y. ground (arith, is₁ y))
