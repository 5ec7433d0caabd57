-- ===== src/Algorithm.antt =====
-- The operations on sorted arrays of mdv_platform/generic/mdv_algorithm.c. A position that moves
-- through an array is the list of the items from there on; the output is the list that is written.
pub mod Membership
pub mod Bounds
use Prim.Native.Nat.{compare, Ordering}
use medved_db.Base.{
  ℕ, zero, suc, ◌+◌, ◌-◌, ◌/◌, ◌≡◌, List, [], ◌∷◌, ◌++◌, Bool, true, false, ltb, ◌==◌,
  if◌then◌else◌, length, drop,
}

-- The loop for one item `a` of the first set, over the second one. `later` is the loop from the next
-- item on.
abbrev pub diff_from : ℕ → List ℕ → (List ℕ → List ℕ) → List ℕ → List ℕ
diff_from a set_a later [] = a ∷ set_a
diff_from a set_a later (b ∷ set_b) =
    let rest = diff_from a set_a later set_b in
    let after_a = later (b ∷ set_b) in
    let after_both = later set_b in
    if ltb a b then a ∷ after_a else if a == b then after_both else rest

unfoldable pub diff : List ℕ → List ℕ → List ℕ
diff [] set_b = []
diff (a ∷ set_a) set_b = diff_from a set_a (diff set_a) set_b

abbrev pub union_from : ℕ → List ℕ → (List ℕ → List ℕ) → List ℕ → List ℕ
union_from a set_a later [] = a ∷ set_a
union_from a set_a later (b ∷ set_b) =
    let rest = union_from a set_a later set_b in
    let after_a = later (b ∷ set_b) in
    let after_both = later set_b in
    if ltb b a then b ∷ rest else if a == b then a ∷ after_both else a ∷ after_a

unfoldable pub union : List ℕ → List ℕ → List ℕ
union [] set_b = set_b
union (a ∷ set_a) set_b = union_from a set_a (union set_a) set_b

module _ {A B : Type 0} (cmp : A → B → Ordering) where
  abbrev pub kept_from : A → List A → (List B → List A) → List B → List A
  kept_from a set_a later [] = a ∷ set_a
  kept_from a set_a later (b ∷ set_b) =
      let rest = kept_from a set_a later set_b in
      let after_a = later (b ∷ set_b) in
      let after_both = later set_b in
      elim (cmp a b) [ Ordering.lt ↦ a ∷ after_a | Ordering.eq ↦ after_both | Ordering.gt ↦ rest ]

  -- The items that are copied to the front.
  unfoldable pub kept : List A → List B → List A
  kept [] set_b = []
  kept (a ∷ set_a) set_b = kept_from a set_a (kept set_a) set_b

  -- The array after the copies, none of which overtakes the reading, and the new size.
  unfoldable pub exclude : List A → List B → List A × ℕ
  unfolding kept
  exclude set_a set_b =
      let front = kept set_a set_b in (front ++ drop (length front) set_a, length front)

-- A search ends at a position, or it reads before the array.
pub data Search : Type 0 where
  null_pointer before_array unfinished : Search
  position : ℕ → Search

-- The loop of `mdv_lower_bound`; `past_b` is the position after `b`. `cmp` compares the key with the
-- item at a position. `fuel` counts the rounds that are left.
unfoldable pub lower_bound_loop : ℕ → (ℕ → Ordering) → ℕ → ℕ → Search
lower_bound_loop zero cmp a past_b = unfinished
lower_bound_loop (suc fuel) cmp a past_b =
    let c = a + (past_b - 1 - a) / 2 in
    let left = lower_bound_loop fuel cmp a c in
    let right = lower_bound_loop fuel cmp (c + 1) past_b in
    if ltb (a + 1) past_b
    then elim (cmp c) [ Ordering.lt ↦ left | Ordering.eq ↦ position c | Ordering.gt ↦ right ]
    else (if past_b == 0 then before_array else elim (cmp (past_b - 1)) [
      | Ordering.lt ↦ position (past_b - 1)
      | Ordering.eq ↦ position (past_b - 1)
      | Ordering.gt ↦ position past_b
    ])

-- Each round takes at least one item off the range.
unfoldable pub lower_bound : (ℕ → Ordering) → ℕ → Search
lower_bound cmp nmemb =
    if nmemb == 0 then null_pointer else lower_bound_loop (nmemb + 1) cmp 0 nmemb
