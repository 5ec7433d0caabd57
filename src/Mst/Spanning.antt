-- ===== src/Mst/Spanning.antt =====
-- The result of `mdv_mst_find` in mdv_mst.c.
use mathlib.Core.Option.{some-injective}
use medved_db.Base.{
  ℕ, zero, suc, ◌+◌, ◌-◌, ◌≤◌, ◌<◌, ◌≡◌, ◌⊎◌, refl, ap, sym, ◌∙◌, List, [], ◌∷◌, true, false, none,
  some, arith, ltb, ◌==◌, get_elem?, Bool-cases, inl, inr,
}
use medved_db.Mst.{Link, Forest, found, mst_find, unmark}
use medved_db.Mst.Counts.{occ, total, total-le, total-two}
use medved_db.Mst.Marks.{is_marked, Way, here, count_marked, is_root, IsForest}
use medved_db.Mst.Rounds.{Inside, rounds-IsForest}

-- The ends of all links are nodes.
abbrev pub Within : ℕ → List Link → Type 0
Within n links = (j : ℕ) (l : Link) → get_elem? links j ≡ some l → (l.src < n) × (l.dst < n)

-- The marked links are a spanning tree: one less than the nodes, and they lead from each node to each.
pub record Spanning (n : ℕ) (given : List Link) (size : ℕ) (links : List Link) : Type 0 where
  pub same_links : unmark links ≡ unmark given
  pub size_is : size ≡ n - 1
  pub marked_are : count_marked links ≡ size
  pub ways : (y z : ℕ) → y < n → z < n → Way links y z

-- The nodes fall into parts that no link goes between.
pub record Separated (n : ℕ) (links : List Link) : Type 0 where
  pub part : ℕ → ℕ
  pub one : ℕ
  pub other : ℕ
  pub one_lt : one < n
  pub other_lt : other < n
  pub apart : (part one == part other) ≡ false
  pub within : (j : ℕ) (l : Link) → get_elem? links j ≡ some l → part l.src ≡ part l.dst

unmarked_get :
    (links : List Link) (j : ℕ) (l : Link)
    → get_elem? links j ≡ some l
    → get_elem? (unmark links) j ≡ some (record l { mst = 0 })
unmarked_get [] j l h = absurd (cc)
unmarked_get (x ∷ links) zero l h =
    ap (λ (k : Link). some (record k { mst = 0 })) (some-injective _ _ h)
unmarked_get (x ∷ links) (suc j) l h = unmarked_get links j l h

given_get :
    (links : List Link) (j : ℕ) (l : Link)
    → get_elem? (unmark links) j ≡ some l
    → (k : Link) × (get_elem? links j ≡ some k) × (record k { mst = 0 } ≡ l)
given_get [] j l h = absurd (cc)
given_get (x ∷ links) zero l h = (x, refl, some-injective _ _ h)
given_get (x ∷ links) (suc j) l h = given_get links j l h

count_marked-unmark : (links : List Link) → count_marked (unmark links) ≡ 0
unfolding count_marked
count_marked-unmark [] = refl
count_marked-unmark (l ∷ links) = omega (arith, count_marked-unmark links)

unmark-unmark : (links : List Link) → unmark (unmark links) ≡ unmark links
unmark-unmark [] = refl
unmark-unmark (l ∷ links) = ap (λ (ls : List Link). record l { mst = 0 } ∷ ls) (unmark-unmark links)

unmarked :
    (links : List Link) (j : ℕ) (l : Link)
    → get_elem? (unmark links) j ≡ some l
    → is_marked l ≡ false
unmarked links j l h = let (k, stands, is) = given_get links j l h in sym (ap is_marked is)

-- Each node is a tree at first.
alone : (n : ℕ) → total (is_root (λ i. i)) n ≡ n
unfolding total
alone zero = refl
alone (suc n) = ground (arith, alone n)

first_forest : ℕ → List Link → Forest
first_forest n links = record {
  sets = record { set_id = λ i. i; link = λ i. none; next = λ i. none };
  links = unmark links;
  num_trees = n;
  mst_size = 0;
}

first-IsForest :
    (n : ℕ) (links : List Link) → Within n links → IsForest n links (first_forest n links)
unfolding first_forest occ
first-IsForest n links within = record {
  tails = λ r. [];
  rings = record {
    id_lt = λ y h. h;
    id_root = λ y h. refl;
    occurs = λ r y lt root. ground (arith, lt);
    ring = λ r lt root. refl;
  };
  ends = λ j l h. let (k, stands, is) = given_get links j l h in rw (sym is) (within j k stands);
  trees = alone n;
  size = omega arith;
  connected = λ y z y_lt z_lt same. rw same here;
  inside = λ j l h on. let clash : true ≡ false = sym on ∙ unmarked links j l h in absurd (cc);
  marks = count_marked-unmark links;
  same_links = unmark-unmark links;
}

-- Two different roots.
a_root : (f : ℕ → ℕ) (n : ℕ) → 0 < total f n → (a : ℕ) × (a < n) × (0 < f a)
unfolding total
a_root f zero h = absurd (omega (arith, h))
a_root f (suc n) h = elim (Bool-cases (ltb 0 (f n))) [
  | inl last ↦ (n, omega arith, ground (arith, last))
  | inr before ↦
      let (a, lt, some_a) = a_root f n (ground (arith, h, before)) in (a, omega (arith, lt), some_a)
]

two_roots :
    (set_id : ℕ → ℕ) (n : ℕ)
    → 1 < total (is_root set_id) n
    → (a : ℕ) × (b : ℕ) × (a < b) × (b < n) × (set_id a ≡ a) × (set_id b ≡ b)
unfolding total
two_roots set_id zero h = absurd (omega (arith, h))
two_roots set_id (suc n) h = elim (Bool-cases (set_id n == n)) [
  | inl last ↦
      let (a, lt, some_a) = a_root (is_root set_id) n (ground (arith, h, last)) in
      (a, n, lt, omega arith, ground (arith, some_a), ground (arith, last))
  | inr before ↦
      let (a, b, less, lt, root_a, root_b) = two_roots set_id n (ground (arith, h, before)) in
      (a, b, less, omega (arith, lt), root_a, root_b)
]

-- At most one tree has one root.
one_root :
    (set_id : ℕ → ℕ) (n a b : ℕ)
    → total (is_root set_id) n ≤ 1
    → a < n
    → b < n
    → set_id a ≡ a
    → set_id b ≡ b
    → a ≡ b
one_root set_id n a b few a_lt b_lt root_a root_b = elim (Bool-cases (ltb a b)) [
  | inl less ↦ absurd (
      ground
        (arith, total-two (is_root set_id) a b n (ground (arith, less)) b_lt, few, root_a, root_b))
  | inr ge ↦ elim (Bool-cases (ltb b a)) [
    | inl more ↦ absurd (
        ground (
          arith,
          total-two (is_root set_id) b a n (ground (arith, more)) a_lt,
          few,
          root_a,
          root_b,
        ))
    | inr le ↦ ground (arith, ge, le)
  ]
]

size_one :
    (n : ℕ) (links : List Link) (f : Forest)
    → IsForest n links f
    → f.num_trees ≤ 1
    → f.mst_size ≡ n - 1
size_one zero links f forest few = omega (arith, forest.size)
size_one (suc n) links f forest few =
    let root = forest.rings.id_root 0 (omega arith) in
    let tree =
      total-le (is_root f.sets.set_id) (f.sets.set_id 0) (suc n)
        (forest.rings.id_lt 0 (omega arith)) in
    ground (arith, root, tree, forest.trees, forest.size, few)

Spanning-one :
    (n : ℕ) (links : List Link) (f : Forest)
    → IsForest n links f
    → f.num_trees ≤ 1
    → Spanning n links f.mst_size f.links
Spanning-one n links f forest few = record {
  same_links = forest.same_links;
  size_is = size_one n links f forest few;
  marked_are = forest.marks;
  ways = λ y z y_lt z_lt. forest.connected y z y_lt z_lt (
      one_root f.sets.set_id n (f.sets.set_id y) (f.sets.set_id z) (rw forest.trees few)
        (forest.rings.id_lt y y_lt) (forest.rings.id_lt z z_lt) (forest.rings.id_root y y_lt)
        (forest.rings.id_root z z_lt));
}

Separated-stuck :
    (n : ℕ) (links : List Link) (f : Forest)
    → IsForest n links f
    → Inside f
    → 1 < f.num_trees
    → Separated n links
Separated-stuck n links f forest inside more =
    let many : 1 < total (is_root f.sets.set_id) n = rw forest.trees more in
    let (a, b, less, lt, root_a, root_b) = two_roots f.sets.set_id n many in
    record {
      part = f.sets.set_id;
      one = a;
      other = b;
      one_lt = omega (arith, less, lt);
      other_lt = lt;
      apart = ground (arith, less, root_a, root_b);
      within = λ j l h.
          let marked = ap (λ ls. get_elem? ls j) forest.same_links ∙ unmarked_get links j l h in
          let (k, stands, is) = given_get f.links j (record l { mst = 0 }) marked in
          let src_is : k.src ≡ l.src = ap (λ (x : Link). x.src) is in
          let dst_is : k.dst ≡ l.dst = ap (λ (x : Link). x.dst) is in
          ap f.sets.set_id (sym src_is) ∙ inside j k stands ∙ ap f.sets.set_id dst_is;
    }

-- With memory for the subsets and links between the `n` nodes, the search ends, and only the flags
-- of the links change. Either it gives `n - 1`, so many links are marked and they lead from each
-- node to each other one: a spanning tree. Or it gives 0 and the nodes fall into parts that no link
-- goes between.
pub mst_find-spans :
    (n : ℕ) (links : List Link)
    → Within n links
    → (size : ℕ) × (links₁ : List Link) × (mst_find true n links ≡ some (size, links₁))
      × (unmark links₁ ≡ unmark links)
      × (Spanning n links size links₁ ⊎ (size ≡ 0 × Separated n links))
unfolding mst_find first_forest
mst_find-spans n links within =
    let (f₁, made, result) =
      rounds-IsForest (n + 1) n links (first_forest n links) (first-IsForest n links within)
        (omega arith) in
    elim result [
      | inl (forest, few) ↦ (
        f₁.mst_size,
        f₁.links,
        ap (found links) made,
        forest.same_links,
        inl (Spanning-one n links f₁ forest few),
      )
      | inr (g, forest, inside, more, is) ↦ (
        0,
        g.links,
        ap (found links) (made ∙ ap some is),
        forest.same_links,
        inr (refl, Separated-stuck n links g forest inside more),
      )
    ]
