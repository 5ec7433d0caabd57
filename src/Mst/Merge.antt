-- ===== src/Mst/Merge.antt =====
-- One union in a round of `mdv_mst_find` in mdv_mst.c.
use medved_db.Base.{
  ℕ, ◌+◌, ◌-◌, ◌<◌, ◌≡◌, refl, ap, ◌∙◌, List, true, false, some, arith, ◌==◌, get_elem?, Bool-cases,
  inl, inr,
}
use medved_db.Mst.{Link, Sets, Forest, mark, merge_link, united}
use medved_db.Mst.Counts.{total, total-put}
use medved_db.Mst.Rings.{Rings, united_tails}
use medved_db.Mst.Union.{joined, union_subsets-Rings}
use medved_db.Mst.Marks.{
  is_marked, Adjacent, Way, here, along, Way-trans, is_root, IsForest, get_elem?-mark, mark_self,
  mark_keeps, count_marked-mark, unmark-mark,
}

Adjacent-sym : {links : List Link} {y z : ℕ} → Adjacent links y z → Adjacent links z y
Adjacent-sym a = record {
  index = a.index;
  link = a.link;
  stands = a.stands;
  marked = a.marked;
  between = elim a.between [ inl forth ↦ inr forth | inr back ↦ inl back ];
}

Way-sym : {links : List Link} {x y : ℕ} → Way links x y → Way links y x
Way-sym here = here
Way-sym (along w a) = Way-trans (along here (Adjacent-sym a)) (Way-sym w)

-- Marking one more link keeps the ways.
Way-mark :
    {links : List Link} {x y : ℕ} (j : ℕ) (l : Link)
    → get_elem? links j ≡ some l
    → is_marked l ≡ false
    → Way links x y
    → Way (mark links j l) x y
Way-mark j l h off here = here
Way-mark {links} j l h off (along w a) = along (Way-mark j l h off w) (record {
  index = a.index;
  link = a.link;
  stands = mark_keeps links j a.index l a.link h off a.stands a.marked;
  marked = a.marked;
  between = a.between;
})

-- The link that is marked is a way.
new-Way :
    (links : List Link) (j : ℕ) (l : Link)
    → get_elem? links j ≡ some l
    → Way (mark links j l) l.src l.dst
new-Way links j l h = along here (record {
  index = j;
  link = record l { mst = 1 };
  stands = mark_self links j l h;
  marked = refl;
  between = inl (refl, refl);
})

module _ (n : ℕ) (given : List Link) (f : Forest) (forest : IsForest n given f) (j : ℕ) (l : Link)
    (stands : get_elem? f.links j ≡ some l)
    (cross : (f.sets.set_id l.src == f.sets.set_id l.dst) ≡ false) where
  abbrev first : ℕ
  first = f.sets.set_id l.src

  abbrev second : ℕ
  second = f.sets.set_id l.dst

  unmarked : is_marked l ≡ false
  unmarked = elim (Bool-cases (is_marked l)) [
    | inr off ↦ off
    | inl on ↦ absurd (ground (arith, forest.inside j l stands on, cross))
  ]

  module _ (sets : Sets)
      (is : (y : ℕ) → sets.set_id y ≡ joined n f.sets.set_id first second y) where
    other_root :
        f.sets.set_id first ≡ first
        → (x : ℕ) → x < n
        → (x == second) ≡ false
        → is_root sets.set_id x ≡ is_root f.sets.set_id x
    other_root root x lt other = elim (Bool-cases (x == first)) [
      | inl at_first ↦
          let e : x ≡ first = ground (arith, at_first) in
          rw e (ground (arith, is first, root, cross))
      | inr apart ↦ ground (arith, is x, lt, other, apart)
    ]

    joined-trees : total (is_root sets.set_id) n + 1 ≡ total (is_root f.sets.set_id) n
    joined-trees =
        let (src_lt, dst_lt) = forest.ends j l stands in
        let first_root = forest.rings.id_root l.src src_lt in
        let second_root = forest.rings.id_root l.dst dst_lt in
        let changed =
          total-put (is_root f.sets.set_id) (is_root sets.set_id) second n
            (forest.rings.id_lt l.dst dst_lt) (other_root first_root) in
        ground (arith, changed, is second, second_root, forest.rings.id_lt l.dst dst_lt, cross)

    joined-connected :
        (y z : ℕ) → y < n → z < n → sets.set_id y ≡ sets.set_id z → Way (mark f.links j l) y z
    joined-connected y z y_lt z_lt same =
        let old : (a b : ℕ)
            → a < n
            → b < n
            → f.sets.set_id a ≡ f.sets.set_id b
            → Way (mark f.links j l) a b =
          λ a b a_lt b_lt e. Way-mark j l stands unmarked (forest.connected a b a_lt b_lt e) in
        let (src_lt, dst_lt) = forest.ends j l stands in
        let new = new-Way f.links j l stands in
        elim (Bool-cases (f.sets.set_id y == second)) [
          | inl y_second ↦ elim (Bool-cases (f.sets.set_id z == second)) [
            | inl z_second ↦ old y z y_lt z_lt (ground (arith, y_second, z_second))
            | inr z_other ↦ Way-trans (old y l.dst y_lt dst_lt (ground (arith, y_second))) (
                Way-trans (Way-sym new) (
                  old l.src z src_lt z_lt
                    (ground (arith, same, is y, is z, y_lt, z_lt, y_second, z_other))))
          ]
          | inr y_other ↦ elim (Bool-cases (f.sets.set_id z == second)) [
            | inl z_second ↦
                Way-trans
                  (old y l.src y_lt src_lt
                    (ground (arith, same, is y, is z, y_lt, z_lt, y_other, z_second)))
                  (Way-trans new (old l.dst z dst_lt z_lt (ground (arith, z_second))))
            | inr z_other ↦
                old y z y_lt z_lt (ground (arith, same, is y, is z, y_lt, z_lt, y_other, z_other))
          ]
        ]

    joined-inside :
        (i : ℕ) (k : Link)
        → get_elem? (mark f.links j l) i ≡ some k
        → is_marked k ≡ true
        → sets.set_id k.src ≡ sets.set_id k.dst
    joined-inside i k e on =
        let (src_lt, dst_lt) = forest.ends j l stands in
        elim (get_elem?-mark f.links j i l k stands e) [
          | inl (same, is_l) ↦ rw is_l (ground (arith, is l.src, is l.dst, src_lt, dst_lt))
          | inr was ↦
              let (k_src, k_dst) = forest.ends i k was in
              let together = forest.inside i k was on in
              ground (arith, is k.src, is k.dst, k_src, k_dst, together)
        ]

    joined-ends :
        (i : ℕ) (k : Link) → get_elem? (mark f.links j l) i ≡ some k → (k.src < n) × (k.dst < n)
    joined-ends i k e = elim (get_elem?-mark f.links j i l k stands e) [
      | inl (same, is_l) ↦ rw is_l (forest.ends j l stands)
      | inr was ↦ forest.ends i k was
    ]

    joined-IsForest :
        (tails : ℕ → List ℕ)
        → Rings n sets.set_id sets.next tails
        → IsForest n given (record {
          sets = sets;
          links = mark f.links j l;
          num_trees = f.num_trees - 1;
          mst_size = f.mst_size + 1;
        })
    joined-IsForest tails rings =
        let one_less = joined-trees in
        record {
          tails = tails;
          rings = rings;
          ends = joined-ends;
          trees = omega (arith, one_less, forest.trees);
          size = omega (arith, one_less, forest.trees, forest.size);
          connected = joined-connected;
          inside = joined-inside;
          marks = count_marked-mark f.links j l stands unmarked ∙ ap (λ m. m + 1) forest.marks;
          same_links = unmark-mark f.links j l stands ∙ forest.same_links;
        }

-- A link between two subsets is marked, and there is one tree less; any other link changes nothing.
pub merge_link-IsForest :
    (n : ℕ) (given : List Link) (f : Forest) (j : ℕ) (l : Link) (fuel : ℕ)
    → IsForest n given f
    → get_elem? f.links j ≡ some l
    → n < fuel
    → (f₁ : Forest) × (merge_link fuel f j (some l) ≡ some f₁)
      × IsForest n given f₁
      × (f₁.sets.link ≡ f.sets.link)
      × ((f.sets.set_id l.src == f.sets.set_id l.dst) ≡ true → f₁ ≡ f)
      × ((f.sets.set_id l.src == f.sets.set_id l.dst) ≡ false → f₁.num_trees + 1 ≡ f.num_trees)
merge_link-IsForest n given f j l fuel forest stands enough =
    let (src_lt, dst_lt) = forest.ends j l stands in
    let r1 : ℕ = f.sets.set_id l.src in
    let r2 : ℕ = f.sets.set_id l.dst in
    elim (Bool-cases (r1 == r2)) [
      | inl together ↦ rw together (f, refl, forest, refl, λ h. refl, λ h. absurd (cc))
      | inr cross ↦
          let (sets, made, link, is, rings) =
            union_subsets-Rings n f.sets forest.tails forest.rings r1 r2
              (forest.rings.id_lt l.src src_lt) (forest.rings.id_lt l.dst dst_lt)
              (forest.rings.id_root l.src src_lt) (forest.rings.id_root l.dst dst_lt) cross fuel
              enough in
          let one_less = joined-trees n given f forest j l stands cross sets is in
          rw cross (
            record {
              sets = sets;
              links = mark f.links j l;
              num_trees = f.num_trees - 1;
              mst_size = f.mst_size + 1;
            },
            ap (united f j l) made,
            joined-IsForest n given f forest j l stands cross sets is
                (united_tails forest.tails r1 r2) rings,
            link,
            λ h. absurd (cc),
            λ h. omega (arith, one_less, forest.trees),
          )
    ]
