-- ===== src/Mst/Marks.antt =====
-- What the rounds of `mdv_mst_find` in mdv_mst.c keep: the marked links are a forest whose trees are
-- the subsets.
use mathlib.Core.Option.{some-injective}
use medved_db.Base.{
  ℕ, zero, suc, ◌+◌, ◌<◌, ◌≡◌, ◌⊎◌, refl, ap, sym, ◌∙◌, List, [], ◌∷◌, Bool, true, false, some,
  arith, ◌==◌, get_elem?, inl, inr,
}
use medved_db.Mst.{Link, Forest, mark, unmark}
use medved_db.Mst.Counts.{one_if, total}
use medved_db.Mst.Rings.{Rings}

abbrev pub is_marked : Link → Bool
is_marked l = l.mst == 1

-- A marked link between two nodes, whichever of them is its source.
pub record Adjacent (links : List Link) (y z : ℕ) : Type 0 where
  pub index : ℕ
  pub link : Link
  pub stands : get_elem? links index ≡ some link
  pub marked : is_marked link ≡ true
  pub between : ((link.src ≡ y) × (link.dst ≡ z)) ⊎ ((link.src ≡ z) × (link.dst ≡ y))

-- A way over marked links.
pub data Way (links : List Link) (x : ℕ) : ℕ → Type 0 where
  here : Way links x x
  along : {y z : ℕ} → Way links x y → Adjacent links y z → Way links x z

pub Way-trans : {links : List Link} {x y z : ℕ} → Way links x y → Way links y z → Way links x z
Way-trans v here = v
Way-trans v (along w a) = along (Way-trans v w) a

unfoldable pub count_marked : List Link → ℕ
count_marked [] = 0
count_marked (l ∷ ls) = one_if (is_marked l) + count_marked ls

abbrev pub is_root : (ℕ → ℕ) → ℕ → ℕ
is_root set_id x = one_if (set_id x == x)

pub record IsForest (n : ℕ) (given : List Link) (f : Forest) : Type 0 where
  pub tails : ℕ → List ℕ
  pub rings : Rings n f.sets.set_id f.sets.next tails
  pub ends : (j : ℕ) (l : Link) → get_elem? f.links j ≡ some l → (l.src < n) × (l.dst < n)
  pub trees : total (is_root f.sets.set_id) n ≡ f.num_trees
  pub size : f.num_trees + f.mst_size ≡ n
  pub connected : (y z : ℕ) → y < n → z < n → f.sets.set_id y ≡ f.sets.set_id z → Way f.links y z
  pub inside :
      (j : ℕ) (l : Link)
      → get_elem? f.links j ≡ some l
      → is_marked l ≡ true
      → f.sets.set_id l.src ≡ f.sets.set_id l.dst
  pub marks : count_marked f.links ≡ f.mst_size
  pub same_links : unmark f.links ≡ unmark given

-- The links after one of them was marked.
pub get_elem?-mark :
    (links : List Link) (j i : ℕ) (l k : Link)
    → get_elem? links j ≡ some l
    → get_elem? (mark links j l) i ≡ some k
    → (i ≡ j × k ≡ record l { mst = 1 }) ⊎ (get_elem? links i ≡ some k)
get_elem?-mark [] j i l k h e = absurd (cc)
get_elem?-mark (x ∷ links) zero zero l k h e = inl (refl, sym (some-injective _ _ e))
get_elem?-mark (x ∷ links) zero (suc i) l k h e = inr e
get_elem?-mark (x ∷ links) (suc j) zero l k h e = inr e
get_elem?-mark (x ∷ links) (suc j) (suc i) l k h e = elim (get_elem?-mark links j i l k h e) [
  | inl (same, is) ↦ inl (ap suc same, is)
  | inr was ↦ inr was
]

pub mark_self :
    (links : List Link) (j : ℕ) (l : Link)
    → get_elem? links j ≡ some l
    → get_elem? (mark links j l) j ≡ some (record l { mst = 1 })
mark_self [] j l h = absurd (cc)
mark_self (x ∷ links) zero l h = refl
mark_self (x ∷ links) (suc j) l h = mark_self links j l h

pub mark_keeps :
    (links : List Link) (j i : ℕ) (l k : Link)
    → get_elem? links j ≡ some l
    → is_marked l ≡ false
    → get_elem? links i ≡ some k
    → is_marked k ≡ true
    → get_elem? (mark links j l) i ≡ some k
mark_keeps [] j i l k h off e on = e
mark_keeps (x ∷ links) zero zero l k h off e on =
    let same : l ≡ k = some-injective _ _ (sym h ∙ e) in
    absurd (ground (arith, ap is_marked same, off, on))
mark_keeps (x ∷ links) zero (suc i) l k h off e on = e
mark_keeps (x ∷ links) (suc j) zero l k h off e on = e
mark_keeps (x ∷ links) (suc j) (suc i) l k h off e on = mark_keeps links j i l k h off e on

pub count_marked-mark :
    (links : List Link) (j : ℕ) (l : Link)
    → get_elem? links j ≡ some l
    → is_marked l ≡ false
    → count_marked (mark links j l) ≡ count_marked links + 1
unfolding count_marked
count_marked-mark [] j l h off = absurd (cc)
count_marked-mark (x ∷ links) zero l h off =
    let same : is_marked x ≡ false = ap is_marked (some-injective _ _ h) ∙ off in
    ground (arith, same)
count_marked-mark (x ∷ links) (suc j) l h off = omega (arith, count_marked-mark links j l h off)

pub unmark-mark :
    (links : List Link) (j : ℕ) (l : Link)
    → get_elem? links j ≡ some l
    → unmark (mark links j l) ≡ unmark links
unmark-mark [] j l h = refl
unmark-mark (x ∷ links) zero l h =
    ap (λ (k : Link). record k { mst = 0 } ∷ unmark links) (sym (some-injective _ _ h))
unmark-mark (x ∷ links) (suc j) l h =
    ap (λ (ls : List Link). record x { mst = 0 } ∷ ls) (unmark-mark links j l h)
