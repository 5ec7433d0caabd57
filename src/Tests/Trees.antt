-- ===== src/Tests/Trees.antt =====
-- Runs of mdv_mst.c.
use mathlib.Core.Path.{subst}
use mathlib.Core.Option.{some-injective}
use medved_db.Base.{ℕ, zero, suc, ◌<◌, ◌≡◌, ◌⊎◌, refl, List, [], ◌∷◌, true, some, arith}
use medved_db.Mst.{
  Link, link_greater, is_closer, mst_find, relabel, round, rounds, search, search_step,
  union_subsets, unmark, merge,
}
use medved_db.Mst.Spanning.{Within, Spanning, Separated, mst_find-spans}

abbrev link : ℕ → ℕ → ℕ → Link
link a b w = record { src = a; dst = b; weight = w; mst = 0 }

abbrev square : List Link
square = link 0 1 4 ∷ link 1 2 1 ∷ link 2 3 2 ∷ link 3 0 3 ∷ link 0 2 9 ∷ []

abbrev chosen : Link → Link
chosen l = record l { mst = 1 }

square_tree :
    mst_find true 4 square
    ≡ some (
      3,
      link 0 1 4
          ∷ chosen (link 1 2 1)
          ∷ chosen (link 2 3 2)
          ∷ chosen (link 3 0 3)
          ∷ link 0 2 9
          ∷ [],
    )
unfolding mst_find rounds round search search_step is_closer link_greater merge union_subsets
    relabel
square_tree = refl

at_place :
    (k : Link)
    → (k.src < 4) × (k.dst < 4)
    → (l : Link) → some k ≡ some l
    → (l.src < 4) × (l.dst < 4)
at_place k lt l h = subst (λ x. (x.src < 4) × (x.dst < 4)) (some-injective _ _ h) lt

square-Within : Within 4 square
square-Within zero l h = at_place (link 0 1 4) (omega arith, omega arith) l h
square-Within (suc zero) l h = at_place (link 1 2 1) (omega arith, omega arith) l h
square-Within (suc (suc zero)) l h = at_place (link 2 3 2) (omega arith, omega arith) l h
square-Within (suc (suc (suc zero))) l h = at_place (link 3 0 3) (omega arith, omega arith) l h
square-Within (suc (suc (suc (suc zero)))) l h =
    at_place (link 0 2 9) (omega arith, omega arith) l h
square-Within (suc (suc (suc (suc (suc j))))) l h = absurd (cc)

mst_find-spans_example :
    (size : ℕ) × (links₁ : List Link) × (mst_find true 4 square ≡ some (size, links₁))
    × (unmark links₁ ≡ unmark square)
    × (Spanning 4 square size links₁ ⊎ (size ≡ 0 × Separated 4 square))
mst_find-spans_example = mst_find-spans 4 square square-Within
