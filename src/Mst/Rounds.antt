-- ===== src/Mst/Rounds.antt =====
-- The rounds of `mdv_mst_find` in mdv_mst.c.
use mathlib.Core.Path.{subst}
use mathlib.Core.Option.{some-injective}
use medved_db.Base.{
  ℕ, zero, suc, ◌+◌, ◌≤◌, ◌<◌, ◌≡◌, ◌⊎◌, refl, ap, sym, ◌∙◌, List, [], ◌∷◌, Bool, true, false,
  Option, none, some, arith, ltb, ◌==◌, get_elem?, length, Bool-cases, Option-cases, inl, inr,
}
use medved_db.Mst.{Link, Forest, merge_step, merge, round, rounds, search, unmark}
use medved_db.Mst.Marks.{IsForest}
use medved_db.Mst.Merge.{merge_link-IsForest}
use medved_db.Mst.Search.{is_some, search-Crossing, search_finds}

length-unmark : (links : List Link) → length (unmark links) ≡ length links
length-unmark [] = refl
length-unmark (l ∷ links) = ap suc (length-unmark links)

get_elem?-lt :
    (links : List Link) (j : ℕ) → j < length links → (l : Link) × (get_elem? links j ≡ some l)
get_elem?-lt [] j h = absurd (omega (arith, h))
get_elem?-lt (l ∷ links) zero h = (l, refl)
get_elem?-lt (l ∷ links) (suc j) h = get_elem?-lt links j (omega (arith, h))

lt-get_elem? :
    (links : List Link) (j : ℕ) (l : Link) → get_elem? links j ≡ some l → j < length links
lt-get_elem? [] j l h = absurd (cc)
lt-get_elem? (x ∷ links) zero l h = omega arith
lt-get_elem? (x ∷ links) (suc j) l h = omega (arith, lt-get_elem? links j l h)

-- Every link of a subset is one of the array.
abbrev Valid : Forest → Type 0
Valid f = (s j : ℕ) → f.sets.link s ≡ some j → j < length f.links

-- The link of the subset `s` does not go to another one.
abbrev Idle : Forest → ℕ → Type 0
Idle f s =
    (j : ℕ) (l : Link)
    → f.sets.link s ≡ some j
    → get_elem? f.links j ≡ some l
    → (f.sets.set_id l.src == f.sets.set_id l.dst) ≡ true

module _ (n : ℕ) (given : List Link) (fuel : ℕ) (enough : n < fuel) where
  length-given : (f : Forest) → IsForest n given f → length f.links ≡ length given
  length-given f forest =
      sym (length-unmark f.links) ∙ ap length forest.same_links ∙ length-unmark given

  -- What a part of the merging leaves.
  record Merged (f f₁ : Forest) : Type 0 where
    forest : IsForest n given f₁
    valid : Valid f₁
    fewer : f₁.num_trees ≤ f.num_trees
    same : f₁.num_trees ≡ f.num_trees → f₁ ≡ f

  merge_step-Merged :
      (f : Forest) (i : ℕ)
      → IsForest n given f
      → Valid f
      → (f₁ : Forest) × (merge_step fuel f (f.sets.link i) ≡ some f₁)
        × Merged f f₁
        × (f₁.num_trees ≡ f.num_trees → Idle f i)
  merge_step-Merged f i forest valid = elim (Option-cases (f.sets.link i)) [
    | inl empty ↦ rw empty (
      f,
      refl,
      record { forest = forest; valid = valid; fewer = omega arith; same = λ e. refl },
      λ e k x h g. absurd (cc),
    )
    | inr (j, some_link) ↦
        let (l, stands) = get_elem?-lt f.links j (valid i j some_link) in
        let (f₁, made, forest₁, link, kept, one_less) =
          merge_link-IsForest n given f j l fuel forest stands enough in
        let long = length-given f forest in
        let long₁ = length-given f₁ forest₁ in
        let together : Bool = f.sets.set_id l.src == f.sets.set_id l.dst in
        rw (some_link, stands)
          (
            f₁,
            made,
            record {
              forest = forest₁;
              valid = λ s k h.
                  let was : f.sets.link s ≡ some k = ap (λ g. g s) (sym link) ∙ h in
                  omega (arith, valid s k was, long, long₁);
              fewer = elim (Bool-cases together) [
                | inl same ↦ omega (arith, ap (λ (g : Forest). g.num_trees) (kept same))
                | inr cross ↦ omega (arith, one_less cross)
              ];
              same = λ e. elim (Bool-cases together) [
                | inl same ↦ kept same
                | inr cross ↦ absurd (omega (arith, one_less cross, e))
              ];
            },
            λ e k x h g.
                let same_link : j ≡ k = some-injective _ _ h in
                let is_x : l ≡ x = some-injective _ _ (sym stands ∙ rw same_link g) in
                elim (Bool-cases together) [
                  | inl same ↦ rw (sym is_x) same
                  | inr cross ↦ absurd (omega (arith, one_less cross, e))
                ],
          )
  ]

  merge-Merged :
      (k i : ℕ) (f : Forest)
      → IsForest n given f
      → Valid f
      → (f₁ : Forest) × (merge fuel k i (some f) ≡ some f₁)
        × Merged f f₁
        × (f₁.num_trees ≡ f.num_trees → (s : ℕ) → i ≤ s → s < i + k → Idle f s)
  unfolding merge
  merge-Merged zero i f forest valid = (
    f,
    refl,
    record { forest = forest; valid = valid; fewer = omega arith; same = λ e. refl },
    λ e s from to. absurd (omega (arith, from, to)),
  )
  merge-Merged (suc k) i f forest valid =
      let (f₁, made, merged, idle) = merge_step-Merged f i forest valid in
      let (f₂, made₂, merged₂, idle₂) = merge-Merged k (i + 1) f₁ merged.forest merged.valid in
      let same_first : f₂.num_trees ≡ f.num_trees → f₁.num_trees ≡ f.num_trees =
        λ e. omega (arith, e, merged.fewer, merged₂.fewer) in
      let same_second : f₂.num_trees ≡ f.num_trees → f₂.num_trees ≡ f₁.num_trees =
        λ e. omega (arith, e, merged.fewer, merged₂.fewer) in
      (
        f₂,
        ap (merge fuel k (i + 1)) made ∙ made₂,
        record {
          forest = merged₂.forest;
          valid = merged₂.valid;
          fewer = omega (arith, merged.fewer, merged₂.fewer);
          same = λ e. merged₂.same (same_second e) ∙ merged.same (same_first e);
        },
        λ e s from to. elim (Bool-cases (s == i)) [
          | inl at_first ↦
              let is_i : i ≡ s = ground (arith, at_first) in
              subst (Idle f) is_i (idle (same_first e))
          | inr after ↦
              subst (λ g. Idle g s) (merged.same (same_first e))
                (idle₂ (same_second e) s (ground (arith, from, after)) (omega (arith, to)))
        ],
      )

-- No link goes between two subsets.
abbrev pub Inside : Forest → Type 0
Inside f =
    (j : ℕ) (l : Link) → get_elem? f.links j ≡ some l → f.sets.set_id l.src ≡ f.sets.set_id l.dst

-- A round gives a forest of no more trees, and of fewer as long as a link goes between two of them.
pub round-IsForest :
    (n : ℕ) (given : List Link) (f : Forest)
    → IsForest n given f
    → (f₁ : Forest) × (round n f ≡ some f₁)
      × IsForest n given f₁
      × (f₁.num_trees ≤ f.num_trees)
      × (f₁.num_trees ≡ f.num_trees → Inside f₁)
unfolding round
round-IsForest n given f forest =
    let link : ℕ → Option ℕ = search f.links f.sets.set_id (λ x. none) 0 f.links in
    let g : Forest = record f { sets = record f.sets { link = link } } in
    let crossing =
      search-Crossing f.links f.sets.set_id (λ x. none) 0 f.links
        (λ k l h. let place : 0 + k ≡ k = omega arith in rw place h) (λ s j h. absurd (cc)) in
    let same : IsForest n given g = record {
      tails = forest.tails;
      rings = forest.rings;
      ends = forest.ends;
      trees = forest.trees;
      size = forest.size;
      connected = forest.connected;
      inside = forest.inside;
      marks = forest.marks;
      same_links = forest.same_links;
    } in
    let valid : Valid g =
      λ s j h. let (l, stands, cross) = crossing s j h in lt-get_elem? f.links j l stands in
    let (f₁, made, merged, idle) = merge-Merged n given (n + 1) (omega arith) n 0 g same valid in
    let inside : f₁.num_trees ≡ f.num_trees → Inside g = λ e j l h.
      elim (Bool-cases (f.sets.set_id l.src == f.sets.set_id l.dst)) [
        | inl together ↦ ground (arith, together)
        | inr apart ↦
            let s : ℕ = f.sets.set_id l.src in
            let (src_lt, dst_lt) = forest.ends j l h in
            let recorded = search_finds f.links f.sets.set_id (λ x. none) 0 f.links j l h apart in
            elim (Option-cases (link s)) [
              | inl empty ↦
                  let clash : true ≡ false = sym recorded ∙ ap is_some empty in absurd (cc)
              | inr (i, some_link) ↦
                  let (k, stands, cross) = crossing s i some_link in
                  let same_set =
                    idle e s (omega arith) (omega (arith, forest.rings.id_lt l.src src_lt)) i k
                      some_link stands in
                  let clash : true ≡ false = sym same_set ∙ cross in absurd (cc)
            ]
      ] in
    (f₁, made, merged.forest, merged.fewer, λ e. subst Inside (sym (merged.same e)) (inside e))

-- Enough fuel for the rounds leads to one tree, or to subsets that no link goes between.
pub rounds-IsForest :
    (fuel n : ℕ) (given : List Link) (f : Forest)
    → IsForest n given f
    → f.num_trees < fuel
    → (f₁ : Forest) × (rounds fuel n f ≡ some f₁)
      × ((IsForest n given f₁ × f₁.num_trees ≤ 1)
          ⊎ ((g : Forest) × IsForest n given g
              × Inside g
              × (1 < g.num_trees)
              × f₁ ≡ record g { mst_size = 0 }))
unfolding rounds
rounds-IsForest zero n given f forest enough = absurd (omega (arith, enough))
rounds-IsForest (suc fuel) n given f forest enough = elim (Bool-cases (ltb 1 f.num_trees)) [
  | inr few ↦ rw few (f, refl, inl (forest, ground (arith, few)))
  | inl more ↦
      let (f₁, made, forest₁, fewer, inside) = round-IsForest n given f forest in
      elim (Bool-cases (f.num_trees == f₁.num_trees)) [
        | inl stuck ↦
            let e : f₁.num_trees ≡ f.num_trees = ground (arith, stuck) in
            (
              record f₁ { mst_size = 0 },
              rw (more, made, stuck) refl,
              inr (f₁, forest₁, inside e, ground (arith, more, e), refl),
            )
        | inr less ↦
            let (f₂, made₂, result) =
              rounds-IsForest fuel n given f₁ forest₁ (ground (arith, less, fewer, enough)) in
            (f₂, rw (more, made, less) made₂, result)
      ]
]
