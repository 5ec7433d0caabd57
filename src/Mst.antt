-- ===== src/Mst.antt =====
-- The search for a minimum spanning tree in mdv_platform/generic/mdv_mst.c. A node is its index in
-- the array of nodes, and the array of subsets is three functions of the index. `none` is a use of
-- a null pointer, or a loop that runs out of fuel. Indices fit in an `int`.
pub mod Counts
pub mod Rings
pub mod Union
pub mod Marks
pub mod Merge
pub mod Search
pub mod Rounds
pub mod Spanning
use medved_db.Base.{
  ℕ, zero, suc, ◌+◌, ◌-◌, ◌%◌, ◌^◌, List, [], ◌∷◌, Bool, true, false, Option, none, some, ltb, leb,
  ◌==◌, if◌then◌else◌, set, get_elem?,
}

-- `mdv_mstlink`.
pub record Link : Type 0 where
  pub src : ℕ
  pub dst : ℕ
  pub weight : ℕ
  pub mst : ℕ

-- The array of `mdv_mstset`; a link is its index in the array of links.
pub record Sets : Type 0 where
  pub set_id : ℕ → ℕ
  pub link : ℕ → Option ℕ
  pub next : ℕ → Option ℕ

abbrev pub put_at {ℓ} : {A : Type ℓ} → (ℕ → A) → ℕ → A → ℕ → A
put_at f i a = λ x. if x == i then a else f x

-- The loop of `mdv_union_subsets`: the sets, and the last subset that was changed.
unfoldable pub relabel :
    ℕ → ℕ → (ℕ → Option ℕ) → (ℕ → ℕ) → Option ℕ → Option ℕ → Option ((ℕ → ℕ) × Option ℕ)
relabel zero id1 next set_id p end = none
relabel (suc fuel) id1 next set_id none end = some (set_id, end)
relabel (suc fuel) id1 next set_id (some p) end =
    let rest = relabel fuel id1 next (put_at set_id p id1) (next p) (some p) in
    if set_id p == id1 then some (set_id, end) else rest

-- The subset behind the last one.
abbrev pub or_first : Option ℕ → ℕ → Option ℕ
or_first none id1 = some id1
or_first (some p) id1 = some p

abbrev pub close_ring : Sets → ℕ → Option ℕ → Option ((ℕ → ℕ) × Option ℕ) → Option Sets
close_ring sets id1 subset1_next none = none
close_ring sets id1 subset1_next (some (set_id, none)) = none
close_ring sets id1 subset1_next (some (set_id, some end)) =
    some (record sets { set_id = set_id; next = put_at sets.next end (or_first subset1_next id1) })

unfoldable pub union_subsets : ℕ → Sets → ℕ → ℕ → Option Sets
union_subsets fuel sets id1 id2 =
    let next = put_at sets.next id1 (some id2) in
    close_ring (record sets { next = next }) id1 (sets.next id1)
      (relabel fuel id1 next sets.set_id (some id2) none)

-- The lesser and the greater end of a link.
abbrev pub end_min : Link → ℕ
end_min l = if ltb l.src l.dst then l.src else l.dst

abbrev pub end_max : Link → ℕ
end_max l = if ltb l.src l.dst then l.dst else l.src

-- `mdv_mstlink_cmp(a, b) > 0`. The difference of the weights is one of 32 bits that is read as signed.
unfoldable pub link_greater : Link → Link → Bool
link_greater a b =
    let w = (a.weight + 2 ^ 32 - b.weight) % 2 ^ 32 in
    if w == 0
    then (if end_min a == end_min b
        then ltb (end_max b) (end_max a)
        else ltb (end_min b) (end_min a))
    else ltb w (2 ^ 31)

-- Whether a link becomes that of the subset; a link is looked up in the array of all links.
unfoldable pub is_closer : List Link → Option ℕ → Link → Bool
is_closer links none l = true
is_closer links (some i) l = elim (get_elem? links i) [ none ↦ false | some k ↦ link_greater k l ]

abbrev pub offer : List Link → (ℕ → Option ℕ) → ℕ → Option ℕ → ℕ → Link → ℕ → Option ℕ
offer links link set old i l = if is_closer links old l then put_at link set (some i) else link

-- The body of the search for the closest subsets, for the link with the index `i`.
unfoldable pub search_step : List Link → (ℕ → ℕ) → (ℕ → Option ℕ) → ℕ → Link → ℕ → Option ℕ
search_step links set_id link i l =
    let src_set = set_id l.src in
    let dst_set = set_id l.dst in
    let src_link = link src_set in
    let dst_link = link dst_set in
    if src_set == dst_set
    then link
    else offer links (offer links link src_set src_link i l) dst_set dst_link i l

unfoldable pub search : List Link → (ℕ → ℕ) → (ℕ → Option ℕ) → ℕ → List Link → ℕ → Option ℕ
search links set_id link i [] = link
search links set_id link i (l ∷ ls) =
    search links set_id (search_step links set_id link i l) (i + 1) ls

-- What a round works on.
pub record Forest : Type 0 where
  pub sets : Sets
  pub links : List Link
  pub num_trees : ℕ
  pub mst_size : ℕ

abbrev pub mark : List Link → ℕ → Link → List Link
mark links j l = set links j (record l { mst = 1 })

abbrev pub united : Forest → ℕ → Link → Option Sets → Option Forest
united f j l none = none
united f j l (some sets) = some (record {
  sets = sets;
  links = mark f.links j l;
  num_trees = f.num_trees - 1;
  mst_size = f.mst_size + 1;
})

abbrev pub merge_link : ℕ → Forest → ℕ → Option Link → Option Forest
merge_link fuel f j none = none
merge_link fuel f j (some l) =
    if f.sets.set_id l.src == f.sets.set_id l.dst
    then some f
    else united f j l (union_subsets fuel f.sets (f.sets.set_id l.src) (f.sets.set_id l.dst))

abbrev pub merge_step : ℕ → Forest → Option ℕ → Option Forest
merge_step fuel f none = some f
merge_step fuel f (some j) = merge_link fuel f j (get_elem? f.links j)

-- The loop that merges: `k` subsets from the index `i` on.
unfoldable pub merge : ℕ → ℕ → ℕ → Option Forest → Option Forest
merge fuel zero i f = f
merge fuel (suc k) i none = none
merge fuel (suc k) i (some f) = merge fuel k (i + 1) (merge_step fuel f (f.sets.link i))

unfoldable pub round : ℕ → Forest → Option Forest
round n f =
    let link = search f.links f.sets.set_id (λ x. none) 0 f.links in
    merge (n + 1) n 0 (some (record f { sets = record f.sets { link = link } }))

-- The rounds, as long as there is more than one tree and the last round merged some of them.
unfoldable pub rounds : ℕ → ℕ → Forest → Option Forest
rounds zero n f = none
rounds (suc fuel) n f =
    if ltb 1 f.num_trees
    then elim (round n f) [
      | none ↦ none
      | some f₁ ↦ elim (f.num_trees == f₁.num_trees) [
        | true ↦ some (record f₁ { mst_size = 0 })
        | false ↦ rounds fuel n f₁
      ]
    ]
    else some f

abbrev pub unmark : List Link → List Link
unmark [] = []
unmark (l ∷ ls) = record l { mst = 0 } ∷ unmark ls

abbrev pub found : List Link → Option Forest → Option (ℕ × List Link)
found links none = none
found links (some f) = some (f.mst_size, f.links)

-- The number of links in the tree, and the links with their flags.
unfoldable pub mst_find : Bool → ℕ → List Link → Option (ℕ × List Link)
mst_find allocated n links =
    let f : Forest = record {
      sets = record { set_id = λ i. i; link = λ i. none; next = λ i. none };
      links = unmark links;
      num_trees = n;
      mst_size = 0;
    } in
    if allocated then found links (rounds (n + 1) n f) else some (0, links)
