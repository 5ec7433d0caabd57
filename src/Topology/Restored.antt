-- ===== src/Topology/Restored.antt =====
-- The indices that `mdv_topology_create` in mdv_platform/mdv_topology.c restores after it sorted the
-- nodes.
use mathlib.Core.Option.{some-injective}
use medved_db.Base.{
  ℕ, zero, suc, ◌*◌, ◌/◌, ◌<◌, ◌≡◌, ◌⊎◌, refl, ap, sym, ◌∙◌, List, [], ◌∷◌, true, none, some, arith,
  get_elem?, length, inl, inr, replicate,
}
use medved_db.Hashmap
use medved_db.Hashmap.{Hashmap, Allocs, returns, faults}
use medved_db.Hashmap.Refines.{Models, create-Models, find-Models}
use medved_db.Topology.{Toponode, Topolink, Topology}
use medved_db.Topology.Filled.{enough_memory}
use medved_db.Topology.Numbered.{Occurs}
use medved_db.Topology.Linked.{ends_of, Within}
use medved_db.Topology.Indices.{numbered, number_ids-Models, numbered-Answers}
use medved_db.Topology.Created.{NodeIdx, id_keys, to_ids, number_ids, to_idxs, create}

-- What `qsort` does to an array, as far as the code relies on it: the same items are in it.
abbrev pub Sorts : (List Toponode → List Toponode) → Type 0
Sorts sort =
    (nodes : List Toponode) (node : Toponode)
    → (Occurs nodes node → Occurs (sort nodes) node)
      × (Occurs (sort nodes) node → Occurs nodes node)

-- No two nodes have the same local identifier.
abbrev pub Distinct : List Toponode → Type 0
Distinct nodes = (a b : Toponode) → Occurs nodes a → Occurs nodes b → a.id ≡ b.id → a ≡ b

pub node_at :
    (nodes : List Toponode) (j : ℕ)
    → j < length nodes
    → (node : Toponode) × (get_elem? nodes j ≡ some node)
node_at [] j h = absurd (omega (arith, h))
node_at (x ∷ nodes) zero h = (x, refl)
node_at (x ∷ nodes) (suc j) h = node_at nodes j (omega (arith, h))

-- The map leads from the identifier of a node to its place.
abbrev Leads : List Toponode → List Toponode → Hashmap NodeIdx → Type 0
Leads nodes sorted hm =
    (node : Toponode)
    → Occurs nodes node
    → (answer : NodeIdx) × (Hashmap.find id_keys hm node.id ≡ some answer)
      × (get_elem? sorted answer.idx ≡ some node)

restore-ends_of :
    (nodes sorted : List Toponode) (hm : Hashmap NodeIdx) (links : List Topolink)
    → Leads nodes sorted hm
    → Within nodes links
    → (ids links₁ : List Topolink) × (to_ids nodes links ≡ some ids)
      × (to_idxs hm ids ≡ some links₁)
      × (ends_of sorted links₁ ≡ ends_of nodes links)
unfolding to_ids to_idxs
restore-ends_of nodes sorted hm [] leads within = ([], [], refl, refl, refl)
restore-ends_of nodes sorted hm (link ∷ links) leads within =
    let (lt0, lt1) = within 0 link refl in
    let (node0, stands0) = node_at nodes link.node0 lt0 in
    let (node1, stands1) = node_at nodes link.node1 lt1 in
    let (answer0, finds0, place0) = leads node0 (link.node0, stands0) in
    let (answer1, finds1, place1) = leads node1 (link.node1, stands1) in
    let (ids, links₁, to, back, same) =
      restore-ends_of nodes sorted hm links leads (λ j l h. within (suc j) l h) in
    (
      record link { node0 = node0.id; node1 = node1.id } ∷ ids,
      record link { node0 = answer0.idx; node1 = answer1.idx } ∷ links₁,
      rw (stands0, stands1, to) refl,
      rw (finds0, finds1, back) refl,
      rw (stands0, stands1, place0, place1, same) refl,
    )

numbered-Leads :
    (nodes sorted : List Toponode) (hm : Hashmap NodeIdx)
    → Models id_keys (numbered (λ id. none) 0 sorted) hm
    → ((node : Toponode)
        → (Occurs nodes node → Occurs sorted node) × (Occurs sorted node → Occurs nodes node))
    → Distinct nodes
    → Leads nodes sorted hm
numbered-Leads nodes sorted hm models sorts distinct node occurs =
    let (j, stands) = (sorts node).0 occurs in
    let a = numbered-Answers (λ id. none) 0 sorted j node stands in
    let same : a.node ≡ node =
      distinct a.node node ((sorts a.node).1 (a.offset, a.stands)) occurs a.has_id in
    let place : a.answer.idx ≡ a.offset = omega (arith, a.index) in
    (
      a.answer,
      find-Models id_keys (numbered (λ id. none) 0 sorted) hm node.id models ∙ a.reads,
      ap (get_elem? sorted) place ∙ a.stands ∙ ap some same,
    )

empty_or : (nodes : List Toponode) → nodes ≡ [] ⊎ 0 < length nodes
empty_or [] = inl refl
empty_or (node ∷ nodes) = inr (omega arith)

pub place_lt :
    (nodes : List Toponode) (j : ℕ) (node : Toponode)
    → get_elem? nodes j ≡ some node
    → j < length nodes
place_lt [] j node h = absurd (cc)
place_lt (x ∷ nodes) zero node h = omega arith
place_lt (x ∷ nodes) (suc j) node h = omega (arith, place_lt nodes j node h)

-- The map of the indices is filled.
ids-Models :
    (sort : List Toponode → List Toponode) (nodes : List Toponode) (hm : Hashmap NodeIdx)
    → Sorts sort
    → Hashmap.create true (length nodes) 0 4 ≡ some hm
    → (hm₁ : Hashmap NodeIdx) × (number_ids enough_memory 0 hm (sort nodes) ≡ some hm₁)
      × Models id_keys (numbered (λ id. none) 0 (sort nodes)) hm₁
unfolding Hashmap.create number_ids numbered
ids-Models sort nodes hm sorts made =
    let (models, empty) = create-Models id_keys (length nodes) 0 4 hm made in
    let hm_is = some-injective _ _ made in
    elim (empty_or (sort nodes)) [
      | inl no_nodes ↦ rw no_nodes (hm, refl, models)
      | inr nonempty ↦
          let (node, first) = node_at (sort nodes) 0 nonempty in
          let (j, stands) = (sorts nodes node).1 (0, first) in
          let long = place_lt nodes j node stands in
          let capacity : hm.capacity ≡ length nodes * (5 / 4) =
            ap (λ (m : Hashmap NodeIdx). m.capacity) (sym hm_is) in
          let offset : hm.key_offset ≡ 0 = ap (λ (m : Hashmap NodeIdx). m.key_offset) (sym hm_is) in
          let width : hm.key_size ≡ 4 = ap (λ (m : Hashmap NodeIdx). m.key_size) (sym hm_is) in
          number_ids-Models 0 (λ id. none) hm (sort nodes) models (omega (arith, capacity, long))
            (omega (arith, offset, width))
    ]

-- With memory, links between nodes that are there, and local identifiers that differ, the topology
-- has the nodes that `qsort` gives, and each link has the two nodes and the weight that it had.
pub create-ends_of :
    (sort : List Toponode → List Toponode) (nodes : List Toponode) (links : List Topolink)
    (extradata : List ℕ)
    → Sorts sort
    → Within nodes links
    → Distinct nodes
    → (topology : Topology) × (create sort true true enough_memory nodes links extradata
        ≡ some (some topology))
      × (topology.nodes ≡ sort nodes)
      × (ends_of topology.nodes topology.links ≡ ends_of nodes links)
unfolding create Hashmap.create
create-ends_of sort nodes links extradata sorts within distinct =
    let hm : Hashmap NodeIdx = record {
      capacity = length nodes * (5 / 4);
      size = 0;
      key_offset = 0;
      key_size = 4;
      buckets = replicate (length nodes * (5 / 4)) [];
    } in
    let (hm₁, filled, models) = ids-Models sort nodes hm sorts refl in
    let leads = numbered-Leads nodes (sort nodes) hm₁ models (sorts nodes) distinct in
    let (ids, links₁, to, back, same) = restore-ends_of nodes (sort nodes) hm₁ links leads within in
    (
      record { nodes = sort nodes; links = links₁; extradata = extradata },
      rw (to, filled, back) refl,
      refl,
      same,
    )
