-- ===== src/Topology.antt =====
-- The network topology of mdv_platform/mdv_topology.c: the nodes, the links between their indices,
-- and the maps and sets that are made of them (Hashmap). `none` is a null pointer that is used, or a
-- division by zero; an allocation that fails gives `some none` where the source returns 0. The
-- arrays of nodes and links are lists, where the source reserves the room before it fills them.
pub mod Pairs
pub mod Maps
pub mod Filled
pub mod Numbered
pub mod Linked
pub mod Created
pub mod Indices
pub mod Restored
pub mod Delta
pub mod Kept
pub mod Appended
pub mod Entries
pub mod Asked
pub mod Difference
use medved_db.Base.{
  ℕ, zero, suc, ◌+◌, ◌*◌, ◌/◌, ◌%◌, ◌^◌, List, [], ◌∷◌, ◌++◌, Bool, true, false, Option, none, some,
  ltb, ◌==◌, ◌&&◌, ◌||◌, if◌then◌else◌, get_elem?, length,
}
use medved_db.Uuid.{Uuid, Sign, negative, null, positive, uuid_cmp, uuid_hash}
use medved_db.Uuid.Keys.{same_uuid}
use medved_db.Hashmap
use medved_db.Hashmap.{Hashmap, Allocs, Run, returns, faults}
use medved_db.Hashmap.Interface.{Keys}

-- `mdv_toponode`; the address without the zero at its end.
pub record Toponode : Type 0 where
  pub uuid : Uuid
  pub id : ℕ
  pub addr : List ℕ

-- `mdv_topolink`.
pub record Topolink : Type 0 where
  pub node0 : ℕ
  pub node1 : ℕ
  pub weight : ℕ

pub record Topology : Type 0 where
  pub nodes : List Toponode
  pub links : List Topolink
  pub extradata : List ℕ

unfoldable pub link_cmp : Topolink → Topolink → Sign
link_cmp a b =
    if ltb a.node0 b.node0
    then negative
    else if ltb b.node0 a.node0
    then positive
    else if ltb a.node1 b.node1
    then negative
    else if ltb b.node1 a.node1
    then positive
    else null

-- The identifiers of the ends of a link.
abbrev pub Utopolink : Type 0
Utopolink = Uuid × Uuid

abbrev pub at_most : Sign → Bool
at_most negative = true
at_most null = true
at_most positive = false

unfoldable pub uuids_sort : Utopolink → Utopolink
uuids_sort node = if at_most (uuid_cmp node.0 node.1) then (node.0, node.1) else (node.1, node.0)

-- The second comparison is made where the first one finds no difference.
abbrev pub then_cmp : Sign → Sign → Sign
then_cmp negative cmp2 = negative
then_cmp null cmp2 = cmp2
then_cmp positive cmp2 = positive

unfoldable pub utopolink_cmp : Utopolink → Utopolink → Sign
utopolink_cmp a b =
    let aa = uuids_sort a in
    let bb = uuids_sort b in then_cmp (uuid_cmp aa.0 bb.0) (uuid_cmp aa.1 bb.1)

unfoldable pub utopolink_hash : Utopolink → ℕ
utopolink_hash a = let aa = uuids_sort a in (uuid_hash aa.0 * 37 + uuid_hash aa.1) % 2 ^ 64

-- The nodes of a link.
abbrev pub both : Option Toponode → Option Toponode → Option (Toponode × Toponode)
both none r = none
both (some l) none = none
both (some l) (some r) = some (l, r)

abbrev pub link_nodes : List Toponode → Topolink → Option (Toponode × Toponode)
link_nodes nodes link = both (get_elem? nodes link.node0) (get_elem? nodes link.node1)

-- A loop over the links that inserts an item of a link into a map, where it has one. The map is
-- released when there is no memory.
module _ {A K : Type 0} (ks : Keys A K) (item_size : ℕ) (allocs : ℕ → Allocs)
    (pick : Topolink → Option (Option A)) where
  unfoldable pub fill : ℕ → Hashmap A → List Topolink → Option (Option (Hashmap A))
  fill i hm [] = some (some hm)
  fill i hm (link ∷ links) = elim (pick link) [
    | none ↦ none
    | some none ↦ fill (i + 1) hm links
    | some (some x) ↦ elim (Hashmap.insert ks (allocs i) hm x item_size) [
      | faults ↦ none
      | returns (false, hm₁) ↦ some none
      | returns (true, hm₁) ↦ fill (i + 1) hm₁ links
    ]
  ]

abbrev pub fill_created :
    {A K : Type 0}
    → Keys A K
    → ℕ
    → (ℕ → Allocs)
    → (Topolink → Option (Option A))
    → List Topolink
    → Option (Hashmap A)
    → Option (Option (Hashmap A))
fill_created ks item_size allocs pick links none = some none
fill_created ks item_size allocs pick links (some hm) = fill ks item_size allocs pick 0 hm links

-- The state of the first loop of `mdv_topology_linked_nodes`: `node_idxs` and `nodes_count`.
abbrev pub mark_end : ℕ → (ℕ → ℕ) × ℕ → (ℕ → ℕ) × ℕ
mark_end k (node_idxs, nodes_count) =
    if node_idxs k == 0
    then (λ x. if x == k then 42 else node_idxs x, nodes_count + 1)
    else (node_idxs, nodes_count)

unfoldable pub mark_links : List Topolink → (ℕ → ℕ) × ℕ → (ℕ → ℕ) × ℕ
mark_links [] s = s
mark_links (link ∷ links) s = mark_links links (mark_end link.node1 (mark_end link.node0 s))

-- The second loop: the marked nodes from the index `i` on, with the next index `n`, the room for
-- their addresses, and `node_idxs`.
unfoldable pub number_nodes : ℕ → ℕ → List Toponode → (ℕ → ℕ) → List Toponode × ℕ × (ℕ → ℕ)
number_nodes i n [] node_idxs = ([], 0, node_idxs)
number_nodes i n (node ∷ nodes) node_idxs = elim (node_idxs i == 0) [
  | true ↦ number_nodes (i + 1) n nodes node_idxs
  | false ↦
      let (linked, extrasize, idxs) =
        number_nodes (i + 1) (n + 1) nodes (λ x. if x == i then n else node_idxs x) in
      (node ∷ linked, length node.addr + 1 + extrasize, idxs)
]

abbrev pub renumber : (ℕ → ℕ) → List Topolink → List Topolink
renumber node_idxs [] = []
renumber node_idxs (link ∷ links) =
    record link { node0 = node_idxs link.node0; node1 = node_idxs link.node1 }
    ∷ renumber node_idxs links

-- The nodes, the links with their new indices, and the room for the addresses. `none` is the result 0.
unfoldable pub linked_nodes :
    Bool → Bool → List Topolink → List Toponode → Option (List Toponode × List Topolink × ℕ)
linked_nodes idxs_allocated created [] toponodes = if created then some ([], [], 0) else none
linked_nodes idxs_allocated created (link ∷ links) toponodes =
    let marked = mark_links (link ∷ links) (λ x. 0, 0) in
    let (linked, extrasize, idxs) = number_nodes 0 0 toponodes marked.0 in
    if idxs_allocated && created
    then some (linked, renumber idxs (link ∷ links), extrasize)
    else none
