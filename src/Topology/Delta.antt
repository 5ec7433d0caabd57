-- ===== src/Topology/Delta.antt =====
-- `mdv_topology_diff` of mdv_platform/mdv_topology.c. A pointer to a node is the node; the pushes to
-- the arrays need no memory but the last one of a node, which may be the second beyond the room.
use medved_db.Base.{
  ℕ, ◌+◌, List, [], ◌∷◌, ◌++◌, Bool, true, false, not, Option, none, some, ◌==◌, ◌&&◌, ◌||◌,
  if◌then◌else◌, length,
}
use medved_db.Vector
use medved_db.Hashmap
use medved_db.Hashmap.{Hashmap, Allocs}
use medved_db.Uuid.{Uuid}
use medved_db.Uuid.Keys.{same_uuid}
use medved_db.Topology.{Toponode, Topolink, Topology, Utopolink, link_nodes, linked_nodes}
use medved_db.Topology.Pairs.{link_keys}
use medved_db.Topology.Maps.{links_map}
use medved_db.Topology.Created.{create}

-- The nodes of a link, with its weight.
abbrev pub Ends : Type 0
Ends = Toponode × Toponode × ℕ

-- Whether a link is the one of `nodea` and `nodeb`.
abbrev pub is_ab : Uuid → Uuid → Toponode → Toponode → Bool
is_ab nodea nodeb lnode rnode =
    (same_uuid nodea lnode.uuid && same_uuid nodeb rnode.uuid)
    || (same_uuid nodea rnode.uuid && same_uuid nodeb lnode.uuid)

abbrev pub not_yet : Option Ends → Bool
not_yet none = true
not_yet (some ends) = false

abbrev pub with_link :
    Topolink → Option (List Topolink × Option Ends) → Option (List Topolink × Option Ends)
with_link link none = none
with_link link (some (ab_links, added)) = some (link ∷ ab_links, added)

-- The loop over the links of `a`: the links that are taken, and the ends of the one of the two nodes.
unfoldable pub subtract :
    Hashmap Utopolink
    → Uuid
    → Uuid
    → List Toponode
    → Option Ends
    → List Topolink
    → Option (List Topolink × Option Ends)
subtract blinks nodea nodeb nodes added [] = some ([], added)
subtract blinks nodea nodeb nodes added (link ∷ links) = elim (link_nodes nodes link) [
  | none ↦ none
  | some (lnode, rnode) ↦ elim (not_yet added && is_ab nodea nodeb lnode rnode) [
    | true ↦
        with_link link (subtract blinks nodea nodeb nodes (some (lnode, rnode, link.weight)) links)
    | false ↦ elim (Hashmap.find link_keys blinks (lnode.uuid, rnode.uuid)) [
      | none ↦ with_link link (subtract blinks nodea nodeb nodes added links)
      | some l ↦ subtract blinks nodea nodeb nodes added links
    ]
  ]
]

-- The loop over the links of `b`.
unfoldable pub find_ab : Uuid → Uuid → List Toponode → List Topolink → Option (Option Ends)
find_ab nodea nodeb nodes [] = some none
find_ab nodea nodeb nodes (link ∷ links) = elim (link_nodes nodes link) [
  | none ↦ none
  | some (lnode, rnode) ↦ elim (is_ab nodea nodeb lnode rnode) [
    | true ↦ some (some (lnode, rnode, link.weight))
    | false ↦ find_ab nodea nodeb nodes links
  ]
]

-- The position of the node, behind the last one where it is pushed.
abbrev pub node_idx : List Toponode → Option ℕ → ℕ
node_idx nodes none = length nodes
node_idx nodes (some idx) = idx

abbrev pub pushed : List Toponode → ℕ → Toponode → Option ℕ → List Toponode × ℕ
pushed nodes extrasize node none = (nodes ++ node ∷ [], extrasize + (length node.addr + 1))
pushed nodes extrasize node (some idx) = (nodes, extrasize)

abbrev pub second_fails : Bool → Option ℕ → Option ℕ → Bool
second_fails memory none none = not memory
second_fails memory none (some r) = false
second_fails memory (some l) r = false

unfoldable pub find_node : List Toponode → Toponode → Option ℕ
find_node nodes node = Vector.find_from (λ (x y : Toponode). same_uuid x.uuid y.uuid) node 0 nodes

-- `none` is the result `false`.
unfoldable pub linked_node_append :
    Bool
    → List Topolink
    → List Toponode
    → ℕ
    → Option Ends
    → Option (List Topolink × List Toponode × ℕ)
linked_node_append memory links nodes extrasize none = none
linked_node_append memory links nodes extrasize (some (lnode, rnode, weight)) =
    let l = find_node nodes lnode in
    let r = find_node nodes rnode in
    let (nodes₁, extrasize₁) = pushed nodes extrasize lnode l in
    let (nodes₂, extrasize₂) = pushed nodes₁ extrasize₁ rnode r in
    let link : Topolink = record {
      node0 = node_idx nodes l;
      node1 = node_idx nodes₁ r;
      weight = weight;
    } in
    if second_fails memory l r then none else some (links ++ link ∷ [], nodes₂, extrasize₂)

-- The addresses, each with its zero.
abbrev pub addresses : List Toponode → List ℕ
addresses [] = []
addresses (node ∷ nodes) = node.addr ++ 0 ∷ addresses nodes

abbrev pub nodes_extradata : Bool → List Toponode → ℕ → Option (List ℕ)
nodes_extradata memory nodes extrasize =
    if extrasize == 0 then some [] else (if memory then some (addresses nodes) else none)

-- Which allocations succeed.
pub record Memory : Type 0 where
  pub blinks : Bool
  pub entries : ℕ → Allocs
  pub links : Bool
  pub node_idxs : Bool
  pub nodes : Bool
  pub last_node : Bool
  pub extradata : Bool
  pub topology : Bool
  pub ids : Bool
  pub id_entries : ℕ → Allocs

abbrev pub empty_topology : Topology
empty_topology = record { nodes = []; links = []; extradata = [] }

module _ (sort : List Toponode → List Toponode) (memory : Memory) where
  abbrev pub with_extradata :
      List Toponode → List Topolink → Option (List ℕ) → Option (Option Topology)
  with_extradata nodes links none = some none
  with_extradata nodes links (some extradata) =
      create sort memory.topology memory.ids memory.id_entries nodes links extradata

  abbrev pub with_ab : Option (List Topolink × List Toponode × ℕ) → Option (Option Topology)
  with_ab none = some none
  with_ab (some (links, nodes, extrasize)) =
      with_extradata nodes links (nodes_extradata memory.extradata nodes extrasize)

  -- The link of the two nodes is appended if it is not one of those that were taken.
  abbrev pub with_nodes :
      Bool → Option Ends → Option (List Toponode × List Topolink × ℕ) → Option (Option Topology)
  with_nodes added lnodes none = some none
  with_nodes true lnodes (some (nodes, links, extrasize)) = with_ab (some (links, nodes, extrasize))
  with_nodes false lnodes (some (nodes, links, extrasize)) =
      with_ab (linked_node_append memory.last_node links nodes extrasize lnodes)

  abbrev pub with_lnodes :
      Topology → List Topolink → Bool → Option (Option Ends) → Option (Option Topology)
  with_lnodes a ab_links added none = none
  with_lnodes a ab_links added (some lnodes) =
      if length ab_links == 0 && not_yet lnodes
      then some (some empty_topology)
      else with_nodes added lnodes (linked_nodes memory.node_idxs memory.nodes ab_links a.nodes)

  abbrev pub with_links :
      Topology
      → Uuid
      → Topology
      → Uuid
      → Option (List Topolink × Option Ends)
      → Option (Option Topology)
  with_links a nodea b nodeb none = none
  with_links a nodea b nodeb (some (ab_links, none)) =
      with_lnodes a ab_links false (find_ab nodea nodeb b.nodes b.links)
  with_links a nodea b nodeb (some (ab_links, some ends)) =
      with_lnodes a ab_links true (some (some ends))

  abbrev pub with_blinks :
      Topology
      → Uuid
      → Topology
      → Uuid
      → Option (Option (Hashmap Utopolink))
      → Option (Option Topology)
  with_blinks a nodea b nodeb none = none
  with_blinks a nodea b nodeb (some none) = some none
  with_blinks a nodea b nodeb (some (some blinks)) =
      if memory.links
      then with_links a nodea b nodeb (subtract blinks nodea nodeb a.nodes none a.links)
      else some none

  unfoldable pub diff : Topology → Uuid → Topology → Uuid → Option (Option Topology)
  diff a nodea b nodeb =
      if length a.links == 0
      then some (some empty_topology)
      else if length b.links == 0
      then some (some a)
      else with_blinks a nodea b nodeb (links_map memory.blinks memory.entries b)
