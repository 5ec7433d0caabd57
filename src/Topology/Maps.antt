-- ===== src/Topology/Maps.antt =====
-- The map of the links and the set of the peers in mdv_platform/mdv_topology.c.
use medved_db.Base.{ℕ, ◌*◌, ◌/◌, Bool, Option, none, some, if◌then◌else◌, length}
use medved_db.Hashmap
use medved_db.Hashmap.{Hashmap, Allocs}
use medved_db.Uuid.{Uuid}
use medved_db.Uuid.Keys.{same_uuid}
use medved_db.Topology.{Toponode, Topology, Utopolink, link_nodes, fill_created}
use medved_db.Topology.Pairs.{link_keys, uuids}

abbrev pub pair_of : Option (Toponode × Toponode) → Option (Option Utopolink)
pair_of none = none
pair_of (some (lnode, rnode)) = some (some (lnode.uuid, rnode.uuid))

unfoldable pub links_map : Bool → (ℕ → Allocs) → Topology → Option (Option (Hashmap Utopolink))
links_map created allocs topology =
    fill_created link_keys 16 allocs (λ link. pair_of (link_nodes topology.nodes link))
      topology.links (Hashmap.create created (length topology.links * 5 / 3) 0 16)

-- The other end of a link of the node.
abbrev pub peer_of : Uuid → Option (Toponode × Toponode) → Option (Option Uuid)
peer_of node none = none
peer_of node (some (lnode, rnode)) =
    if same_uuid node lnode.uuid
    then some (some rnode.uuid)
    else if same_uuid node rnode.uuid
    then some (some lnode.uuid)
    else some none

unfoldable pub peers : Bool → (ℕ → Allocs) → Topology → Uuid → Option (Option (Hashmap Uuid))
peers created allocs topology node =
    fill_created uuids 16 allocs (λ link. peer_of node (link_nodes topology.nodes link))
      topology.links (Hashmap.create created 4 0 16)
