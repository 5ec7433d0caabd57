-- ===== src/Topology/Asked.antt =====
-- What the map of the links answers in `mdv_topology_diff` of mdv_platform/mdv_topology.c.
use medved_db.Base.{
  ◌≡◌, refl, sym, ◌∙◌, List, [], ◌∷◌, true, false, Option, none, some, arith, ◌==◌, length,
}
use medved_db.Hashmap
use medved_db.Hashmap.{Hashmap}
use medved_db.Hashmap.Refines.{is_some}
use medved_db.Uuid.{Uuid}
use medved_db.Topology.{Toponode, Topolink, Topology, Utopolink, link_nodes}
use medved_db.Topology.Pairs.{
  link_keys, same_link, same_link-undirected, same_link_symm, same_link_trans,
}
use medved_db.Topology.Maps.{links_map}
use medved_db.Topology.Filled.{enough_memory, any_link-same, between, links_map-find}
use medved_db.Topology.Linked.{Within}
use medved_db.Topology.Kept.{joins, any_joins, linked, nodes_of}

-- A pair that is the same as the two nodes is the same as they are as any other pair.
pub like_ab :
    (nodea nodeb : Uuid) (q x p : Utopolink)
    → same_link (nodea, nodeb) q ≡ true
    → same_link x q ≡ true
    → same_link p x ≡ same_link (nodea, nodeb) p
like_ab nodea nodeb q x p h k =
    let ab : Utopolink = (nodea, nodeb) in
    let to_x = same_link_trans ab q x h (same_link_symm x q k) in
    ground (
      arith,
      to_x,
      same_link_trans ab x p to_x,
      same_link_symm p x,
      same_link_symm ab p,
      same_link_trans p ab x,
    )

joins-between :
    (u v : Uuid) (nodes : Option (Toponode × Toponode)) → between u v nodes ≡ joins (u, v) nodes
joins-between u v none = refl
joins-between u v (some (lnode, rnode)) = sym (same_link-undirected (u, v) (lnode.uuid, rnode.uuid))

-- The map of the links of a topology answers which nodes are linked.
pub links_map-linked :
    (b : Topology)
    → Within b.nodes b.links
    → (hm : Hashmap Utopolink) × (links_map true enough_memory b ≡ some (some hm))
      × ((p : Utopolink) → is_some (Hashmap.find link_keys hm p) ≡ linked b p)
links_map-linked b within =
    let (hm, done, finds) = links_map-find b (λ j link h.
      let (l, r, at, on_left, on_right) = nodes_of b.nodes link (within j link h) in
      ((l, r), at)) in
    (
      hm,
      done,
      λ p.
          finds (p.0) (p.1)
          ∙ any_link-same _ _ b.links (λ link. joins-between (p.0) (p.1) (link_nodes b.nodes link)),
    )

pub no_links :
    (p : Utopolink) (nodes : List Toponode) (links : List Topolink)
    → (length links == 0) ≡ true
    → any_joins p nodes links ≡ false
no_links p nodes [] h = refl
no_links p nodes (link ∷ links) h = absurd (ground (arith, h))
