-- ===== src/Topology/Difference.antt =====
-- What `mdv_topology_diff` of mdv_platform/mdv_topology.c gives.
use medved_db.Base.{
  ℕ, ◌<◌, ◌≡◌, ◌⊎◌, refl, ap, sym, ◌∙◌, List, [], true, false, not, Option, none, some, arith, ◌==◌,
  ◌&&◌, ◌||◌, length, Bool-cases, inl, inr, Option-cases,
}
use mathlib.Core.Path.{subst}
use medved_db.Uuid.{Uuid}
use medved_db.Topology.{Toponode, Topolink, Topology, Utopolink}
use medved_db.Topology.Pairs.{uuids, same_link, same_link-undirected}
use medved_db.Topology.Filled.{enough_memory}
use medved_db.Topology.Numbered.{Occurs, addr_size}
use medved_db.Topology.Linked.{Within, ends_of, linked_nodes-ends_of}
use medved_db.Topology.Created.{create}
use medved_db.Topology.Restored.{Sorts, Distinct, create-ends_of}
use medved_db.Topology.Delta.{Ends, Memory, find_ab, with_ab, with_lnodes, diff, addresses}
use medved_db.Topology.Kept.{linked, any_joins-same, Left, subtract-Left, find_ab-joins}
use medved_db.Topology.Entries.{any_ends, any_joins-ends_of, any_ends-append, ends_of-Within}
use medved_db.Topology.Asked.{like_ab, links_map-linked, no_links}
use medved_db.Topology.Appended.{linked_node_append-Grown}

abbrev pub all_memory : Memory
all_memory = record {
  blinks = true;
  entries = enough_memory;
  links = true;
  node_idxs = true;
  nodes = true;
  last_node = true;
  extradata = true;
  topology = true;
  ids = true;
  id_entries = enough_memory;
}

-- A local identifier is that of one node, in both topologies.
abbrev pub Apart : Topology → Topology → Type 0
Apart a b =
    (x y : Toponode)
    → Occurs a.nodes x ⊎ Occurs b.nodes x
    → Occurs a.nodes y ⊎ Occurs b.nodes y
    → x.id ≡ y.id
    → x ≡ y

module _ (sort : List Toponode → List Toponode) (sorts : Sorts sort) where
  -- The end of the call: the new topology links what the entries say.
  with_ab-linked :
      (nodes : List Toponode) (links : List Topolink) (extrasize : ℕ)
      → Within nodes links
      → Distinct nodes
      → (t : Topology) × (with_ab sort all_memory (some (links, nodes, extrasize)) ≡ some (some t))
        × ((p : Utopolink) → linked t p ≡ any_ends p (ends_of nodes links))
  with_ab-linked nodes links extrasize within distinct =
      let made : (extradata : List ℕ)
          → (t : Topology) × (create sort true true enough_memory nodes links extradata
              ≡ some (some t))
            × ((p : Utopolink) → linked t p ≡ any_ends p (ends_of nodes links)) =
        λ extradata.
          let (t, done, sorted, same) =
            create-ends_of sort nodes links extradata sorts within distinct in
          (t, done, λ p. any_joins-ends_of p t.nodes t.links ∙ ap (any_ends p) same) in
      elim (Bool-cases (extrasize == 0)) [
        | inl empty ↦ rw empty (made [])
        | inr room ↦ rw room (made (addresses nodes))
      ]

  module _ (a b : Topology) (nodea nodeb : Uuid) (within_a : Within a.nodes a.links)
      (within_b : Within b.nodes b.links) (apart : Apart a b) where
    abbrev ab : Utopolink
    ab = (nodea, nodeb)

    abbrev Expected : Topology → Type 0
    Expected t =
        (p : Utopolink)
        → linked t p
          ≡ ((linked a p && not (linked b p)) || (same_link ab p && (linked a p || linked b p)))

    -- The links that were taken, between the nodes that they have.
    from_a :
        (kept : List Topolink) (added₁ : Option Ends)
        → Left a.nodes ab (linked b) none a.links kept added₁
        → (nodes : List Toponode) (links : List Topolink)
        → ends_of nodes links ≡ ends_of a.nodes kept
        → (p : Utopolink)
        → any_ends p (ends_of nodes links) ≡ (linked a p && (not (linked b p) || same_link ab p))
    from_a kept added₁ left nodes links same p =
        ap (any_ends p) same
        ∙ sym (any_joins-ends_of p a.nodes kept)
        ∙ ground (arith, left.joined p)

    -- The link of the two nodes is one of `a`.
    added-linked :
        (kept : List Topolink) (ends : Ends)
        → Left a.nodes ab (linked b) none a.links kept (some ends)
        → (t : Topology) × (with_lnodes sort all_memory a kept true (some (some ends))
            ≡ some (some t))
          × Expected t
    added-linked kept ends left =
        let (nodes, links, done, same, used, old) = linked_nodes-ends_of kept a.nodes left.within in
        let (t, made, links_t) =
          with_ab-linked nodes links (addr_size nodes)
            (ends_of-Within a.nodes nodes kept links same left.within)
            (λ x y o q e. apart x y (inl (old x o)) (inl (old y q)) e) in
        (
          t,
          (let some_links : (length kept == 0 && false) ≡ false = ground arith in
              rw (some_links, done) made),
          λ p.
              links_t p
              ∙ from_a kept (some ends) left nodes links same p
              ∙ ground (arith, left.still, any_joins-same ab p a.nodes a.links),
        )

    -- The link of the two nodes is one of `b` only.
    appended-linked :
        (kept : List Topolink)
        → Left a.nodes ab (linked b) none a.links kept none
        → linked b ab ≡ true
        → (t : Topology) × (with_lnodes sort all_memory a kept false
              (find_ab nodea nodeb b.nodes b.links)
            ≡ some (some t))
          × Expected t
    appended-linked kept left linked_b =
        let (lnode, rnode, weight, found, is_ab, on_left, on_right) =
          find_ab-joins nodea nodeb b.nodes b.links within_b linked_b in
        let (nodes, links, done, same, used, old) = linked_nodes-ends_of kept a.nodes left.within in
        let within = ends_of-Within a.nodes nodes kept links same left.within in
        let (links₁, nodes₁, extrasize₁, appended, grown) =
          linked_node_append-Grown links nodes (addr_size nodes) lnode rnode weight within
            (uuids.same_refl lnode.uuid) (uuids.same_refl rnode.uuid) in
        let origin : (x : Toponode) → Occurs nodes₁ x → Occurs a.nodes x ⊎ Occurs b.nodes x = λ x o.
          elim (grown.either x o) [
            | inl before ↦ inl (old x before)
            | inr (inl is_l) ↦ inr (rw is_l on_left)
            | inr (inr is_r) ↦ inr (rw is_r on_right)
          ] in
        let (t, made, links_t) =
          with_ab-linked nodes₁ links₁ extrasize₁ grown.within
            (λ x y o q e. apart x y (origin x o) (origin y q) e) in
        (
          t,
          (let some_links : (length kept == 0 && false) ≡ false = ground arith in
              rw (found, some_links, done, appended) made),
          λ p.
              links_t p
              ∙ ap (any_ends p) grown.ends
              ∙ any_ends-append p (ends_of nodes links) (some grown.left, some grown.right, weight)
              ∙ ground (
                arith,
                from_a kept none left nodes links same p,
                left.still,
                linked_b,
                any_joins-same ab p a.nodes a.links,
                any_joins-same ab p b.nodes b.links,
                like_ab nodea nodeb (lnode.uuid, rnode.uuid) (grown.left.uuid, grown.right.uuid) p
                    is_ab
                    (ground (
                      arith,
                      grown.left_same,
                      grown.right_same,
                      same_link-undirected (grown.left.uuid, grown.right.uuid)
                          (lnode.uuid, rnode.uuid),
                    )),
              ),
        )

-- With memory, links between nodes that are there, and local identifiers that tell the nodes of both
-- topologies apart: where the first topology has a link at all, and one of the two topologies links
-- the two given nodes, the difference links a pair if the first one does and the second one does
-- not, or if the pair is that of the given nodes.
pub diff-linked :
    (sort : List Toponode → List Toponode) (a b : Topology) (nodea nodeb : Uuid)
    → Sorts sort
    → Within a.nodes a.links
    → Within b.nodes b.links
    → Apart a b
    → 0 < length a.links
    → (linked a (nodea, nodeb) || linked b (nodea, nodeb)) ≡ true
    → (t : Topology) × (diff sort all_memory a nodea b nodeb ≡ some (some t))
      × ((p : Utopolink)
          → linked t p ≡ (
              (linked a p && not (linked b p))
              || (same_link (nodea, nodeb) p && (linked a p || linked b p))))
unfolding diff
diff-linked sort a b nodea nodeb sorts within_a within_b apart links_a one_links =
    let some_a : (length a.links == 0) ≡ false = ground (arith, links_a) in
    elim (Bool-cases (length b.links == 0)) [
      | inl empty ↦
          rw (some_a, empty)
            (a, refl, λ p. ground (arith, one_links, no_links p b.nodes b.links empty))
      | inr some_b ↦
          let (blinks, mapped, finds) = links_map-linked b within_b in
          let (kept, added₁, done, left) =
            subtract-Left a.nodes blinks nodea nodeb (linked b) finds
              (λ p q h. any_joins-same p q b.nodes b.links h) none a.links within_a in
          elim (Option-cases added₁) [
            | inl not_added ↦
                let left₁ =
                  subst (λ x. Left a.nodes (nodea, nodeb) (linked b) none a.links kept x) not_added
                    left in
                let still = left₁.still in
                let (t, made, expected) =
                  appended-linked sort sorts a b nodea nodeb within_a within_b apart kept left₁
                    (ground (arith, still, one_links)) in
                (t, rw (some_a, some_b, mapped, done, not_added) made, expected)
            | inr (ends, added) ↦
                let left₁ =
                  subst (λ x. Left a.nodes (nodea, nodeb) (linked b) none a.links kept x) added
                    left in
                let (t, made, expected) =
                  added-linked sort sorts a b nodea nodeb within_a within_b apart kept ends left₁ in
                (t, rw (some_a, some_b, mapped, done, added) made, expected)
          ]
    ]
