-- ===== src/Topology/Kept.antt =====
-- The loops of `mdv_topology_diff` in mdv_platform/mdv_topology.c over the links.
use mathlib.Core.Path.{subst}
use mathlib.Core.Option.{some-injective}
use medved_db.Base.{
  ℕ, zero, suc, ◌<◌, ◌≡◌, refl, ap, sym, ◌∙◌, List, [], ◌∷◌, Bool, true, false, not, Option, none,
  some, arith, ◌&&◌, ◌||◌, length, Bool-cases, inl, inr, Option-cases,
}
use medved_db.Hashmap
use medved_db.Hashmap.{Hashmap}
use medved_db.Hashmap.Refines.{is_some}
use medved_db.Uuid.{Uuid}
use medved_db.Topology.{Toponode, Topolink, Topology, Utopolink, link_nodes}
use medved_db.Topology.Pairs.{
  link_keys, same_link, same_link-undirected, same_link_symm, same_link_trans,
}
use medved_db.Topology.Filled.{any_link}
use medved_db.Topology.Linked.{Within}
use medved_db.Topology.Numbered.{Occurs}
use medved_db.Topology.Restored.{node_at}
use medved_db.Topology.Delta.{Ends, is_ab, not_yet, subtract, find_ab}

-- Whether a link has the two nodes, in either order.
abbrev pub joins : Utopolink → Option (Toponode × Toponode) → Bool
joins p none = false
joins p (some (lnode, rnode)) = same_link p (lnode.uuid, rnode.uuid)

abbrev pub any_joins : Utopolink → List Toponode → List Topolink → Bool
any_joins p nodes links = any_link (λ link. joins p (link_nodes nodes link)) links

-- Whether two nodes are linked.
abbrev pub linked : Topology → Utopolink → Bool
linked t p = any_joins p t.nodes t.links

joins-same :
    (p q : Utopolink) (nodes : Option (Toponode × Toponode))
    → same_link p q ≡ true
    → joins p nodes ≡ joins q nodes
joins-same p q none h = refl
joins-same p q (some (lnode, rnode)) h =
    let l : Utopolink = (lnode.uuid, rnode.uuid) in
    let back = same_link_symm p q h in
    ground (arith, h, back, same_link_trans p q l, same_link_trans q p l)

-- It does not matter in which order a pair is given.
pub any_joins-same :
    (p q : Utopolink) (nodes : List Toponode) (links : List Topolink)
    → same_link p q ≡ true
    → any_joins p nodes links ≡ any_joins q nodes links
any_joins-same p q nodes [] h = refl
any_joins-same p q nodes (link ∷ links) h =
    ground (arith, joins-same p q (link_nodes nodes link) h, any_joins-same p q nodes links h)

is_ab-same_link :
    (nodea nodeb : Uuid) (lnode rnode : Toponode)
    → is_ab nodea nodeb lnode rnode ≡ same_link (nodea, nodeb) (lnode.uuid, rnode.uuid)
is_ab-same_link nodea nodeb lnode rnode =
    sym (same_link-undirected (nodea, nodeb) (lnode.uuid, rnode.uuid))

-- A link within the nodes has both of them.
pub nodes_of :
    (nodes : List Toponode) (link : Topolink)
    → (link.node0 < length nodes) × (link.node1 < length nodes)
    → (lnode rnode : Toponode) × (link_nodes nodes link ≡ some (lnode, rnode))
      × Occurs nodes lnode
      × Occurs nodes rnode
nodes_of nodes link (lt0, lt1) =
    let (lnode, stands0) = node_at nodes link.node0 lt0 in
    let (rnode, stands1) = node_at nodes link.node1 lt1 in
    (lnode, rnode, rw (stands0, stands1) refl, (link.node0, stands0), (link.node1, stands1))

Within-behind :
    (nodes : List Toponode) (link : Topolink) (links : List Topolink)
    → (link.node0 < length nodes) × (link.node1 < length nodes)
    → Within nodes links
    → Within nodes (link ∷ links)
Within-behind nodes link links here within zero l h =
    subst (λ (k : Topolink). (k.node0 < length nodes) × (k.node1 < length nodes))
      (some-injective _ _ h) here
Within-behind nodes link links here within (suc j) l h = within j l h

-- What is left of the links: those that the map does not have, and the first one of the two nodes.
pub record Left (nodes : List Toponode) (ab : Utopolink) (inside : Utopolink → Bool)
    (added : Option Ends) (links kept : List Topolink) (added₁ : Option Ends) : Type 0 where
  pub within : Within nodes kept
  pub joined :
      (p : Utopolink)
      → any_joins p nodes kept
        ≡ (any_joins p nodes links && (not (inside p) || (same_link ab p && not_yet added)))
  pub still : not_yet added₁ ≡ (not_yet added && not (any_joins ab nodes links))

module _ (nodes : List Toponode) (blinks : Hashmap Utopolink) (nodea nodeb : Uuid)
    (inside : Utopolink → Bool)
    (finds : (p : Utopolink) → is_some (Hashmap.find link_keys blinks p) ≡ inside p)
    (inside-same : (p q : Utopolink) → same_link p q ≡ true → inside p ≡ inside q) where
  abbrev ab : Utopolink
  ab = (nodea, nodeb)

  pub subtract-Left :
      (added : Option Ends) (links : List Topolink)
      → Within nodes links
      → (kept : List Topolink) × (added₁ : Option Ends) × (subtract blinks nodea nodeb nodes added
            links
          ≡ some (kept, added₁))
        × Left nodes ab inside added links kept added₁
  unfolding subtract
  subtract-Left added [] within =
      ([], added, refl, record { within = within; joined = λ p. refl; still = ground arith })
  subtract-Left added (link ∷ links) within =
      let here = within 0 link refl in
      let rest : Within nodes links = λ j l h. within (suc j) l h in
      let (lnode, rnode, both, on_left, on_right) = nodes_of nodes link here in
      let q : Utopolink = (lnode.uuid, rnode.uuid) in
      let is = is_ab-same_link nodea nodeb lnode rnode in
      let there : (p : Utopolink) → same_link ab q ≡ true → same_link ab p ≡ same_link p q = λ p h.
        ground (
          arith,
          h,
          same_link_trans ab p q,
          same_link_symm ab p,
          same_link_symm ab q,
          same_link_symm p q,
          same_link_trans p q ab,
          same_link_trans p ab q,
          same_link_symm p ab,
        ) in
      elim (Bool-cases (not_yet added && is_ab nodea nodeb lnode rnode)) [
        | inl first ↦
            let (kept, added₁, done, left) =
              subtract-Left (some (lnode, rnode, link.weight)) links rest in
            let at_ab : same_link ab q ≡ true = ground (arith, first, is) in
            (
              link ∷ kept,
              added₁,
              rw (both, first, subtract, done) refl,
              record {
                within = Within-behind nodes link kept here left.within;
                joined = λ p. rw both (ground (arith, left.joined p, there p at_ab, first));
                still = rw both (ground (arith, left.still, at_ab));
              },
            )
        | inr other ↦ elim (Option-cases (Hashmap.find link_keys blinks q)) [
          | inl absent ↦
              let (kept, added₁, done, left) = subtract-Left added links rest in
              let outside : inside q ≡ false = sym (finds q) ∙ ap is_some absent in
              (
                link ∷ kept,
                added₁,
                rw (both, other, absent, subtract, done) refl,
                record {
                  within = Within-behind nodes link kept here left.within;
                  joined = λ p. rw both (ground (arith, left.joined p, inside-same p q, outside));
                  still = rw both (ground (arith, left.still, other, is));
                },
              )
          | inr (l, found) ↦
              let (kept, added₁, done, left) = subtract-Left added links rest in
              let within_b : inside q ≡ true = sym (finds q) ∙ ap is_some found in
              let not_ab : (p : Utopolink)
                  → same_link p q ≡ true
                  → (same_link ab p && not_yet added) ≡ false =
                λ p h. ground (arith, h, other, is, same_link_trans ab p q) in
              (
                kept,
                added₁,
                rw (both, other, found, subtract, done) refl,
                record {
                  within = left.within;
                  joined = λ p.
                      rw both (ground (arith, left.joined p, inside-same p q, within_b, not_ab p));
                  still = rw both (ground (arith, left.still, other, is));
                },
              )
        ]
      ]

-- The link of the two nodes is found where there is one.
pub find_ab-joins :
    (nodea nodeb : Uuid) (nodes : List Toponode) (links : List Topolink)
    → Within nodes links
    → any_joins (nodea, nodeb) nodes links ≡ true
    → (lnode rnode : Toponode) × (weight : ℕ) × (find_ab nodea nodeb nodes links
        ≡ some (some (lnode, rnode, weight)))
      × (same_link (nodea, nodeb) (lnode.uuid, rnode.uuid) ≡ true)
      × Occurs nodes lnode
      × Occurs nodes rnode
unfolding find_ab
find_ab-joins nodea nodeb nodes [] within h = absurd (cc)
find_ab-joins nodea nodeb nodes (link ∷ links) within h =
    let (lnode, rnode, both, on_left, on_right) = nodes_of nodes link (within 0 link refl) in
    let is = is_ab-same_link nodea nodeb lnode rnode in
    elim (Bool-cases (is_ab nodea nodeb lnode rnode)) [
      | inl here ↦ (
        lnode,
        rnode,
        link.weight,
        rw (both, here, find_ab) refl,
        sym is ∙ here,
        on_left,
        on_right,
      )
      | inr other ↦
          let joined : (same_link (nodea, nodeb) (lnode.uuid, rnode.uuid)
                || any_joins (nodea, nodeb) nodes links)
              ≡ true =
            rw both at h in
          let (l, r, weight, done, same, occurs_l, occurs_r) =
            find_ab-joins nodea nodeb nodes links (λ j k e. within (suc j) k e)
              (ground (arith, joined, is, other)) in
          (l, r, weight, rw (both, other, find_ab) done, same, occurs_l, occurs_r)
    ]
