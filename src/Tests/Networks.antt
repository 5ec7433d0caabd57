-- ===== src/Tests/Networks.antt =====
-- Runs of mdv_topology.c: three nodes, of which the first is linked with both others.
use mathlib.Core.Path.{subst}
use mathlib.Core.Option.{some-injective}
use medved_db.Base.{
  not, Option, none, of_le, ℕ, zero, suc, ◌<◌, ◌≡◌, ◌⊎◌, inl, inr, refl, ap, sym, ◌∙◌, List, [],
  ◌∷◌, true, false, some, arith, length, Bool-cases, replicate, ◌&&◌, ◌||◌,
}
use medved_db.Hashmap
use medved_db.Hashmap.{Hashmap}
use medved_db.Hashmap.Refines.{is_some}
use medved_db.Uuid.{Uuid, uuid_cmp}
use medved_db.Uuid.Keys.{same_uuid}
use medved_db.Topology.{
  utopolink_cmp, uuids_sort, Toponode, Topolink, Topology, Utopolink, at_most, link_nodes,
  linked_nodes,
}
use medved_db.Topology.Pairs.{uuids, same_link, same_link-undirected}
use medved_db.Topology.Maps.{links_map, peers}
use medved_db.Topology.Filled.{enough_memory, any_link, between, Nodes, peers-find}
use medved_db.Topology.Numbered.{Occurs, addr_size}
use medved_db.Topology.Linked.{Within, ends_of, Uses, linked_nodes-ends_of}
use medved_db.Topology.Delta.{diff}
use medved_db.Topology.Kept.{linked}
use medved_db.Topology.Difference.{all_memory, Apart, diff-linked}
use medved_db.Topology.Created.{create}
use medved_db.Topology.Restored.{Sorts, Distinct, create-ends_of}

abbrev node : ℕ → Toponode
node k = record { uuid = replicate 16 k; id = k; addr = 97 ∷ k ∷ [] }

abbrev nodes : List Toponode
nodes = node 7 ∷ node 9 ∷ node 3 ∷ node 5 ∷ []

abbrev link : ℕ → ℕ → ℕ → Topolink
link a b w = record { node0 = a; node1 = b; weight = w }

abbrev star : Topology
star = record { nodes = nodes; links = link 1 3 4 ∷ link 2 1 6 ∷ []; extradata = [] }

same_link-undirected_example :
    same_link (replicate 16 7, replicate 16 9) (replicate 16 9, replicate 16 7) ≡ (
      (same_uuid (replicate 16 7) (replicate 16 9) && same_uuid (replicate 16 9) (replicate 16 7))
      || (same_uuid (replicate 16 7) (replicate 16 7)
          && same_uuid (replicate 16 9) (replicate 16 9)))
same_link-undirected_example =
    same_link-undirected (replicate 16 7, replicate 16 9) (replicate 16 9, replicate 16 7)

star-Nodes : Nodes star
star-Nodes zero l h =
    subst (λ k. (pair : Toponode × Toponode) × (link_nodes nodes k ≡ some pair))
      (some-injective _ _ h) ((node 9, node 5), refl)
star-Nodes (suc zero) l h =
    subst (λ k. (pair : Toponode × Toponode) × (link_nodes nodes k ≡ some pair))
      (some-injective _ _ h) ((node 3, node 9), refl)
star-Nodes (suc (suc j)) l h = absurd (cc)

peers-find_example :
    (hm : Hashmap Uuid) × (peers true enough_memory star (replicate 16 9) ≡ some (some hm))
    × ((v : Uuid)
        → is_some (Hashmap.find uuids hm v)
          ≡ any_link (λ link. between (replicate 16 9) v (link_nodes nodes link)) star.links)
peers-find_example = peers-find star (replicate 16 9) star-Nodes

star-Within : Within nodes star.links
star-Within zero l h =
    subst (λ (k : Topolink). (k.node0 < 4) × (k.node1 < 4)) (some-injective _ _ h)
      (omega arith, omega arith)
star-Within (suc zero) l h =
    subst (λ (k : Topolink). (k.node0 < 4) × (k.node1 < 4)) (some-injective _ _ h)
      (omega arith, omega arith)
star-Within (suc (suc j)) l h = absurd (cc)

linked_nodes-ends_of_example :
    (linked : List Toponode) × (links₁ : List Topolink) × (linked_nodes true true star.links nodes
      ≡ some (linked, links₁, addr_size linked))
    × (ends_of linked links₁ ≡ ends_of nodes star.links)
    × ((p : ℕ) → p < length linked → Uses links₁ p)
    × ((x : Toponode) → Occurs linked x → Occurs nodes x)
linked_nodes-ends_of_example = linked_nodes-ends_of star.links nodes star-Within

-- A sort of the nodes by their identifiers.
insert_node : Toponode → List Toponode → List Toponode
insert_node x [] = x ∷ []
insert_node x (y ∷ ys) = elim (at_most (uuid_cmp x.uuid y.uuid)) [
  | true ↦ x ∷ y ∷ ys
  | false ↦ y ∷ insert_node x ys
]

sort_nodes : List Toponode → List Toponode
sort_nodes [] = []
sort_nodes (x ∷ xs) = insert_node x (sort_nodes xs)

behind : (y : Toponode) (ys : List Toponode) (z : Toponode) → Occurs ys z → Occurs (y ∷ ys) z
behind y ys z (j, h) = (suc j, h)

head_or :
    (y : Toponode) (ys : List Toponode) (z : Toponode) → Occurs (y ∷ ys) z → (y ≡ z) ⊎ Occurs ys z
head_or y ys z (zero, h) = inl (some-injective _ _ h)
head_or y ys z (suc j, h) = inr (j, h)

Occurs-insert_node :
    (x : Toponode) (ys : List Toponode) (z : Toponode)
    → Occurs (x ∷ ys) z
    → Occurs (insert_node x ys) z
unfolding insert_node
Occurs-insert_node x [] z o = o
Occurs-insert_node x (y ∷ ys) z o = elim (Bool-cases (at_most (uuid_cmp x.uuid y.uuid))) [
  | inl first ↦ rw (first, insert_node) o
  | inr after ↦
      rw (after, insert_node)
        (elim (head_or x (y ∷ ys) z o) [
          | inl is_x ↦ behind y (insert_node x ys) z (Occurs-insert_node x ys z (0, ap some is_x))
          | inr there ↦ elim (head_or y ys z there) [
            | inl is_y ↦ (0, ap some is_y)
            | inr rest ↦
                behind y (insert_node x ys) z (Occurs-insert_node x ys z (behind x ys z rest))
          ]
        ])
]

insert_node-Occurs :
    (x : Toponode) (ys : List Toponode) (z : Toponode)
    → Occurs (insert_node x ys) z
    → Occurs (x ∷ ys) z
unfolding insert_node
insert_node-Occurs x [] z o = o
insert_node-Occurs x (y ∷ ys) z o = elim (Bool-cases (at_most (uuid_cmp x.uuid y.uuid))) [
  | inl first ↦ rw (first, insert_node) at o
  | inr after ↦ elim (head_or y (insert_node x ys) z (rw (after, insert_node) at o)) [
    | inl is_y ↦ (1, ap some is_y)
    | inr there ↦ elim (head_or x ys z (insert_node-Occurs x ys z there)) [
      | inl is_x ↦ (0, ap some is_x)
      | inr rest ↦ behind x (y ∷ ys) z (behind y ys z rest)
    ]
  ]
]

sort_nodes-Sorts : Sorts sort_nodes
unfolding sort_nodes
sort_nodes-Sorts [] z = (λ o. o, λ o. o)
sort_nodes-Sorts (x ∷ xs) z =
    let (there, back) = sort_nodes-Sorts xs z in
    (
      λ o. Occurs-insert_node x (sort_nodes xs) z (elim (head_or x xs z o) [
        | inl is_x ↦ (0, ap some is_x)
        | inr rest ↦ behind x (sort_nodes xs) z (there rest)
      ]),
      λ o. elim (head_or x (sort_nodes xs) z (insert_node-Occurs x (sort_nodes xs) z o)) [
        | inl is_x ↦ (0, ap some is_x)
        | inr rest ↦ behind x xs z (back rest)
      ],
    )

-- The nodes are the ones of their local identifiers.
is_node : (a : Toponode) → Occurs nodes a → node a.id ≡ a
is_node a (zero, h) = subst (λ (x : Toponode). node x.id ≡ x) (some-injective _ _ h) refl
is_node a (suc zero, h) = subst (λ (x : Toponode). node x.id ≡ x) (some-injective _ _ h) refl
is_node a (suc (suc zero), h) = subst (λ (x : Toponode). node x.id ≡ x) (some-injective _ _ h) refl
is_node a (suc (suc (suc zero)), h) =
    subst (λ (x : Toponode). node x.id ≡ x) (some-injective _ _ h) refl
is_node a (suc (suc (suc (suc j))), h) = absurd (cc)

star-Distinct : Distinct nodes
star-Distinct a b o q e = sym (is_node a o) ∙ ap node e ∙ is_node b q

create-ends_of_example :
    (topology : Topology) × (create sort_nodes true true enough_memory nodes star.links []
      ≡ some (some topology))
    × (topology.nodes ≡ sort_nodes nodes)
    × (ends_of topology.nodes topology.links ≡ ends_of nodes star.links)
create-ends_of_example =
    create-ends_of sort_nodes nodes star.links [] sort_nodes-Sorts star-Within star-Distinct

-- The topology of another server, which has the same nodes and a link less and a link more.
abbrev other : Topology
other = record { nodes = nodes; links = link 3 1 4 ∷ link 0 1 5 ∷ []; extradata = [] }

other-Within : Within nodes other.links
other-Within zero l h =
    subst (λ (k : Topolink). (k.node0 < 4) × (k.node1 < 4)) (some-injective _ _ h)
      (omega arith, omega arith)
other-Within (suc zero) l h =
    subst (λ (k : Topolink). (k.node0 < 4) × (k.node1 < 4)) (some-injective _ _ h)
      (omega arith, omega arith)
other-Within (suc (suc j)) l h = absurd (cc)

in_either : (a : Toponode) → Occurs star.nodes a ⊎ Occurs other.nodes a → Occurs nodes a
in_either a (inl o) = o
in_either a (inr o) = o

star-Apart : Apart star other
star-Apart x y o q e = star-Distinct x y (in_either x o) (in_either y q) e

seven_nine :
    (linked star (replicate 16 7, replicate 16 9) || linked other (replicate 16 7, replicate 16 9))
    ≡ true
unfolding same_link utopolink_cmp uuids_sort uuid_cmp of_le
seven_nine = refl

diff-linked_example :
    (t : Topology) × (diff sort_nodes all_memory star (replicate 16 7) other (replicate 16 9)
      ≡ some (some t))
    × ((p : Utopolink)
        → linked t p ≡ (
            (linked star p && not (linked other p))
            || (same_link (replicate 16 7, replicate 16 9) p && (linked star p || linked other p))))
diff-linked_example =
    diff-linked sort_nodes star other (replicate 16 7) (replicate 16 9) sort_nodes-Sorts star-Within
      other-Within star-Apart (omega arith) seven_nine

-- A node with the identifier that another server gave it.
abbrev known : ℕ → ℕ → Toponode
known k id = record { uuid = replicate 16 k; id = id; addr = [] }

-- Two servers, 7 and 9, and a node 3; each server has the local identifier 0 in its own topology.
abbrev at_nine : Topology
at_nine = record { nodes = known 9 0 ∷ known 3 1 ∷ []; links = link 0 1 4 ∷ []; extradata = [] }

abbrev at_seven : Topology
at_seven = record { nodes = known 7 0 ∷ known 9 1 ∷ []; links = link 0 1 4 ∷ []; extradata = [] }

joined_ends : Option (Option Topology) → List (Option Toponode × Option Toponode × ℕ)
joined_ends none = []
joined_ends (some none) = []
joined_ends (some (some t)) = ends_of t.nodes t.links

mixed : List (Option Toponode × Option Toponode × ℕ)
mixed = joined_ends (diff sort_nodes all_memory at_nine (replicate 16 9) at_seven (replicate 16 7))

-- The link of 7 and 9 is one of 9 with itself.
mixed_ends :
    mixed ≡ (some (known 9 0), some (known 3 1), 4) ∷ (some (known 9 0), some (known 9 0), 4) ∷ []
unfolding mixed joined_ends diff links_map Hashmap.create medved_db.Topology.fill Hashmap.insert
    Hashmap.make_room Hashmap.push_new medved_db.Topology.Delta.subtract same_uuid uuid_cmp of_le
    Hashmap.find Hashmap.unlink medved_db.Hashmap.Chain.find medved_db.Topology.utopolink_hash
    medved_db.Hashmap.Chain.remove Hashmap.add_entry Hashmap.move_bucket Hashmap.move_buckets
    Hashmap.resize insert_node sort_nodes create medved_db.Topology.Created.number_ids
    medved_db.Topology.Created.to_ids medved_db.Topology.Created.to_idxs
    medved_db.Topology.Delta.find_ab medved_db.Topology.Delta.find_node
    medved_db.Topology.Delta.linked_node_append same_link linked_nodes medved_db.Topology.mark_links
    medved_db.Topology.number_nodes utopolink_cmp uuids_sort medved_db.Uuid.uuid_hash
    medved_db.Vector.find_from
mixed_ends = refl
