-- ===== src/Topology/Filled.antt =====
-- What the maps hold that mdv_platform/mdv_topology.c makes of the links.
use medved_db.Base.{
  ℕ, suc, ◌+◌, ◌*◌, ◌/◌, ◌≤◌, ◌<◌, ◌≡◌, ◌⊎◌, refl, ap, sym, ◌∙◌, List, [], ◌∷◌, Bool, true, false,
  Option, none, some, arith, ◌&&◌, ◌||◌, get_elem?, replicate, length, inl, inr, Option-cases,
}
use medved_db.Hashmap
use medved_db.Hashmap.{Hashmap, Allocs, returns, faults}
use medved_db.Hashmap.Interface.{Keys}
use medved_db.Hashmap.Placed.{update}
use medved_db.Hashmap.Refines.{Models, is_some, create-Models, find-Models}
use medved_db.Hashmap.Insert.{insert-Models}
use medved_db.Uuid.{Uuid}
use medved_db.Uuid.Keys.{same_uuid}
use medved_db.Topology.{Toponode, Topolink, Topology, Utopolink, link_nodes, fill, fill_created}
use medved_db.Topology.Pairs.{link_keys, uuids, same_link-undirected}
use medved_db.Topology.Maps.{pair_of, links_map, peer_of, peers}

-- Memory is there for every insertion.
abbrev pub enough_memory : ℕ → Allocs
enough_memory i = record { table = true; entry = true }

abbrev pub any_link : (Topolink → Bool) → List Topolink → Bool
any_link test [] = false
any_link test (link ∷ links) = test link || any_link test links

pub any_link-same :
    (f g : Topolink → Bool) (links : List Topolink)
    → ((link : Topolink) → f link ≡ g link)
    → any_link f links ≡ any_link g links
any_link-same f g [] same = refl
any_link-same f g (link ∷ links) same = ground (arith, same link, any_link-same f g links same)

-- Each link has both its nodes.
abbrev pub Nodes : Topology → Type 0
Nodes topology =
    (j : ℕ) (link : Topolink)
    → get_elem? topology.links j ≡ some link
    → (nodes : Toponode × Toponode) × (link_nodes topology.nodes link ≡ some nodes)

module _ {A K : Type 0} (ks : Keys A K) (item_size : ℕ) (pick : Topolink → Option (Option A)) where
  -- What the links give, over what is there.
  collected : (K → Option A) → List Topolink → K → Option A
  collected f [] = f
  collected f (link ∷ links) = elim (pick link) [
    | none ↦ f
    | some none ↦ collected f links
    | some (some x) ↦ collected (update ks f (ks.key x) (some x)) links
  ]

  fill-Models :
      (i : ℕ) (f : K → Option A) (hm : Hashmap A) (links : List Topolink)
      → Models ks f hm
      → 0 < hm.capacity
      → hm.key_offset + hm.key_size ≤ item_size
      → ((j : ℕ) (link : Topolink) → get_elem? links j ≡ some link → is_some (pick link) ≡ true)
      → (hm₁ : Hashmap A) × (fill ks item_size enough_memory pick i hm links ≡ some (some hm₁))
        × Models ks (collected f links) hm₁
  unfolding fill collected
  fill-Models i f hm [] models pos large picks = (hm, refl, models)
  fill-Models i f hm (link ∷ links) models pos large picks =
      let rest : (j : ℕ) (l : Topolink) → get_elem? links j ≡ some l → is_some (pick l) ≡ true =
        λ j l h. picks (suc j) l h in
      elim (Option-cases (pick link)) [
        | inl none_here ↦
            let clash : true ≡ false = sym (picks 0 link refl) ∙ ap is_some none_here in absurd (cc)
        | inr (picked, e) ↦ elim (Option-cases picked) [
          | inl skipped ↦
              rw (e, fill, collected, skipped)
                (fill-Models (i + 1) f hm links models pos large rest)
          | inr (x, is) ↦
              let (hm₁, inserted, models₁, size, kept) =
                insert-Models ks f hm x item_size models pos large in
              let (hm₂, done, models₂) =
                fill-Models (i + 1) (update ks f (ks.key x) (some x)) hm₁ links models₁
                  (omega (arith, pos, kept.grows))
                  (omega (arith, large, kept.offset, kept.key_width)) rest in
              rw (e, fill, collected, is, inserted) (hm₂, done, models₂)
        ]
      ]

  -- A key is found if it was there, or if a link gives an item of that key.
  gives : K → Option (Option A) → Bool
  gives k none = false
  gives k (some none) = false
  gives k (some (some x)) = ks.same k (ks.key x)

  is_some-collected :
      (f : K → Option A) (links : List Topolink) (k : K)
      → ((j : ℕ) (link : Topolink) → get_elem? links j ≡ some link → is_some (pick link) ≡ true)
      → is_some (collected f links k)
        ≡ (is_some (f k) || any_link (λ link. gives k (pick link)) links)
  unfolding collected gives
  is_some-collected f [] k picks = ground arith
  is_some-collected f (link ∷ links) k picks =
      let rest : (j : ℕ) (l : Topolink) → get_elem? links j ≡ some l → is_some (pick l) ≡ true =
        λ j l h. picks (suc j) l h in
      elim (Option-cases (pick link)) [
        | inl none_here ↦
            let clash : true ≡ false = sym (picks 0 link refl) ∙ ap is_some none_here in absurd (cc)
        | inr (picked, e) ↦ elim (Option-cases picked) [
          | inl skipped ↦ rw (e, collected, skipped) (is_some-collected f links k rest)
          | inr (x, is) ↦
              let found = is_some-collected (update ks f (ks.key x) (some x)) links k rest in
              rw (e, collected, is) (ground (arith, found))
        ]
      ]

  -- A map that is created with a capacity is filled.
  fill-find :
      (capacity offset width : ℕ) (links : List Topolink)
      → 0 < capacity ⊎ links ≡ []
      → offset + width ≤ item_size
      → ((j : ℕ) (link : Topolink) → get_elem? links j ≡ some link → is_some (pick link) ≡ true)
      → (hm : Hashmap A) × (fill_created ks item_size enough_memory pick links
            (Hashmap.create true capacity offset width)
          ≡ some (some hm))
        × ((k : K) → is_some (Hashmap.find ks hm k) ≡ any_link (λ link. gives k (pick link)) links)
  unfolding Hashmap.create fill
  fill-find capacity offset width links roomy large picks =
      let hm : Hashmap A = record {
        capacity = capacity * (5 / 4);
        size = 0;
        key_offset = offset;
        key_size = width;
        buckets = replicate (capacity * (5 / 4)) [];
      } in
      let (models, empty) = create-Models ks capacity offset width hm refl in
      elim roomy [
        | inr none_here ↦
            rw none_here (hm, refl, λ k. ap is_some (find-Models ks (λ q. none) hm k models))
        | inl pos ↦
            let (hm₁, done, models₁) =
              fill-Models 0 (λ q. none) hm links models (omega (arith, pos)) large picks in
            (
              hm₁,
              done,
              λ k.
                  ap is_some (find-Models ks (collected (λ q. none) links) hm₁ k models₁)
                  ∙ is_some-collected (λ q. none) links k picks,
            )
      ]

-- The link of two nodes, in either order.
abbrev pub between : Uuid → Uuid → Option (Toponode × Toponode) → Bool
between u v none = false
between u v (some (lnode, rnode)) =
    (same_uuid u lnode.uuid && same_uuid v rnode.uuid)
    || (same_uuid u rnode.uuid && same_uuid v lnode.uuid)

room_for : (links : List Topolink) → 0 < length links * 5 / 3 ⊎ links ≡ []
room_for [] = inr refl
room_for (link ∷ links) = inl (omega arith)

-- With memory, and links between nodes that are there, the map of the links answers whether a pair
-- of nodes is linked, in whichever order the pair is given and the link is stored.
pub links_map-find :
    (topology : Topology)
    → Nodes topology
    → (hm : Hashmap Utopolink) × (links_map true enough_memory topology ≡ some (some hm))
      × ((u v : Uuid)
          → is_some (Hashmap.find link_keys hm (u, v))
            ≡ any_link (λ link. between u v (link_nodes topology.nodes link)) topology.links)
unfolding links_map gives
links_map-find topology nodes =
    let (hm, done, finds) =
      fill-find link_keys 16 (λ link. pair_of (link_nodes topology.nodes link))
        (length topology.links * 5 / 3) 0 16 topology.links (room_for topology.links) (omega arith)
        (λ j link h. let (both, is) = nodes j link h in rw is refl) in
    (
      hm,
      done,
      λ u v.
          finds (u, v)
          ∙ any_link-same _ _ topology.links (λ link.
            elim (Option-cases (link_nodes topology.nodes link)) [
              | inl absent ↦ rw absent refl
              | inr ((lnode, rnode), is) ↦
                  rw is (same_link-undirected (u, v) (lnode.uuid, rnode.uuid))
            ]),
    )

-- With memory, and links between nodes that are there, the peers of a node are the nodes that have
-- a link with it, in either direction.
pub peers-find :
    (topology : Topology) (node : Uuid)
    → Nodes topology
    → (hm : Hashmap Uuid) × (peers true enough_memory topology node ≡ some (some hm))
      × ((v : Uuid)
          → is_some (Hashmap.find uuids hm v)
            ≡ any_link (λ link. between node v (link_nodes topology.nodes link)) topology.links)
unfolding peers gives
peers-find topology node nodes =
    let (hm, done, finds) =
      fill-find uuids 16 (λ link. peer_of node (link_nodes topology.nodes link)) 4 0 16
        topology.links (inl (omega arith)) (omega arith)
        (λ j link h. let ((lnode, rnode), is) = nodes j link h in rw is (ground arith)) in
    (
      hm,
      done,
      λ v.
          finds v
          ∙ any_link-same _ _ topology.links (λ link.
            elim (Option-cases (link_nodes topology.nodes link)) [
              | inl absent ↦ rw absent refl
              | inr ((lnode, rnode), is) ↦
                  let back = uuids.same_symm node lnode.uuid in
                  let across = uuids.same_trans lnode.uuid node rnode.uuid in
                  let onward = uuids.same_trans v lnode.uuid rnode.uuid in
                  rw is (ground (arith, back, across, onward))
            ]),
    )
