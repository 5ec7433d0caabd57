-- ===== src/Topology/Linked.antt =====
-- `mdv_topology_linked_nodes` of mdv_platform/mdv_topology.c.
use mathlib.Core.Path.{subst}
use mathlib.Core.Option.{some-injective}
use medved_db.Base.{
  ℕ, zero, suc, ◌+◌, ◌-◌, ◌<◌, ◌≡◌, ◌⊎◌, refl, ap, sym, ◌∙◌, List, [], ◌∷◌, true, false, Option,
  some, arith, ◌==◌, get_elem?, length, Bool-cases, inl, inr,
}
use medved_db.Topology.{
  Toponode, Topolink, mark_end, mark_links, number_nodes, renumber, linked_nodes,
}
use medved_db.Topology.Numbered.{
  number_keeps, number-marked, Occurs, number-Occurs, addr_size, number-size,
}

mark_end_keeps :
    (k x : ℕ) (s : (ℕ → ℕ) × ℕ) → (s.0 x == 0) ≡ false → ((mark_end k s).0 x == 0) ≡ false
mark_end_keeps k x s h = ground (arith, h)

mark_end_self : (k : ℕ) (s : (ℕ → ℕ) × ℕ) → ((mark_end k s).0 k == 0) ≡ false
mark_end_self k s = ground arith

mark_end-other :
    (k x : ℕ) (s : (ℕ → ℕ) × ℕ) → ((mark_end k s).0 x == 0) ≡ false → (s.0 x == 0) ≡ false ⊎ x ≡ k
mark_end-other k x s h = elim (Bool-cases (x == k)) [
  | inl at_end ↦ inr (ground (arith, at_end))
  | inr other ↦ inl (ground (arith, h, other))
]

mark_links_keeps :
    (links : List Topolink) (x : ℕ) (s : (ℕ → ℕ) × ℕ)
    → (s.0 x == 0) ≡ false
    → ((mark_links links s).0 x == 0) ≡ false
unfolding mark_links
mark_links_keeps [] x s h = h
mark_links_keeps (link ∷ links) x s h =
    mark_links_keeps links x (mark_end link.node1 (mark_end link.node0 s))
      (mark_end_keeps link.node1 x (mark_end link.node0 s) (mark_end_keeps link.node0 x s h))

-- The ends of every link are marked, and nothing else is.
mark_links-ends :
    (links : List Topolink) (s : (ℕ → ℕ) × ℕ) (j : ℕ) (link : Topolink)
    → get_elem? links j ≡ some link
    → (((mark_links links s).0 link.node0 == 0) ≡ false)
      × (((mark_links links s).0 link.node1 == 0) ≡ false)
unfolding mark_links
mark_links-ends [] s j link h = absurd (cc)
mark_links-ends (x ∷ links) s zero link h =
    let s₁ = mark_end x.node0 s in
    let s₂ = mark_end x.node1 s₁ in
    subst
      (λ l.
        (((mark_links links s₂).0 l.node0 == 0) ≡ false)
        × (((mark_links links s₂).0 l.node1 == 0) ≡ false))
      (some-injective _ _ h)
      (
        mark_links_keeps links x.node0 s₂
            (mark_end_keeps x.node1 x.node0 s₁ (mark_end_self x.node0 s)),
        mark_links_keeps links x.node1 s₂ (mark_end_self x.node1 s₁),
      )
mark_links-ends (x ∷ links) s (suc j) link h =
    mark_links-ends links (mark_end x.node1 (mark_end x.node0 s)) j link h

-- A link of the list has the node at one end.
pub record Uses (links : List Topolink) (k : ℕ) : Type 0 where
  pub index : ℕ
  pub link : Topolink
  pub stands : get_elem? links index ≡ some link
  pub at_end : (link.node0 ≡ k) ⊎ (link.node1 ≡ k)

later : (x : Topolink) (links : List Topolink) (k : ℕ) → Uses links k → Uses (x ∷ links) k
later x links k u = record {
  index = suc u.index;
  link = u.link;
  stands = u.stands;
  at_end = u.at_end;
}

mark_links-Uses :
    (links : List Topolink) (s : (ℕ → ℕ) × ℕ) (k : ℕ)
    → ((mark_links links s).0 k == 0) ≡ false
    → ((s.0 k == 0) ≡ false) ⊎ Uses links k
unfolding mark_links
mark_links-Uses [] s k h = inl h
mark_links-Uses (x ∷ links) s k h =
    let s₁ = mark_end x.node0 s in
    elim (mark_links-Uses links (mark_end x.node1 s₁) k h) [
      | inr u ↦ inr (later x links k u)
      | inl was ↦ elim (mark_end-other x.node1 k s₁ was) [
        | inr second ↦
            inr (record { index = 0; link = x; stands = refl; at_end = inr (sym second) })
        | inl before ↦ elim (mark_end-other x.node0 k s before) [
          | inr first ↦
              inr (record { index = 0; link = x; stands = refl; at_end = inl (sym first) })
          | inl old ↦ inl old
        ]
      ]
    ]

get_elem?-renumber :
    (idxs : ℕ → ℕ) (links : List Topolink) (j : ℕ) (link : Topolink)
    → get_elem? links j ≡ some link
    → get_elem? (renumber idxs links) j
      ≡ some (record link { node0 = idxs link.node0; node1 = idxs link.node1 })
get_elem?-renumber idxs [] j link h = absurd (cc)
get_elem?-renumber idxs (x ∷ links) zero link h =
    ap (λ (l : Topolink). some (record l { node0 = idxs l.node0; node1 = idxs l.node1 }))
      (some-injective _ _ h)
get_elem?-renumber idxs (x ∷ links) (suc j) link h = get_elem?-renumber idxs links j link h

renumber-Uses :
    (idxs : ℕ → ℕ) (links : List Topolink) (k : ℕ)
    → Uses links k
    → Uses (renumber idxs links) (idxs k)
renumber-Uses idxs links k u = record {
  index = u.index;
  link = record u.link { node0 = idxs u.link.node0; node1 = idxs u.link.node1 };
  stands = get_elem?-renumber idxs links u.index u.link u.stands;
  at_end = elim u.at_end [ inl first ↦ inl (ap idxs first) | inr second ↦ inr (ap idxs second) ];
}

-- What the links say: the two nodes of each, and its weight.
abbrev pub ends_of : List Toponode → List Topolink → List (Option Toponode × Option Toponode × ℕ)
ends_of nodes [] = []
ends_of nodes (link ∷ links) =
    (get_elem? nodes link.node0, get_elem? nodes link.node1, link.weight) ∷ ends_of nodes links

renumber-ends_of :
    (idxs : ℕ → ℕ) (nodes linked : List Toponode) (links : List Topolink)
    → ((j : ℕ) (link : Topolink)
        → get_elem? links j ≡ some link
        → (get_elem? linked (idxs link.node0) ≡ get_elem? nodes link.node0)
          × (get_elem? linked (idxs link.node1) ≡ get_elem? nodes link.node1))
    → ends_of linked (renumber idxs links) ≡ ends_of nodes links
renumber-ends_of idxs nodes linked [] same = refl
renumber-ends_of idxs nodes linked (link ∷ links) same =
    let (first, second) = same 0 link refl in
    let rest = renumber-ends_of idxs nodes linked links (λ j l h. same (suc j) l h) in
    rw (first, second, rest) refl

-- The ends of the links are indices of the nodes.
abbrev pub Within : List Toponode → List Topolink → Type 0
Within nodes links =
    (j : ℕ) (link : Topolink)
    → get_elem? links j ≡ some link
    → (link.node0 < length nodes) × (link.node1 < length nodes)

-- With memory, and links between nodes that are there, the links are renumbered so that each of them
-- has the same two nodes in the new array as before in the old one; every node of the new array is
-- one of the old one and the end of a link, and the room that is counted is that of the addresses of the new array.
pub linked_nodes-ends_of :
    (links : List Topolink) (nodes : List Toponode)
    → Within nodes links
    → (linked : List Toponode) × (links₁ : List Topolink) × (linked_nodes true true links nodes
        ≡ some (linked, links₁, addr_size linked))
      × (ends_of linked links₁ ≡ ends_of nodes links)
      × ((p : ℕ) → p < length linked → Uses links₁ p)
      × ((x : Toponode) → Occurs linked x → Occurs nodes x)
unfolding linked_nodes
linked_nodes-ends_of [] nodes within =
    ([], [], refl, refl, λ p lt. absurd (omega (arith, lt)), λ x (p, h). absurd (cc))
linked_nodes-ends_of (x ∷ links) nodes within =
    let all : List Topolink = x ∷ links in
    let marks : ℕ → ℕ = (mark_links all (λ k. 0, 0)).0 in
    let linked : List Toponode = (number_nodes 0 0 nodes marks).0 in
    let idxs : ℕ → ℕ = (number_nodes 0 0 nodes marks).2 in
    let kept : (k : ℕ)
        → k < length nodes
        → (marks k == 0) ≡ false
        → get_elem? linked (idxs k) ≡ get_elem? nodes k =
      λ k lt marked.
        let at_k : 0 + k ≡ k = omega arith in
        let same : idxs (0 + k) - 0 ≡ idxs k = omega (arith, ap idxs at_k) in
        let (above, stands) = number_keeps nodes 0 0 marks k lt (rw at_k marked) in
        ap (λ v. get_elem? linked v) (sym same) ∙ stands in
    (
      linked,
      renumber idxs all,
      ap (λ m. some (linked, renumber idxs all, m)) (number-size nodes 0 0 marks),
      renumber-ends_of idxs nodes linked all (λ j link h.
          let (lt0, lt1) = within j link h in
          let (marked0, marked1) = mark_links-ends all (λ k. 0, 0) j link h in
          (kept link.node0 lt0 marked0, kept link.node1 lt1 marked1)),
      λ p lt.
          let (k, below, marked, number) = number-marked nodes 0 0 marks p lt in
          let at_k : 0 + k ≡ k = omega arith in
          let is_p : idxs k ≡ p = ap idxs (sym at_k) ∙ number ∙ omega arith in
          elim (mark_links-Uses all (λ k. 0, 0) k (rw at_k at marked)) [
            | inl empty ↦ absurd (cc)
            | inr u ↦ subst (Uses (renumber idxs all)) is_p (renumber-Uses idxs all k u)
          ],
      λ x (p, h). number-Occurs nodes 0 0 marks p x h,
    )
