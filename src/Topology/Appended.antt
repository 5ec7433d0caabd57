-- ===== src/Topology/Appended.antt =====
-- `mdv_topology_linked_node_append` of mdv_platform/mdv_topology.c.
use mathlib.Core.Path.{subst}
use mathlib.Core.Option.{some-injective}
use medved_db.Base.{
  ℕ, zero, suc, ◌+◌, ◌-◌, ◌≤◌, ◌<◌, ◌≡◌, ◌⊎◌, refl, sym, ◌∙◌, List, [], ◌∷◌, ◌++◌, Bool, true,
  false, Option, none, some, arith, get_elem?, length, Bool-cases, inl, inr,
}
use medved_db.Vector
use medved_db.Uuid.Keys.{same_uuid}
use medved_db.Topology.{Toponode, Topolink}
use medved_db.Topology.Linked.{Within, ends_of}
use medved_db.Topology.Numbered.{Occurs}
use medved_db.Topology.Restored.{node_at, place_lt}
use medved_db.Topology.Delta.{node_idx, pushed, second_fails, find_node, linked_node_append}

-- The item that is found.
find_from-finds :
    (equ : Toponode → Toponode → Bool) (node : Toponode) (i : ℕ) (nodes : List Toponode) (idx : ℕ)
    → Vector.find_from equ node i nodes ≡ some idx
    → (i ≤ idx) × (x : Toponode) × (get_elem? nodes (idx - i) ≡ some x) × (equ x node ≡ true)
unfolding Vector.find_from
find_from-finds equ node i [] idx h = absurd (cc)
find_from-finds equ node i (x ∷ nodes) idx h = elim (Bool-cases (equ x node)) [
  | inl here ↦
      let is_i : i ≡ idx = some-injective _ _ (rw (here, Vector.find_from) at h) in
      let none_left : idx - i ≡ 0 = omega (arith, is_i) in
      (omega (arith, is_i), x, rw none_left refl, here)
  | inr other ↦
      let later : Vector.find_from equ node (i + 1) nodes ≡ some idx =
        rw (other, Vector.find_from) at h in
      let (above, y, stands, same) = find_from-finds equ node (i + 1) nodes idx later in
      let one_more : idx - i ≡ suc (idx - (i + 1)) = omega (arith, above) in
      (omega (arith, above), y, rw one_more stands, same)
]

-- The array keeps the nodes of the old one in their places.
abbrev Extends : List Toponode → List Toponode → Type 0
Extends nodes nodes₁ =
    (j : ℕ) (x : Toponode) → get_elem? nodes j ≡ some x → get_elem? nodes₁ j ≡ some x

get_elem?-append_left :
    (xs ys : List Toponode) (j : ℕ) (x : Toponode)
    → get_elem? xs j ≡ some x
    → get_elem? (xs ++ ys) j ≡ some x
get_elem?-append_left [] ys j x h = absurd (cc)
get_elem?-append_left (y ∷ xs) ys zero x h = h
get_elem?-append_left (y ∷ xs) ys (suc j) x h = get_elem?-append_left xs ys j x h

get_elem?-append_last :
    (xs : List Toponode) (x : Toponode) → get_elem? (xs ++ x ∷ []) (length xs) ≡ some x
get_elem?-append_last [] x = refl
get_elem?-append_last (y ∷ xs) x = get_elem?-append_last xs x

Occurs-append :
    (xs : List Toponode) (x y : Toponode) → Occurs (xs ++ x ∷ []) y → Occurs xs y ⊎ (y ≡ x)
Occurs-append [] x y (zero, h) = inr (sym (some-injective _ _ h))
Occurs-append [] x y (suc j, h) = absurd (cc)
Occurs-append (z ∷ xs) x y (zero, h) = inl (0, h)
Occurs-append (z ∷ xs) x y (suc j, h) = elim (Occurs-append xs x y (j, h)) [
  | inl (k, e) ↦ inl (suc k, e)
  | inr is ↦ inr is
]

-- A node that is pushed, or that was found, is at its index.
record Placed (nodes nodes₁ : List Toponode) (node : Toponode) (idx : ℕ) : Type 0 where
  at_idx : Toponode
  stands : get_elem? nodes₁ idx ≡ some at_idx
  same : same_uuid at_idx.uuid node.uuid ≡ true
  extends : Extends nodes nodes₁
  either : (y : Toponode) → Occurs nodes₁ y → Occurs nodes y ⊎ (y ≡ node)

pushed-Placed :
    (nodes : List Toponode) (extrasize : ℕ) (node : Toponode) (found : Option ℕ)
    → ((idx : ℕ)
        → found ≡ some idx
        → (x : Toponode) × (get_elem? nodes idx ≡ some x) × (same_uuid x.uuid node.uuid ≡ true))
    → same_uuid node.uuid node.uuid ≡ true
    → Placed nodes (pushed nodes extrasize node found).0 node (node_idx nodes found)
pushed-Placed nodes extrasize node none finds self = record {
  at_idx = node;
  stands = get_elem?-append_last nodes node;
  same = self;
  extends = λ j x h. get_elem?-append_left nodes (node ∷ []) j x h;
  either = λ y o. Occurs-append nodes node y o;
}
pushed-Placed nodes extrasize node (some idx) finds self =
    let (x, stands, same) = finds idx refl in
    record { at_idx = x; stands = stands; same = same; extends = λ j y h. h; either = λ y o. inl o }

Within-Extends :
    (nodes nodes₁ : List Toponode) (links : List Topolink)
    → Extends nodes nodes₁
    → Within nodes links
    → Within nodes₁ links
Within-Extends nodes nodes₁ links extends within j link h =
    let (lt0, lt1) = within j link h in
    let (x, stands0) = node_at nodes link.node0 lt0 in
    let (y, stands1) = node_at nodes link.node1 lt1 in
    (
      place_lt nodes₁ link.node0 x (extends link.node0 x stands0),
      place_lt nodes₁ link.node1 y (extends link.node1 y stands1),
    )

ends_of-Extends :
    (nodes nodes₁ : List Toponode) (links : List Topolink) (last : Topolink)
    → Extends nodes nodes₁
    → Within nodes links
    → ends_of nodes₁ (links ++ last ∷ [])
      ≡ ends_of nodes links
        ++ (get_elem? nodes₁ last.node0, get_elem? nodes₁ last.node1, last.weight) ∷ []
ends_of-Extends nodes nodes₁ [] last extends within = refl
ends_of-Extends nodes nodes₁ (link ∷ links) last extends within =
    let (lt0, lt1) = within 0 link refl in
    let (x, stands0) = node_at nodes link.node0 lt0 in
    let (y, stands1) = node_at nodes link.node1 lt1 in
    let rest = ends_of-Extends nodes nodes₁ links last extends (λ j l h. within (suc j) l h) in
    rw (extends link.node0 x stands0, extends link.node1 y stands1, stands0, stands1, rest) refl

Within-append :
    (nodes : List Toponode) (links : List Topolink) (last : Topolink)
    → Within nodes links
    → (last.node0 < length nodes) × (last.node1 < length nodes)
    → Within nodes (links ++ last ∷ [])
Within-append nodes [] last within lts zero link h =
    subst (λ (l : Topolink). (l.node0 < length nodes) × (l.node1 < length nodes))
      (some-injective _ _ h) lts
Within-append nodes [] last within lts (suc j) link h = absurd (cc)
Within-append nodes (x ∷ links) last within lts zero link h = within 0 link h
Within-append nodes (x ∷ links) last within lts (suc j) link h =
    Within-append nodes links last (λ k l e. within (suc k) l e) lts j link h

never_fails : (l r : Option ℕ) → second_fails true l r ≡ false
never_fails none none = refl
never_fails none (some r) = refl
never_fails (some l) r = refl

-- The link is appended, between nodes with the identifiers of the two; the others keep theirs.
pub record Grown (nodes : List Toponode) (links : List Topolink) (lnode rnode : Toponode)
    (weight : ℕ) (nodes₁ : List Toponode) (links₁ : List Topolink) : Type 0 where
  pub left : Toponode
  pub right : Toponode
  pub left_same : same_uuid left.uuid lnode.uuid ≡ true
  pub right_same : same_uuid right.uuid rnode.uuid ≡ true
  pub ends : ends_of nodes₁ links₁ ≡ ends_of nodes links ++ (some left, some right, weight) ∷ []
  pub within : Within nodes₁ links₁
  pub either : (y : Toponode) → Occurs nodes₁ y → Occurs nodes y ⊎ ((y ≡ lnode) ⊎ (y ≡ rnode))

pub linked_node_append-Grown :
    (links : List Topolink) (nodes : List Toponode) (extrasize : ℕ) (lnode rnode : Toponode)
    (weight : ℕ)
    → Within nodes links
    → same_uuid lnode.uuid lnode.uuid ≡ true
    → same_uuid rnode.uuid rnode.uuid ≡ true
    → (links₁ : List Topolink) × (nodes₁ : List Toponode) × (extrasize₁ : ℕ) × (linked_node_append
          true links nodes extrasize
          (some (lnode, rnode, weight))
        ≡ some (links₁, nodes₁, extrasize₁))
      × Grown nodes links lnode rnode weight nodes₁ links₁
unfolding linked_node_append find_node
linked_node_append-Grown links nodes extrasize lnode rnode weight within self_l self_r =
    let equ : Toponode → Toponode → Bool = λ x y. same_uuid x.uuid y.uuid in
    let found : (node : Toponode) (idx : ℕ)
        → find_node nodes node ≡ some idx
        → (x : Toponode) × (get_elem? nodes idx ≡ some x) × (same_uuid x.uuid node.uuid ≡ true) =
      λ node idx h.
        let (above, x, stands, same) = find_from-finds equ node 0 nodes idx h in
        let at_idx : idx - 0 ≡ idx = omega arith in (x, rw at_idx at stands, same) in
    let l = find_node nodes lnode in
    let r = find_node nodes rnode in
    let first = pushed nodes extrasize lnode l in
    let left = pushed-Placed nodes extrasize lnode l (found lnode) self_l in
    let right =
      pushed-Placed first.0 first.1 rnode r
        (λ idx h. let (x, stands, same) = found rnode idx h in (x, left.extends idx x stands, same))
        self_r in
    let nodes₂ = (pushed first.0 first.1 rnode r).0 in
    let last : Topolink = record {
      node0 = node_idx nodes l;
      node1 = node_idx first.0 r;
      weight = weight;
    } in
    let extends : Extends nodes nodes₂ = λ j x h. right.extends j x (left.extends j x h) in
    let stands_l = right.extends (node_idx nodes l) left.at_idx left.stands in
    (
      links ++ last ∷ [],
      nodes₂,
      (pushed first.0 first.1 rnode r).1,
      (let enough : second_fails true l r ≡ false = never_fails l r in rw enough refl),
      record {
        left = left.at_idx;
        right = right.at_idx;
        left_same = left.same;
        right_same = right.same;
        ends =
            ends_of-Extends nodes nodes₂ links last extends within
            ∙ rw (stands_l, right.stands) refl;
        within =
            Within-append nodes₂ links last (Within-Extends nodes nodes₂ links extends within) (
              place_lt nodes₂ last.node0 left.at_idx stands_l,
              place_lt nodes₂ last.node1 right.at_idx right.stands,
            );
        either = λ y o. elim (right.either y o) [
          | inr is_r ↦ inr (inr is_r)
          | inl before ↦ elim (left.either y before) [
            | inr is_l ↦ inr (inl is_l)
            | inl old ↦ inl old
          ]
        ];
      },
    )
