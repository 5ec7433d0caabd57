-- ===== src/Topology/Created.antt =====
-- `mdv_topology_create` of mdv_platform/mdv_topology.c. The sorting is a call of `qsort`: a parameter.
use medved_db.Base.{
  ℕ, ◌+◌, ◌≡◌, List, [], ◌∷◌, Bool, true, Option, none, some, arith, ◌==◌, if◌then◌else◌, get_elem?,
  length,
}
use medved_db.Hashmap
use medved_db.Hashmap.{Hashmap, Allocs, returns, faults}
use medved_db.Hashmap.Interface.{Keys}
use medved_db.Topology.{Toponode, Topolink, Topology}

-- `mdv_node_idx`.
pub record NodeIdx : Type 0 where
  pub id : ℕ
  pub idx : ℕ

pub id_same : (a b : ℕ) → (a == b) ≡ true → a ≡ b
id_same a b h = ground (arith, h)

pub id_symm : (a b : ℕ) → (a == b) ≡ true → (b == a) ≡ true
id_symm a b h = ground (arith, h)

pub id_trans : (a b c : ℕ) → (a == b) ≡ true → (b == c) ≡ true → (a == c) ≡ true
id_trans a b c h k = ground (arith, h, k)

pub id_refl : (a : ℕ) → (a == a) ≡ true
id_refl a = ground arith

-- `mdv_u32_hash` and `mdv_u32_cmp`, which is 0 for equal numbers of 32 bits.
abbrev pub id_keys : Keys NodeIdx ℕ
id_keys = record {
  key = λ (node : NodeIdx). node.id;
  hash = λ id. id;
  same = λ a b. a == b;
  same_refl = id_refl;
  same_symm = id_symm;
  same_trans = id_trans;
  hash-same = id_same;
}

-- The links with the identifiers of their nodes in place of the indices.
abbrev pub with_id :
    Topolink → Option Toponode → Option Toponode → Option (List Topolink) → Option (List Topolink)
with_id link none node1 rest = none
with_id link (some node0) none rest = none
with_id link (some node0) (some node1) none = none
with_id link (some node0) (some node1) (some links) =
    some (record link { node0 = node0.id; node1 = node1.id } ∷ links)

unfoldable pub to_ids : List Toponode → List Topolink → Option (List Topolink)
to_ids nodes [] = some []
to_ids nodes (link ∷ links) =
    with_id link (get_elem? nodes link.node0) (get_elem? nodes link.node1) (to_ids nodes links)

-- The results of the insertions are not looked at.
unfoldable pub number_ids :
    (ℕ → Allocs) → ℕ → Hashmap NodeIdx → List Toponode → Option (Hashmap NodeIdx)
number_ids allocs n hm [] = some hm
number_ids allocs n hm (node ∷ nodes) =
    elim (Hashmap.insert id_keys (allocs n) hm (record { id = node.id; idx = n }) 8) [
      | faults ↦ none
      | returns (stored, hm₁) ↦ number_ids allocs (n + 1) hm₁ nodes
    ]

-- The links with the indices of the sorted nodes.
abbrev pub with_idx :
    Topolink → Option NodeIdx → Option NodeIdx → Option (List Topolink) → Option (List Topolink)
with_idx link none node1 rest = none
with_idx link (some node0) none rest = none
with_idx link (some node0) (some node1) none = none
with_idx link (some node0) (some node1) (some links) =
    some (record link { node0 = node0.idx; node1 = node1.idx } ∷ links)

unfoldable pub to_idxs : Hashmap NodeIdx → List Topolink → Option (List Topolink)
to_idxs hm [] = some []
to_idxs hm (link ∷ links) =
    with_idx link (Hashmap.find id_keys hm link.node0) (Hashmap.find id_keys hm link.node1)
      (to_idxs hm links)

module _ (sort : List Toponode → List Toponode) where
  abbrev pub restored : List Toponode → List ℕ → Option (List Topolink) → Option (Option Topology)
  restored sorted extradata none = none
  restored sorted extradata (some links) =
      some (some (record { nodes = sorted; links = links; extradata = extradata }))

  abbrev pub renumbered :
      List Toponode → List ℕ → List Topolink → Option (Hashmap NodeIdx) → Option (Option Topology)
  renumbered sorted extradata links none = none
  renumbered sorted extradata links (some node_idxs) =
      restored sorted extradata (to_idxs node_idxs links)

  abbrev pub by_ids :
      (ℕ → Allocs)
      → List Toponode
      → List ℕ
      → Hashmap NodeIdx
      → Option (List Topolink)
      → Option (Option Topology)
  by_ids allocs nodes extradata node_idxs none = none
  by_ids allocs nodes extradata node_idxs (some links) =
      renumbered (sort nodes) extradata links (number_ids allocs 0 node_idxs (sort nodes))

  abbrev pub create_with :
      (ℕ → Allocs)
      → List Toponode
      → List Topolink
      → List ℕ
      → Option (Hashmap NodeIdx)
      → Option (Option Topology)
  create_with allocs nodes links extradata none = some none
  create_with allocs nodes links extradata (some node_idxs) =
      by_ids allocs nodes extradata node_idxs (to_ids nodes links)

  unfoldable pub create :
      Bool → Bool → (ℕ → Allocs) → List Toponode → List Topolink → List ℕ → Option (Option Topology)
  create allocated created allocs nodes links extradata =
      if allocated
      then create_with allocs nodes links extradata (Hashmap.create created (length nodes) 0 4)
      else some none
