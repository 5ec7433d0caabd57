-- ===== src/Topology/Indices.antt =====
-- The map from local identifiers to indices that `mdv_topology_create` in mdv_platform/mdv_topology.c
-- fills.
use mathlib.Core.Path.{subst}
use mathlib.Core.Option.{some-injective}
use medved_db.Base.{
  ℕ, zero, suc, ◌+◌, ◌≤◌, ◌<◌, ◌≡◌, ◌⊎◌, refl, ◌∙◌, List, [], ◌∷◌, Option, some, arith, ◌==◌,
  get_elem?, Bool-cases, inl, inr,
}
use medved_db.Hashmap.{Hashmap}
use medved_db.Hashmap.Placed.{update}
use medved_db.Hashmap.Refines.{Models}
use medved_db.Hashmap.Insert.{insert-Models}
use medved_db.Topology.{Toponode}
use medved_db.Topology.Filled.{enough_memory}
use medved_db.Topology.Created.{NodeIdx, id_keys, number_ids}

abbrev pub Reads : Type 0
Reads = ℕ → Option NodeIdx

-- What the map of the indices answers.
unfoldable pub numbered : Reads → ℕ → List Toponode → Reads
numbered f n [] = f
numbered f n (node ∷ nodes) =
    numbered (update id_keys f node.id (some (record { id = node.id; idx = n }))) (n + 1) nodes

pub number_ids-Models :
    (n : ℕ) (f : Reads) (hm : Hashmap NodeIdx) (nodes : List Toponode)
    → Models id_keys f hm
    → 0 < hm.capacity
    → hm.key_offset + hm.key_size ≤ 8
    → (hm₁ : Hashmap NodeIdx) × (number_ids enough_memory n hm nodes ≡ some hm₁)
      × Models id_keys (numbered f n nodes) hm₁
unfolding number_ids numbered
number_ids-Models n f hm [] models pos large = (hm, refl, models)
number_ids-Models n f hm (node ∷ nodes) models pos large =
    let item : NodeIdx = record { id = node.id; idx = n } in
    let (hm₁, inserted, models₁, size, kept) = insert-Models id_keys f hm item 8 models pos large in
    let (hm₂, done, models₂) =
      number_ids-Models (n + 1) (update id_keys f node.id (some item)) hm₁ nodes models₁
        (omega (arith, pos, kept.grows)) (omega (arith, large, kept.offset, kept.key_width)) in
    (hm₂, rw (inserted, number_ids) done, models₂)

-- The map answers with the index of a node of the identifier.
pub record Answers (f : Reads) (n : ℕ) (nodes : List Toponode) (id : ℕ) : Type 0 where
  pub offset : ℕ
  pub node : Toponode
  pub stands : get_elem? nodes offset ≡ some node
  pub has_id : node.id ≡ id
  pub answer : NodeIdx
  pub reads : numbered f n nodes id ≡ some answer
  pub index : answer.idx ≡ n + offset

later :
    (f : Reads) (n : ℕ) (node : Toponode) (nodes : List Toponode) (id : ℕ)
    → Answers (update id_keys f node.id (some (record { id = node.id; idx = n }))) (n + 1) nodes id
    → Answers f n (node ∷ nodes) id
unfolding numbered
later f n node nodes id a = record {
  offset = suc a.offset;
  node = a.node;
  stands = a.stands;
  has_id = a.has_id;
  answer = a.answer;
  reads = a.reads;
  index = omega (arith, a.index);
}

numbered-cases :
    (f : Reads) (n : ℕ) (nodes : List Toponode) (id : ℕ)
    → (numbered f n nodes id ≡ f id) ⊎ Answers f n nodes id
unfolding numbered
numbered-cases f n [] id = inl refl
numbered-cases f n (node ∷ nodes) id =
    let item : NodeIdx = record { id = node.id; idx = n } in
    elim (numbered-cases (update id_keys f node.id (some item)) (n + 1) nodes id) [
      | inr a ↦ inr (later f n node nodes id a)
      | inl same ↦ elim (Bool-cases (id == node.id)) [
        | inr other ↦ inl (same ∙ rw other refl)
        | inl here ↦ inr (record {
          offset = 0;
          node = node;
          stands = refl;
          has_id = ground (arith, here);
          answer = item;
          reads = same ∙ rw here refl;
          index = omega arith;
        })
      ]
    ]

pub numbered-Answers :
    (f : Reads) (n : ℕ) (nodes : List Toponode) (j : ℕ) (node : Toponode)
    → get_elem? nodes j ≡ some node
    → Answers f n nodes node.id
unfolding numbered
numbered-Answers f n [] j node h = absurd (cc)
numbered-Answers f n (x ∷ nodes) (suc j) node h =
    let item : NodeIdx = record { id = x.id; idx = n } in
    later f n x nodes node.id
      (numbered-Answers (update id_keys f x.id (some item)) (n + 1) nodes j node h)
numbered-Answers f n (x ∷ nodes) zero node h =
    let item : NodeIdx = record { id = x.id; idx = n } in
    subst (λ (m : Toponode). Answers f n (x ∷ nodes) m.id) (some-injective _ _ h)
      (elim (numbered-cases (update id_keys f x.id (some item)) (n + 1) nodes x.id) [
        | inr a ↦ later f n x nodes x.id a
        | inl same ↦ record {
          offset = 0;
          node = x;
          stands = refl;
          has_id = refl;
          answer = item;
          reads = same ∙ ground arith;
          index = omega arith;
        }
      ])
