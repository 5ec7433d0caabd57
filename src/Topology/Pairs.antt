-- ===== src/Topology/Pairs.antt =====
-- The links of mdv_platform/mdv_topology.c as the keys of a hash map (Hashmap.Interface): a link is
-- the same in both directions.
use medved_db.Base.{
  ◌≡◌, refl, sym, ◌∙◌, Bool, true, false, arith, ◌&&◌, ◌||◌, Bool-cases, inl, inr, ltb, leb, ◌==◌,
}
use medved_db.Hashmap.Interface.{Keys}
use medved_db.Uuid.{Uuid, u64, Sign, negative, null, positive, uuid_cmp}
use medved_db.Uuid.Keys.{
  is_null, same_uuid, same_uuid-u64, u64-same_uuid, uuid_hash-same, uuid_keys,
}
use medved_db.Topology.{Utopolink, at_most, then_cmp, uuids_sort, utopolink_cmp, utopolink_hash}

-- `mdv_utopolink_cmp(a, b) == 0`.
unfoldable pub same_link : Utopolink → Utopolink → Bool
same_link a b = is_null (utopolink_cmp a b)

is_null-then_cmp : (s t : Sign) → is_null (then_cmp s t) ≡ (is_null s && is_null t)
is_null-then_cmp negative t = refl
is_null-then_cmp null t = refl
is_null-then_cmp positive t = refl

pub same_link-sorted :
    (a b : Utopolink)
    → same_link a b
      ≡ (same_uuid (uuids_sort a).0 (uuids_sort b).0 && same_uuid (uuids_sort a).1 (uuids_sort b).1)
unfolding same_link same_uuid utopolink_cmp
same_link-sorted a b =
    is_null-then_cmp (uuid_cmp (uuids_sort a).0 (uuids_sort b).0)
      (uuid_cmp (uuids_sort a).1 (uuids_sort b).1)

-- The order of identifiers, and their equality, by their two numbers.
at_most-u64 :
    (a b : Uuid)
    → at_most (uuid_cmp a b)
      ≡ (ltb (u64 a 0) (u64 b 0) || (u64 a 0 == u64 b 0 && leb (u64 a 1) (u64 b 1)))
unfolding uuid_cmp
at_most-u64 a b = ground arith

other_way : (a b : Uuid) → at_most (uuid_cmp a b) ≡ false → at_most (uuid_cmp b a) ≡ true
other_way a b h = ground (arith, h, at_most-u64 a b, at_most-u64 b a)

-- Sorted pairs with the same members in the opposite order have one identifier only.
crossed :
    (a0 a1 b0 b1 : Uuid)
    → at_most (uuid_cmp a0 a1) ≡ true
    → at_most (uuid_cmp b0 b1) ≡ true
    → same_uuid a0 b1 ≡ true
    → same_uuid a1 b0 ≡ true
    → (same_uuid a0 b0 ≡ true) × (same_uuid a1 b1 ≡ true)
crossed a0 a1 b0 b1 sorted_a sorted_b first second =
    let (first_hi, first_lo) = same_uuid-u64 a0 b1 first in
    let (second_hi, second_lo) = same_uuid-u64 a1 b0 second in
    let le_a = at_most-u64 a0 a1 in
    let le_b = at_most-u64 b0 b1 in
    let hi : u64 a0 0 ≡ u64 b0 0 =
      ground (arith, le_a, le_b, sorted_a, sorted_b, first_hi, first_lo, second_hi, second_lo) in
    let lo : u64 a0 1 ≡ u64 b0 1 =
      ground (arith, le_a, le_b, sorted_a, sorted_b, first_hi, first_lo, second_hi, second_lo) in
    (
      u64-same_uuid a0 b0 hi lo,
      u64-same_uuid a1 b1 (second_hi ∙ sym hi ∙ first_hi) (second_lo ∙ sym lo ∙ first_lo),
    )

-- Two links are the same if they have the same ends, in either order.
pub same_link-undirected :
    (a b : Utopolink)
    → same_link a b
      ≡ ((same_uuid a.0 b.0 && same_uuid a.1 b.1) || (same_uuid a.0 b.1 && same_uuid a.1 b.0))
unfolding uuids_sort
same_link-undirected a b =
    let sorted = same_link-sorted a b in
    elim (Bool-cases (at_most (uuid_cmp a.0 a.1))) [
      | inl le_a ↦ elim (Bool-cases (at_most (uuid_cmp b.0 b.1))) [
        | inl le_b ↦ ground (arith, sorted, le_a, le_b, crossed a.0 a.1 b.0 b.1 le_a le_b)
        | inr gt_b ↦
            ground
              (arith, sorted, le_a, gt_b, crossed a.0 a.1 b.1 b.0 le_a (other_way b.0 b.1 gt_b))
      ]
      | inr gt_a ↦ elim (Bool-cases (at_most (uuid_cmp b.0 b.1))) [
        | inl le_b ↦
            ground
              (arith, sorted, gt_a, le_b, crossed a.1 a.0 b.0 b.1 (other_way a.0 a.1 gt_a) le_b)
        | inr gt_b ↦ ground (
          arith,
          sorted,
          gt_a,
          gt_b,
          crossed a.1 a.0 b.1 b.0 (other_way a.0 a.1 gt_a) (other_way b.0 b.1 gt_b),
        )
      ]
    ]

pub utopolink_hash-same :
    (a b : Utopolink) → same_link a b ≡ true → utopolink_hash a ≡ utopolink_hash b
unfolding utopolink_hash
utopolink_hash-same a b h =
    let both : (same_uuid (uuids_sort a).0 (uuids_sort b).0
          && same_uuid (uuids_sort a).1 (uuids_sort b).1)
        ≡ true =
      sym (same_link-sorted a b) ∙ h in
    let first : same_uuid (uuids_sort a).0 (uuids_sort b).0 ≡ true = ground (arith, both) in
    let second : same_uuid (uuids_sort a).1 (uuids_sort b).1 ≡ true = ground (arith, both) in
    rw
      (
        uuid_hash-same (uuids_sort a).0 (uuids_sort b).0 first,
        uuid_hash-same (uuids_sort a).1 (uuids_sort b).1 second,
      )
      refl

abbrev pub uuids : Keys Uuid Uuid
uuids = uuid_keys (λ u. u)

pub same_link_refl : (a : Utopolink) → same_link a a ≡ true
same_link_refl a =
    let first = uuids.same_refl a.0 in
    let second = uuids.same_refl a.1 in ground (arith, same_link-undirected a a, first, second)

pub same_link_symm : (a b : Utopolink) → same_link a b ≡ true → same_link b a ≡ true
same_link_symm a b h = ground (
  arith,
  h,
  same_link-sorted a b,
  same_link-sorted b a,
  uuids.same_symm (uuids_sort a).0 (uuids_sort b).0,
  uuids.same_symm (uuids_sort a).1 (uuids_sort b).1,
)

pub same_link_trans :
    (a b c : Utopolink) → same_link a b ≡ true → same_link b c ≡ true → same_link a c ≡ true
same_link_trans a b c h k = ground (
  arith,
  h,
  k,
  same_link-sorted a b,
  same_link-sorted b c,
  same_link-sorted a c,
  uuids.same_trans (uuids_sort a).0 (uuids_sort b).0 (uuids_sort c).0,
  uuids.same_trans (uuids_sort a).1 (uuids_sort b).1 (uuids_sort c).1,
)

-- What the map of the links asks of its keys.
abbrev pub link_keys : Keys Utopolink Utopolink
link_keys = record {
  key = λ l. l;
  hash = utopolink_hash;
  same = same_link;
  same_refl = same_link_refl;
  same_symm = same_link_symm;
  same_trans = same_link_trans;
  hash-same = utopolink_hash-same;
}
