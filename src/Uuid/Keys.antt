-- ===== src/Uuid/Keys.antt =====
-- The identifiers of mdv_uuid.c as the keys of a hash map (Hashmap.Interface).
use medved_db.Base.{◌≡◌, refl, sym, ◌∙◌, Bool, true, false, arith}
use medved_db.Hashmap.Interface.{Keys}
use medved_db.Uuid.{Uuid, u64, Sign, negative, null, positive, uuid_cmp, uuid_hash}

abbrev pub is_null : Sign → Bool
is_null negative = false
is_null null = true
is_null positive = false

-- `mdv_uuid_cmp(a, b) == 0`.
unfoldable pub same_uuid : Uuid → Uuid → Bool
same_uuid a b = is_null (uuid_cmp a b)

-- Both numbers are the same.
pub same_uuid-u64 : (a b : Uuid) → same_uuid a b ≡ true → (u64 a 0 ≡ u64 b 0) × (u64 a 1 ≡ u64 b 1)
unfolding same_uuid uuid_cmp
same_uuid-u64 a b h = ground (arith, h)

pub u64-same_uuid : (a b : Uuid) → u64 a 0 ≡ u64 b 0 → u64 a 1 ≡ u64 b 1 → same_uuid a b ≡ true
unfolding same_uuid uuid_cmp
u64-same_uuid a b h k = ground (arith, h, k)

pub uuid_hash-same : (a b : Uuid) → same_uuid a b ≡ true → uuid_hash a ≡ uuid_hash b
unfolding uuid_hash
uuid_hash-same a b h = let (first, second) = same_uuid-u64 a b h in rw (first, second) refl

-- What a map of items with an identifier asks of its keys.
abbrev pub uuid_keys : {A : Type 0} → (A → Uuid) → Keys A Uuid
uuid_keys key = record {
  key = key;
  hash = uuid_hash;
  same = same_uuid;
  same_refl = λ a. u64-same_uuid a a refl refl;
  same_symm = λ a b h.
      let (first, second) = same_uuid-u64 a b h in u64-same_uuid b a (sym first) (sym second);
  same_trans = λ a b c h k.
      let (first, second) = same_uuid-u64 a b h in
      let (first₁, second₁) = same_uuid-u64 b c k in
      u64-same_uuid a c (first ∙ first₁) (second ∙ second₁);
  hash-same = uuid_hash-same;
}
