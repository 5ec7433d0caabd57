-- ===== src/Hashmap/Interface.antt =====
-- What a hash map asks of the functions that its user gives to `mdv_hashmap_create`.
use medved_db.Base.{ℕ, Bool, true, ◌≡◌}

-- `same a b` is `key_cmp_fn(a, b) == 0`; `key` is the part of an item at `key_offset`.
pub record Keys {ℓ} (A K : Type ℓ) : Type ℓ where
  pub key : A → K
  pub hash : K → ℕ
  pub same : K → K → Bool
  pub same_refl : (a : K) → same a a ≡ true
  pub same_symm : (a b : K) → same a b ≡ true → same b a ≡ true
  pub same_trans : (a b c : K) → same a b ≡ true → same b c ≡ true → same a c ≡ true
  pub hash-same : (a b : K) → same a b ≡ true → hash a ≡ hash b
