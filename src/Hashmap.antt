-- ===== src/Hashmap.antt =====
-- The hash map of mdv_platform/generic/mdv_hashmap.c. An item is a value of `A` that holds its key
-- of `K`; the hash function and the comparison are the caller's, as in the source. A bucket is the
-- list of its entries from `next` on. Sizes are far below 2 ^ 64, so their arithmetic does not wrap.
pub mod Interface
pub mod Chain
pub mod Placed
pub mod Resize
pub mod Refines
pub mod Insert
pub mod Clear
use medved_db.Base.{
  ℕ, zero, suc, ◌+◌, ◌-◌, ◌*◌, ◌/◌, ◌%◌, List, [], ◌∷◌, ◌++◌, Bool, true, false, Option, none, some,
  ltb, ◌==◌, if◌then◌else◌, set, replicate,
}
use Interface.{Keys}
use Chain
use Chain.{nth}

pub record Hashmap {ℓ} (A : Type ℓ) : Type ℓ where
  pub capacity : ℕ
  pub size : ℕ
  pub key_offset : ℕ
  pub key_size : ℕ
  pub buckets : List (List A)

-- Whether the allocations of a call succeed: that of a new table, and that of a list entry.
pub record Allocs : Type 0 where
  pub table : Bool
  pub entry : Bool

-- A call returns, or it divides by zero.
pub data Run {ℓ} (A : Type ℓ) : Type ℓ where
  returns : A → Run A
  faults : Run A

-- The Boolean is whether both allocations succeed, that of the map and that of its table; where
-- either fails there is no map.
unfoldable pub create {ℓ} : {A : Type ℓ} → Bool → ℕ → ℕ → ℕ → Option (Hashmap A)
create allocated capacity key_offset key_size =
    if allocated
    then some (record {
      capacity = capacity * (5 / 4);
      size = 0;
      key_offset = key_offset;
      key_size = key_size;
      buckets = replicate (capacity * (5 / 4)) [];
    })
    else none

-- `mdv_list_clear` of every bucket. The size is not written.
empty_all {ℓ} : {A : Type ℓ} → List (List A) → List (List A)
empty_all [] = []
empty_all (b ∷ bs) = [] ∷ empty_all bs

unfoldable pub clear {ℓ} : {A : Type ℓ} → Hashmap A → Hashmap A
unfolding empty_all
clear hm = if hm.size == 0 then hm else record hm { buckets = empty_all hm.buckets }

module _ {ℓ} {A K : Type ℓ} (ks : Keys A K) where
  open ks use {hash, key}

  -- `mdv_list_emplace_back(hm->buckets + bucket_idx, entry)`
  unfoldable pub add_entry : ℕ → A → List (List A) → List (List A)
  add_entry capacity x bs = let i = hash (key x) % capacity in set bs i (nth bs i ++ x ∷ [])

  -- The entries of one bucket go to the new table, first to last.
  unfoldable pub move_bucket : ℕ → List A → List (List A) → List (List A)
  unfolding add_entry
  move_bucket capacity [] fresh = fresh
  move_bucket capacity (x ∷ xs) fresh = move_bucket capacity xs (add_entry capacity x fresh)

  unfoldable pub move_buckets : ℕ → List (List A) → List (List A) → List (List A)
  unfolding move_bucket
  move_buckets capacity [] fresh = fresh
  move_buckets capacity (b ∷ bs) fresh = move_buckets capacity bs (move_bucket capacity b fresh)

  unfoldable pub resize : Bool → Hashmap A → ℕ → Bool × Hashmap A
  unfolding move_buckets
  resize allocated hm capacity =
      if ltb hm.size capacity
      then (if allocated
          then (
            true,
            record hm {
              buckets = move_buckets capacity hm.buckets (replicate capacity []);
              capacity = capacity;
            },
          )
          else (false, hm))
      else (false, hm)

  -- Where the key's bucket is, with the bucket.
  abbrev pub home : Hashmap A → K → ℕ
  home hm k = hash k % hm.capacity

  -- The loop over the key's bucket that removes the entry of the key, in `insert` and in `erase`.
  unfoldable pub unlink : Hashmap A → K → Bool × Hashmap A
  unlink hm k =
      let i = home hm k in
      elim (Chain.find ks k (nth hm.buckets i)) [
        | none ↦ (false, hm)
        | some old ↦ (
          true,
          record hm {
            buckets = set hm.buckets i (Chain.remove ks k (nth hm.buckets i));
            size = hm.size - 1;
          },
        )
      ]

  -- The new entry is appended to its bucket; `true` is the pointer to the stored item.
  unfoldable pub push_new : Bool → Hashmap A → A → Bool × Hashmap A
  unfolding add_entry
  push_new allocated hm x =
      if allocated
      then (true, record hm { buckets = add_entry hm.capacity x hm.buckets; size = hm.size + 1 })
      else (false, hm)

  -- Grown, if it is more than three quarters full.
  unfoldable pub make_room : Bool → Hashmap A → Bool × Hashmap A
  unfolding resize
  make_room allocated hm =
      if ltb (hm.capacity * 3 / 4) hm.size
      then resize allocated hm (hm.capacity * 2)
      else (true, hm)

  abbrev pub insert_into : Allocs → A → Bool × Hashmap A → Run (Bool × Hashmap A)
  insert_into allocs x (false, hm) = returns (false, hm)
  insert_into allocs x (true, hm) =
      if hm.capacity == 0 then faults else returns (push_new allocs.entry (unlink hm (key x)).1 x)

  unfoldable pub insert : Allocs → Hashmap A → A → ℕ → Run (Bool × Hashmap A)
  insert allocs hm x item_size =
      if ltb item_size (hm.key_offset + hm.key_size)
      then returns (false, hm)
      else insert_into allocs x (make_room allocs.table hm)

  unfoldable pub find : Hashmap A → K → Option A
  find hm k = if hm.capacity == 0 then none else Chain.find ks k (nth hm.buckets (home hm k))

  unfoldable pub erase : Hashmap A → K → Bool × Hashmap A
  erase hm k = if hm.capacity == 0 then (false, hm) else unlink hm k
