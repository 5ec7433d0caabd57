-- ===== src/Lru.antt =====
-- The cache of mdv_platform/mdv_lrucache.c: a hash map from keys to the entries of a linked list,
-- which stand in the order of their last use, the least recently used first. An entry has an
-- identity, the address that `mdv_alloc` gave it, by which the hash map refers to it.
pub mod Entries
pub mod Invariant
pub mod Put
pub mod Get
use medved_db.Base.{
  ℕ, zero, suc, ◌+◌, ◌%◌, List, [], ◌∷◌, ◌++◌, Bool, true, false, Option, none, some, ltb, ◌==◌,
  if◌then◌else◌, refl,
}
use medved_db.Hashmap.Interface.{Keys}
use medved_db.Hashmap.{Hashmap, Allocs, Run, returns, faults}
use medved_db.Hashmap
use Entries.{Item, Entry, take_out, store}
use Entries

-- `mdv_lrumap_entry`: a key and the identity of its list entry.
pub record Ref : Type 0 where
  pub key : ℕ
  pub entry : ℕ

pub record Cache : Type 0 where
  pub capacity : ℕ
  pub keys : Hashmap Ref
  pub values : List Entry

-- `mdv_lrukey_hash` and `mdv_lrukey_cmp`.
abbrev pub lru_keys : Keys Ref ℕ
lru_keys = record {
  key = λ r. r.key;
  hash = λ k. k;
  same = λ a b. a == b;
  same_refl = Entries.key_refl;
  same_symm = Entries.key_symm;
  same_trans = Entries.key_trans;
  hash-same = Entries.key_hash;
}

-- `sizeof(mdv_lrumap_entry)`, a key and a pointer; the key is at its start.
abbrev pub ref_size : ℕ
ref_size = 16

unfoldable pub create : Bool → Bool → ℕ → Option Cache
create allocated table capacity =
    if allocated
    then elim (Hashmap.create {A = Ref} table capacity 0 8) [
      | none ↦ none
      | some keys ↦ some (record { capacity = capacity; keys = keys; values = [] })
    ]
    else none

abbrev pub null_item : Item
null_item = record { key = 0; value = 0 }

-- `mdv_list_exclude` and then `mdv_list_emplace_back` of one entry.
unfoldable pub to_back : ℕ → List Entry → List Entry
to_back id values = elim (Entries.at_id id values) [
  | none ↦ values
  | some e ↦ take_out id values ++ e ∷ []
]

-- The branch of `put` for a key that is there: the entry goes to the back and gets the data. The
-- item that is handed out is the old one, if the values differ.
abbrev pub put_known : Cache → Item → Option Entry → Ref → Run (Bool × Item × Cache)
put_known c new none ref = faults
put_known c new (some e) ref = returns (
  true,
  (if e.value == new.value then null_item else record { key = new.key; value = e.value }),
  record c { values = store ref.entry e.key new.value (to_back ref.entry c.values) },
)

-- The branch for a cache with room: a new entry at the back. `fresh` is the address of the entry
-- that `mdv_alloc` returns, if it returns one.
abbrev pub put_new_into : Cache → Item → ℕ → Run (Bool × Hashmap Ref) → Run (Bool × Item × Cache)
put_new_into c new id faults = faults
put_new_into c new id (returns (false, keys)) = returns (false, null_item, record c { keys = keys })
put_new_into c new id (returns (true, keys)) = returns (
  true,
  null_item,
  record c {
    keys = keys;
    values = c.values ++ record { id = id; key = new.key; value = new.value } ∷ [];
  },
)

abbrev pub put_new : Allocs → Option ℕ → Cache → Item → Run (Bool × Item × Cache)
put_new allocs none c new = returns (false, null_item, c)
put_new allocs (some id) c new =
    put_new_into c new id
      (Hashmap.insert lru_keys allocs c.keys (record { key = new.key; entry = id }) ref_size)

-- The branch for a full cache: the first entry is used again for the new item, and goes to the
-- back; the item that it had is handed out, and its key is erased. The source stores the entry's
-- address in the new reference only after the insertion; nothing reads it in between.
abbrev pub evict_into : Cache → Item → Entry → Run (Bool × Hashmap Ref) → Run (Bool × Item × Cache)
evict_into c new first faults = faults
evict_into c new first (returns (false, keys)) =
    returns (false, null_item, record c { keys = keys })
evict_into c new first (returns (true, keys)) = returns (
  true,
  record { key = first.key; value = first.value },
  record c {
    keys = (Hashmap.erase lru_keys keys first.key).1;
    values = to_back first.id (store first.id new.key new.value c.values);
  },
)

-- An empty list has no first entry: its null pointer is read.
abbrev pub evict : Allocs → Cache → Item → List Entry → Run (Bool × Item × Cache)
evict allocs c new [] =
    elim (Hashmap.insert lru_keys allocs c.keys (record { key = new.key; entry = 0 }) ref_size) [
      | faults ↦ faults
      | returns (stored, keys) ↦
          if stored then faults else returns (false, null_item, record c { keys = keys })
    ]
evict allocs c new (first ∷ rest) =
    evict_into c new first
      (Hashmap.insert lru_keys allocs c.keys (record { key = new.key; entry = first.id }) ref_size)

abbrev pub put_at : Allocs → Option ℕ → Cache → Item → Option Ref → Run (Bool × Item × Cache)
put_at allocs fresh c new (some ref) = put_known c new (Entries.at_id ref.entry c.values) ref
put_at allocs fresh c new none =
    if ltb c.keys.size c.capacity then put_new allocs fresh c new else evict allocs c new c.values

unfoldable pub put : Allocs → Option ℕ → Cache → Item → Run (Bool × Item × Cache)
put allocs fresh c new = put_at allocs fresh c new (Hashmap.find lru_keys c.keys new.key)

abbrev pub get_known : Cache → ℕ → Option Entry → Run (Option ℕ × Cache)
get_known c id none = faults
get_known c id (some e) = returns (some (e.value), record c { values = to_back id c.values })

-- The value, and a null pointer (`none`) for a key that is not there.
unfoldable pub get : Cache → ℕ → Run (Option ℕ × Cache)
get c k = elim (Hashmap.find lru_keys c.keys k) [
  | none ↦ returns (none, c)
  | some ref ↦ get_known c ref.entry (Entries.at_id ref.entry c.values)
]
