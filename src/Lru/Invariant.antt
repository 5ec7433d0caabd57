-- ===== src/Lru/Invariant.antt =====
-- What the cache of mdv_lrucache.c promises: a bounded list of items in the order of their last use,
-- and the invariant that ties the hash map and the list to it.
use medved_db.Base.{
  ℕ, suc, ◌+◌, ◌≤◌, ◌<◌, ◌≡◌, refl, ap, ◌∙◌, List, [], ◌∷◌, ◌++◌, true, Option, none, some, arith,
  ltb, ◌==◌, if◌then◌else◌, length, length-append,
}
use mathlib.Core.Path.{subst}
use mathlib.Core.Option.{some-injective}
use medved_db.Hashmap.{Hashmap}
use medved_db.Hashmap
use medved_db.Hashmap.Refines.{Models, create-Models}
use medved_db.Lru.{Cache, Ref, lru_keys, null_item, create, ref_size}
use medved_db.Lru.Entries.{
  Item, Entry, by_key, take_out, Distinct, at_id-by_key, by_key-take_out, push-Distinct,
  take_out-Distinct, at_id-take_out_self, by_key-push, length-take_out,
}

-- The items of the list, the least recently used first.
unfoldable pub items : List Entry → List Item
items [] = []
items (e ∷ es) = record { key = e.key; value = e.value } ∷ items es

unfoldable pub lookup : ℕ → List Item → Option ℕ
lookup k [] = none
lookup k (x ∷ xs) = if k == x.key then some (x.value) else lookup k xs

unfoldable pub delete : ℕ → List Item → List Item
delete k [] = []
delete k (x ∷ xs) = if k == x.key then xs else x ∷ delete k xs

-- The full cache gives up the item that was used the longest time ago.
abbrev pub replace_oldest : List Item → Item → Item × List Item
replace_oldest [] new = (null_item, [])
replace_oldest (x ∷ xs) new = (x, xs ++ new ∷ [])

abbrev pub spec_put_at : ℕ → Item → List Item → Option ℕ → Item × List Item
spec_put_at capacity new xs (some v) = (
  (if v == new.value then null_item else record { key = new.key; value = v }),
  delete (new.key) xs ++ new ∷ [],
)
spec_put_at capacity new xs none =
    if ltb (length xs) capacity then (null_item, xs ++ new ∷ []) else replace_oldest xs new

-- A put of the specification: the item that is handed out, and the items after it.
unfoldable pub spec_put : ℕ → Item → List Item → Item × List Item
spec_put capacity new xs = spec_put_at capacity new xs (lookup (new.key) xs)

abbrev pub spec_get_at : ℕ → List Item → Option ℕ → Option ℕ × List Item
spec_get_at k xs none = (none, xs)
spec_get_at k xs (some v) = (some v, delete k xs ++ record { key = k; value = v } ∷ [])

-- A get of the specification makes its item the most recently used one.
unfoldable pub spec_get : ℕ → List Item → Option ℕ × List Item
spec_get k xs = spec_get_at k xs (lookup k xs)

abbrev pub ref_of : Option Entry → Option Ref
ref_of none = none
ref_of (some e) = some (record { key = e.key; entry = e.id })

-- What the hash map is to answer.
abbrev pub refs : List Entry → ℕ → Option Ref
refs es q = ref_of (by_key q es)

pub record Inv (c : Cache) : Type 0 where
  pub models : Models lru_keys (refs c.values) c.keys
  pub counted : c.keys.size ≡ length c.values
  pub within : length c.values ≤ c.capacity
  pub distinct : Distinct c.values
  pub layout : c.keys.key_offset + c.keys.key_size ≤ ref_size
  pub buckets : 0 < c.keys.capacity

pub create-Inv :
    (capacity : ℕ) (c : Cache)
    → 0 < capacity
    → create true true capacity ≡ some c
    → Inv c × (items c.values ≡ []) × (c.capacity ≡ capacity)
unfolding create Hashmap.create by_key items
create-Inv capacity c pos e =
    let (m, size) = create-Models lru_keys capacity 0 8 _ refl in
    subst (λ x. Inv x × (items x.values ≡ []) × (x.capacity ≡ capacity)) (some-injective _ _ e)
      (
        record {
          models = m;
          counted = size;
          within = omega arith;
          distinct = tt;
          layout = omega arith;
          buckets = ground arith;
        },
        refl,
        refl,
      )

pub Models-ext :
    (f g : ℕ → Option Ref) (hm : Hashmap Ref)
    → ((q : ℕ) → f q ≡ g q)
    → Models lru_keys f hm
    → Models lru_keys g hm
Models-ext f g hm same m = record {
  table = record {
    width = m.table.width;
    stored = m.table.stored;
    once = m.table.once;
    at_home = m.table.at_home;
    reads = λ q. m.table.reads q ∙ same q;
  };
  fits = m.fits;
}

pub lookup-items :
    (k : ℕ) (es : List Entry) (e : Entry)
    → by_key k es ≡ some e
    → lookup k (items es) ≡ some (e.value)
unfolding by_key lookup items
lookup-items k [] e h = absurd (cc)
lookup-items k (x ∷ es) e h = ground (arith, lookup-items k es e)

pub lookup-items_none : (k : ℕ) (es : List Entry) → by_key k es ≡ none → lookup k (items es) ≡ none
unfolding by_key lookup items
lookup-items_none k [] h = refl
lookup-items_none k (x ∷ es) h = ground (arith, lookup-items_none k es)

pub items-push :
    (es : List Entry) (e : Entry)
    → items (es ++ e ∷ []) ≡ items es ++ record { key = e.key; value = e.value } ∷ []
unfolding items
items-push [] e = refl
items-push (x ∷ es) e =
    let first : Item = record { key = x.key; value = x.value } in
    ap (λ xs. first ∷ xs) (items-push es e)

-- To take an entry out by its identity is to delete its item by the key.
pub items-take_out :
    (k : ℕ) (es : List Entry) (e : Entry)
    → Distinct es
    → by_key k es ≡ some e
    → items (take_out (e.id) es) ≡ delete k (items es)
unfolding by_key take_out delete items
items-take_out k [] e d h = absurd (cc)
items-take_out k (x ∷ es) e d h = ground (arith, items-take_out k es e d.2, at_id-by_key k es e d.2)

pub length-items : (es : List Entry) → length (items es) ≡ length es
unfolding items
length-items [] = refl
length-items (x ∷ es) = ap suc (length-items es)

-- A move of an entry to the back, with new data.
pub record Moved (k v id : ℕ) (es moved : List Entry) : Type 0 where
  pub distinct : Distinct moved
  pub reads : (q : ℕ) → refs es q ≡ refs moved q
  pub long : length moved ≡ length es
  pub shows : items moved ≡ delete k (items es) ++ record { key = k; value = v } ∷ []

pub move-Moved :
    (k v : ℕ) (es : List Entry) (e : Entry)
    → Distinct es
    → by_key k es ≡ some e
    → Moved k v (e.id) es (take_out (e.id) es ++ record { id = e.id; key = k; value = v } ∷ [])
move-Moved k v es e d h =
    let moved : Entry = record { id = e.id; key = k; value = v } in
    let (by_id, is_k) = at_id-by_key k es e d h in
    let gone = by_key-take_out k k es e d h in
    let absent : by_key k (take_out (e.id) es) ≡ none = ground arith in
    record {
      distinct =
          push-Distinct (take_out (e.id) es) moved (take_out-Distinct (e.id) es d)
            (at_id-take_out_self (e.id) es d) absent;
      reads = λ q.
          ground
            (arith, by_key-push q (take_out (e.id) es) moved absent, by_key-take_out q k es e d h);
      long = omega (
        arith,
        length-append (take_out (e.id) es) (moved ∷ []),
        length-take_out es (e.id) e by_id,
      );
      shows =
          items-push (take_out (e.id) es) moved
          ∙ ap (λ xs. xs ++ record { key = k; value = v } ∷ []) (items-take_out k es e d h);
    }
