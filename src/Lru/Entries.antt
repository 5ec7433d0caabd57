-- ===== src/Lru/Entries.antt =====
-- The entries of the list of mdv_lrucache.c, found by identity or by key.
use medved_db.Base.{
  ℕ, ◌+◌, ◌≡◌, refl, List, [], ◌∷◌, ◌++◌, true, Option, none, some, arith, ◌==◌, if◌then◌else◌,
  length,
}

-- `mdv_lruitem`.
pub record Item : Type 0 where
  pub key : ℕ
  pub value : ℕ

pub record Entry : Type 0 where
  pub id : ℕ
  pub key : ℕ
  pub value : ℕ

pub key_refl : (a : ℕ) → (a == a) ≡ true
key_refl a = ground arith

pub key_symm : (a b : ℕ) → (a == b) ≡ true → (b == a) ≡ true
key_symm a b h = ground arith

pub key_trans : (a b c : ℕ) → (a == b) ≡ true → (b == c) ≡ true → (a == c) ≡ true
key_trans a b c h k = ground arith

pub key_hash : (a b : ℕ) → (a == b) ≡ true → a ≡ b
key_hash a b h = ground arith

unfoldable pub at_id : ℕ → List Entry → Option Entry
at_id i [] = none
at_id i (e ∷ es) = if e.id == i then some e else at_id i es

-- `mdv_list_exclude`.
unfoldable pub take_out : ℕ → List Entry → List Entry
take_out i [] = []
take_out i (e ∷ es) = if e.id == i then es else e ∷ take_out i es

-- New contents of one entry.
unfoldable pub store : ℕ → ℕ → ℕ → List Entry → List Entry
store i k d [] = []
store i k d (e ∷ es) =
    if e.id == i then record e { key = k; value = d } ∷ es else e ∷ store i k d es

-- The entry of a key, as the hash map is to find it.
unfoldable pub by_key : ℕ → List Entry → Option Entry
by_key k [] = none
by_key k (e ∷ es) = if k == e.key then some e else by_key k es

-- No two entries have one identity or one key.
abbrev pub Distinct : List Entry → Type 0
Distinct [] = Unit
Distinct (e ∷ es) = (at_id (e.id) es ≡ none) × (by_key (e.key) es ≡ none) × Distinct es

-- A key that is there leads to its entry by the identity.
pub at_id-by_key :
    (k : ℕ) (es : List Entry) (e : Entry)
    → Distinct es
    → by_key k es ≡ some e
    → (at_id (e.id) es ≡ some e) × (e.key ≡ k)
unfolding at_id by_key
at_id-by_key k [] e d h = absurd (cc)
at_id-by_key k (x ∷ es) e d h = ground (arith, at_id-by_key k es e d.2)

pub at_id-take_out :
    (i j : ℕ) (es : List Entry) → at_id j es ≡ none → at_id j (take_out i es) ≡ none
unfolding at_id take_out
at_id-take_out i j [] h = refl
at_id-take_out i j (x ∷ es) h = ground (arith, at_id-take_out i j es)

pub by_key-take_out-none :
    (i k : ℕ) (es : List Entry) → by_key k es ≡ none → by_key k (take_out i es) ≡ none
unfolding by_key take_out
by_key-take_out-none i k [] h = refl
by_key-take_out-none i k (x ∷ es) h = ground (arith, by_key-take_out-none i k es)

pub take_out-Distinct : (i : ℕ) (es : List Entry) → Distinct es → Distinct (take_out i es)
unfolding take_out
take_out-Distinct i [] d = tt
take_out-Distinct i (x ∷ es) d = ground (
  arith,
  take_out-Distinct i es d.2,
  at_id-take_out i (x.id) es,
  by_key-take_out-none i (x.key) es,
)

-- The identity is gone once it is taken out.
pub at_id-take_out_self : (i : ℕ) (es : List Entry) → Distinct es → at_id i (take_out i es) ≡ none
unfolding at_id take_out
at_id-take_out_self i [] d = refl
at_id-take_out_self i (x ∷ es) d = ground (arith, at_id-take_out_self i es d.2)

pub by_key-take_out :
    (q k : ℕ) (es : List Entry) (e : Entry)
    → Distinct es
    → by_key k es ≡ some e
    → by_key q (take_out (e.id) es) ≡ (if q == k then none else by_key q es)
unfolding by_key take_out
by_key-take_out q k [] e d h = absurd (cc)
by_key-take_out q k (x ∷ es) e d h =
    ground (arith, by_key-take_out q k es e d.2, at_id-by_key k es e d.2)

pub at_id-push :
    (i : ℕ) (es : List Entry) (e : Entry)
    → at_id i es ≡ none
    → at_id i (es ++ e ∷ []) ≡ (if e.id == i then some e else none)
unfolding at_id
at_id-push i [] e h = refl
at_id-push i (x ∷ es) e h = ground (arith, at_id-push i es e)

pub by_key-push :
    (q : ℕ) (es : List Entry) (e : Entry)
    → by_key (e.key) es ≡ none
    → by_key q (es ++ e ∷ []) ≡ (if q == e.key then some e else by_key q es)
unfolding by_key
by_key-push q [] e h = refl
by_key-push q (x ∷ es) e h = ground (arith, by_key-push q es e)

pub push-Distinct :
    (es : List Entry) (e : Entry)
    → Distinct es
    → at_id (e.id) es ≡ none
    → by_key (e.key) es ≡ none
    → Distinct (es ++ e ∷ [])
unfolding at_id by_key
push-Distinct [] e d h k = ground arith
push-Distinct (x ∷ es) e d h k = (
  ground (arith, at_id-push (x.id) es e, d.0),
  ground (arith, by_key-push (x.key) es e, d.1),
  push-Distinct es e d.2 (ground arith) (ground arith),
)

pub store-push :
    (es : List Entry) (e : Entry) (k v : ℕ)
    → at_id (e.id) es ≡ none
    → store (e.id) k v (es ++ e ∷ []) ≡ es ++ record e { key = k; value = v } ∷ []
unfolding at_id store
store-push [] e k v h = ground arith
store-push (x ∷ es) e k v h = ground (arith, store-push es e k v)

pub length-take_out :
    (es : List Entry) (i : ℕ) (e : Entry)
    → at_id i es ≡ some e
    → length (take_out i es) + 1 ≡ length es
unfolding at_id take_out
length-take_out [] i e h = absurd (cc)
length-take_out (x ∷ es) i e h = ground (arith, length-take_out es i e)
