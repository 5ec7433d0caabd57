-- ===== src/Lmdb/Engine.antt =====
-- What the modelled code asks of LMDB: an environment of named maps, seen by one transaction. A map
-- is named by a number, a value is its bytes.
use medved_db.Base.{
  ℕ, ◌<◌, ◌≡◌, List, [], ◌∷◌, Bool, true, false, Option, none, some, ◌&&◌, ◌==◌, leb, if◌then◌else◌,
  All,
}

abbrev pub Bytes : Type 0
Bytes = List ℕ

-- Stored keys with their values, the least key first and no key twice.
abbrev pub Sorted : List (ℕ × Bytes) → Type 0
Sorted [] = Unit
Sorted ((k, v) ∷ es) = All (λ e. k < e.0) es × Sorted es

unfoldable pub value_of : ℕ → List (ℕ × Bytes) → Option Bytes
value_of q [] = none
value_of q ((k, v) ∷ es) = if q == k then some v else value_of q es

-- The entries from a key on.
unfoldable pub at_least : ℕ → List (ℕ × Bytes) → List (ℕ × Bytes)
at_least k [] = []
at_least k (e ∷ es) = if leb k e.0 then e ∷ es else at_least k es

-- `mdb_get`, `mdb_put`, `mdb_put` with `MDB_NOOVERWRITE` (`none` is `MDB_KEYEXIST`).
pub record Engine (E K : Type 0) (same : K → K → Bool) : Type 0 where
  pub get : E → ℕ → K → Option Bytes
  pub put : E → ℕ → K → Bytes → E
  pub put_new : E → ℕ → K → Bytes → Option E
  pub get-put :
      (e : E) (m : ℕ) (k : K) (v : Bytes) (n : ℕ) (q : K)
      → get (put e m k v) n q ≡ (if (n == m) && same q k then some v else get e n q)
  pub get-same : (e : E) (m : ℕ) (q k : K) → same q k ≡ true → get e m q ≡ get e m k
  pub put_new_free :
      (e : E) (m : ℕ) (k : K) (v : Bytes) → get e m k ≡ none → put_new e m k v ≡ some (put e m k v)
  pub put_new_taken :
      (e : E) (m : ℕ) (k : K) (v w : Bytes) → get e m k ≡ some w → put_new e m k v ≡ none

unfoldable pub last_of : List (ℕ × Bytes) → Option (ℕ × Bytes)
last_of [] = none
last_of (e ∷ []) = some e
last_of (e ∷ f ∷ es) = last_of (f ∷ es)

-- A cursor over a map with integer keys: `MDB_SET_RANGE` and then `MDB_NEXT` up to the end,
-- and `MDB_LAST`.
pub record Cursors {E : Type 0} (db : Engine E ℕ ◌==◌) : Type 0 where
  pub entries : E → ℕ → List (ℕ × Bytes)
  pub range : E → ℕ → ℕ → List (ℕ × Bytes)
  pub last : E → ℕ → Option (ℕ × Bytes)
  pub sorted : (e : E) (m : ℕ) → Sorted (entries e m)
  pub get-entries : (e : E) (m q : ℕ) → db.get e m q ≡ value_of q (entries e m)
  pub range-entries : (e : E) (m k : ℕ) → range e m k ≡ at_least k (entries e m)
  pub last-entries : (e : E) (m : ℕ) → last e m ≡ last_of (entries e m)
  pub entries-put :
      (e : E) (m k : ℕ) (v : Bytes) (n : ℕ)
      → (n == m) ≡ false
      → entries (db.put e m k v) n ≡ entries e n
