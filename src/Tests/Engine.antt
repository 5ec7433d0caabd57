-- ===== src/Tests/Engine.antt =====
-- An engine for the tests: the list of what was put, the last one first.
use medved_db.Base.{
  ℕ, ◌<◌, ◌≡◌, refl, ap, sym, List, [], ◌∷◌, Bool, true, false, Option, none, some, arith, ◌==◌,
  ◌&&◌, ltb, if◌then◌else◌, Bool-cases, All, inl, inr,
}
use medved_db.Lmdb.Engine.{
  Engine as LmdbEngine, Cursors, Bytes, Sorted, value_of, at_least, last_of,
}

abbrev pub Store : Type 0
Store = List (ℕ × ℕ × Bytes)

unfoldable pub insert_entry : ℕ → Bytes → List (ℕ × Bytes) → List (ℕ × Bytes)
insert_entry k v [] = (k, v) ∷ []
insert_entry k v ((j, u) ∷ es) =
    let rest = insert_entry k v es in
    if ltb k j then (k, v) ∷ (j, u) ∷ es else if k == j then (k, v) ∷ es else (j, u) ∷ rest

unfoldable pub entries_of : Store → ℕ → List (ℕ × Bytes)
entries_of [] n = []
entries_of ((m, k, v) ∷ e) n =
    let rest = entries_of e n in if n == m then insert_entry k v rest else rest

value_of-insert_entry :
    (q k : ℕ) (v : Bytes) (es : List (ℕ × Bytes))
    → value_of q (insert_entry k v es) ≡ (if q == k then some v else value_of q es)
unfolding insert_entry value_of
value_of-insert_entry q k v [] = refl
value_of-insert_entry q k v ((j, u) ∷ es) = ground (arith, value_of-insert_entry q k v es)

All-insert_entry :
    (b k : ℕ) (v : Bytes) (es : List (ℕ × Bytes))
    → b < k
    → All (λ e. b < e.0) es
    → All (λ e. b < e.0) (insert_entry k v es)
unfolding insert_entry
All-insert_entry b k v [] h hs = (h, tt)
All-insert_entry b k v ((j, u) ∷ es) h (h₁, hs) =
    go (ltb k j) (k == j) (All-insert_entry b k v es h hs)
  where
    go :
        (less same : Bool)
        → All (λ e. b < e.0) (insert_entry k v es)
        → All
            (λ e. b < e.0)
            (if less
              then (k, v) ∷ (j, u) ∷ es
              else if same
              then (k, v) ∷ es
              else (j, u) ∷ insert_entry k v es)
    go true same rest = (h, (h₁, hs))
    go false true rest = (h, hs)
    go false false rest = (h₁, rest)

All-below :
    (a b : ℕ) (es : List (ℕ × Bytes)) → a < b → All (λ e. b < e.0) es → All (λ e. a < e.0) es
All-below a b [] h hs = tt
All-below a b (e ∷ es) h (h₁, hs) = (omega (arith, h, h₁), All-below a b es h hs)

Sorted-insert_entry :
    (k : ℕ) (v : Bytes) (es : List (ℕ × Bytes)) → Sorted es → Sorted (insert_entry k v es)
unfolding insert_entry
Sorted-insert_entry k v [] s = (tt, tt)
Sorted-insert_entry k v ((j, u) ∷ es) (above, s) =
    go (ltb k j) (k == j) refl refl (Sorted-insert_entry k v es s)
  where
    go :
        (less same : Bool)
        → ltb k j ≡ less
        → (k == j) ≡ same
        → Sorted (insert_entry k v es)
        → Sorted (
            if less
            then (k, v) ∷ (j, u) ∷ es
            else if same
            then (k, v) ∷ es
            else (j, u) ∷ insert_entry k v es)
    go true same lt eq rest =
        let h : k < j = ground (arith, lt) in ((h, All-below k j es h above), (above, s))
    go false true lt eq rest = let h : j ≡ k = ground (arith, eq) in (rw (sym h) above, s)
    go false false lt eq rest =
        let h : j < k = ground (arith, lt, eq) in (All-insert_entry j k v es h above, rest)

pub Sorted-entries : (e : Store) (n : ℕ) → Sorted (entries_of e n)
unfolding entries_of
Sorted-entries [] n = tt
Sorted-entries ((m, k, v) ∷ e) n = elim (Bool-cases (n == m)) [
  | inl same ↦ rw same (Sorted-insert_entry k v (entries_of e n) (Sorted-entries e n))
  | inr other ↦ rw other (Sorted-entries e n)
]

abbrev pub get_of : Store → ℕ → ℕ → Option Bytes
get_of e m q = value_of q (entries_of e m)

abbrev pub put_of : Store → ℕ → ℕ → Bytes → Store
put_of e m k v = (m, k, v) ∷ e

pub get-put_of :
    (e : Store) (m k : ℕ) (v : Bytes) (n q : ℕ)
    → get_of (put_of e m k v) n q ≡ (if (n == m) && (q == k) then some v else get_of e n q)
unfolding entries_of
get-put_of e m k v n q = elim (Bool-cases (n == m)) [
  | inl same ↦ rw same (value_of-insert_entry q k v (entries_of e n))
  | inr other ↦ rw other refl
]

abbrev pub put_new_of : Store → ℕ → ℕ → Bytes → Option Store
put_new_of e m k v = elim (get_of e m k) [ none ↦ some (put_of e m k v) | some w ↦ none ]

pub same_key : (e : Store) (m q k : ℕ) → (q == k) ≡ true → get_of e m q ≡ get_of e m k
same_key e m q k h = ap (get_of e m) (ground (arith, h))

pub free_key :
    (e : Store) (m k : ℕ) (v : Bytes)
    → get_of e m k ≡ none
    → put_new_of e m k v ≡ some (put_of e m k v)
free_key e m k v h = rw (h, put_new_of) refl

pub taken_key :
    (e : Store) (m k : ℕ) (v w : Bytes) → get_of e m k ≡ some w → put_new_of e m k v ≡ none
taken_key e m k v w h = rw (h, put_new_of) refl

abbrev pub engine : LmdbEngine Store ℕ ◌==◌
engine = record {
  get = get_of;
  put = put_of;
  put_new = put_new_of;
  get-put = get-put_of;
  get-same = same_key;
  put_new_free = free_key;
  put_new_taken = taken_key;
}

pub other_map :
    (e : Store) (m k : ℕ) (v : Bytes) (n : ℕ)
    → (n == m) ≡ false
    → entries_of (put_of e m k v) n ≡ entries_of e n
unfolding entries_of
other_map e m k v n h = rw h refl

abbrev pub cursors : Cursors engine
cursors = record {
  entries = entries_of;
  range = λ e m k. at_least k (entries_of e m);
  last = λ e m. last_of (entries_of e m);
  sorted = Sorted-entries;
  get-entries = λ e m q. refl;
  range-entries = λ e m k. refl;
  last-entries = λ e m. refl;
  entries-put = other_map;
}
