-- ===== src/Tests/Filters.antt =====
-- A run of mdv_bloom.c.
use medved_db.Base.{ℕ, ◌+◌, ◌≡◌, refl, [], ◌∷◌, true, arith}
use medved_db.Lmdb.Engine.{Bytes}
use medved_db.Bloom.{Bloom, create, contains}
use medved_db.Bloom.Negatives.{IsFilter, create-IsFilter, insert_all, insert-contains}

-- A hash for the test.
abbrev test_hash : Bytes → ℕ → ℕ
test_hash [] seed = seed
test_hash (b ∷ bs) seed = b + seed

abbrev filter : Bloom
filter = record { bits = 20; capacity = 3; size = 0; hashes = 2; bf = 0 ∷ 0 ∷ 0 ∷ [] }

filter-IsFilter : IsFilter filter
unfolding create
filter-IsFilter = create-IsFilter 20 2 3 filter (omega arith) refl

insert-contains_example :
    contains test_hash (insert_all test_hash filter ((4 ∷ []) ∷ (9 ∷ []) ∷ (1 ∷ []) ∷ [])) (9 ∷ [])
    ≡ true
insert-contains_example =
    insert-contains test_hash filter ((4 ∷ []) ∷ []) ((1 ∷ []) ∷ []) (9 ∷ []) filter-IsFilter
      (omega arith)
