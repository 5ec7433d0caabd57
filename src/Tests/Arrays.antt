-- ===== src/Tests/Arrays.antt =====
-- Runs of mdv_vector.c on a vector of three numbers.
use medved_db.Base.{ℕ, ◌≡◌, refl, List, [], ◌∷◌, Bool, none, arith}
use medved_db.Vector.{Vector, grow, push_back}
use medved_db.Vector.Ops.{grow-never_ends}

abbrev three : Vector ℕ
three = record { capacity = 3; items = 4 ∷ 5 ∷ 6 ∷ [] }

abbrev five_items : List ℕ
five_items = 4 ∷ 5 ∷ 6 ∷ 0 ∷ 0 ∷ []

abbrev no_places : Vector ℕ
no_places = record { capacity = 0; items = [] }

grow-never_ends_example :
    (grow 100 1 0 ≡ none) × ((allocated : Bool) (x : ℕ) → push_back allocated no_places x ≡ none)
grow-never_ends_example = grow-never_ends no_places 100 1 refl (omega arith)
