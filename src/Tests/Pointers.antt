-- ===== src/Tests/Pointers.antt =====
-- A run of mdv_safeptr.c.
use medved_db.Base.{◌+◌, ◌≡◌, ◌==◌, if◌then◌else◌, [], ◌∷◌, true, some, refl}
use medved_db.Safeptr.Alive.{
  World, Balanced, set_to, get_it, drop_one, calls, points, calls-Balanced,
}

-- Two objects, of which the pointer has the first, and a user both.
abbrev two_objects : World
two_objects = record {
  counts = λ x. (if x == 7 then 1 else (if x == 9 then 1 else 0)) + points (some 7) x;
  ptr = some 7;
  held = λ x. if x == 7 then 1 else (if x == 9 then 1 else 0);
}

calls-Balanced_example :
    (w : World) × (calls
        (drop_one 7 ∷ get_it true ∷ set_to true (some 9) ∷ drop_one 7 ∷ set_to true (some 9) ∷ [])
        two_objects
      ≡ some w)
    × Balanced w
calls-Balanced_example =
    calls-Balanced
      (drop_one 7 ∷ get_it true ∷ set_to true (some 9) ∷ drop_one 7 ∷ set_to true (some 9) ∷ [])
      two_objects (λ x. refl)
