-- ===== src/Safeptr.antt =====
-- The safe pointer of mdv_platform/mdv_safeptr.c: a pointer to an object with a reference count,
-- behind a mutex, so that a call is one step. The objects are numbers, and their counts a function,
-- 0 for an object that was freed; the functions `retain` and `release` that the source is given count
-- as those of Sharing do. `none` is a use of an object that was freed.
pub mod Alive
use medved_db.Base.{ℕ, ◌+◌, ◌-◌, Bool, true, false, Option, none, some, ◌==◌, if◌then◌else◌}

abbrev pub Counts : Type 0
Counts = ℕ → ℕ

abbrev pub with_count : Counts → ℕ → ℕ → Counts
with_count c p n = λ x. if x == p then n else c x

unfoldable pub retain : Counts → ℕ → Option Counts
retain c p = if c p == 0 then none else some (with_count c p (c p + 1))

unfoldable pub release : Counts → ℕ → Option Counts
release c p = if c p == 0 then none else some (with_count c p (c p - 1))

-- A null pointer is neither retained nor released.
abbrev pub retain_pointer : Counts → Option ℕ → Option Counts
retain_pointer c none = some c
retain_pointer c (some p) = retain c p

abbrev pub release_pointer : Counts → Option ℕ → Option Counts
release_pointer c none = some c
release_pointer c (some p) = release c p

-- The pointer of the object, with the counts.
unfoldable pub safeptr_create :
    Bool → Bool → Counts → Option ℕ → Option (Option (Option ℕ) × Counts)
safeptr_create allocated mutex c ptr =
    if allocated
    then (if mutex
        then elim (retain_pointer c ptr) [ none ↦ none | some c₁ ↦ some (some ptr, c₁) ]
        else some (none, c))
    else some (none, c)

unfoldable pub safeptr_free : Counts → Option ℕ → Option Counts
safeptr_free c ptr = release_pointer c ptr

abbrev pub pointing : Option ℕ → Option Counts → Option (Option ℕ × Counts)
pointing ptr none = none
pointing ptr (some c) = some (ptr, c)

abbrev pub set_retain : Option ℕ → Option Counts → Option (Option ℕ × Counts)
set_retain new none = none
set_retain new (some c) = pointing new (retain_pointer c new)

-- The old object is released before the new one is retained.
unfoldable pub safeptr_set : Bool → Counts → Option ℕ → Option ℕ → Option (Option ℕ × Counts)
safeptr_set locked c ptr new =
    if locked then set_retain new (release_pointer c ptr) else some (ptr, c)

-- The pointer that the call returns, with the counts.
unfoldable pub safeptr_get : Bool → Counts → Option ℕ → Option (Option ℕ × Counts)
safeptr_get locked c ptr = if locked then pointing ptr (retain_pointer c ptr) else some (none, c)
