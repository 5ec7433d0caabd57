-- ===== src/Safeptr/Alive.antt =====
-- The object of a safe pointer (mdv_safeptr.c) and those that its users hold are not freed.
use medved_db.Base.{
  ℕ, ◌+◌, ◌-◌, ◌≤◌, ◌<◌, ◌≡◌, refl, ap, ◌∙◌, List, [], ◌∷◌, Bool, true, false, Option, none, some,
  arith, ◌==◌, if◌then◌else◌, Bool-cases, inl, inr,
}
use medved_db.Safeptr.{
  Counts, with_count, retain, release, retain_pointer, release_pointer, safeptr_set, safeptr_get,
  set_retain, pointing,
}

-- What a pointer adds to the count of an object.
abbrev pub points : Option ℕ → ℕ → ℕ
points none x = 0
points (some p) x = if x == p then 1 else 0

-- The counts, the pointer, and how many references to each object the users hold.
pub record World : Type 0 where
  pub counts : Counts
  pub ptr : Option ℕ
  pub held : ℕ → ℕ

-- Every count is that of the references.
abbrev pub Balanced : World → Type 0
Balanced w = (x : ℕ) → w.counts x ≡ w.held x + points w.ptr x

-- A user sets the pointer to an object it holds, or to null; gets the object, and holds one more
-- reference to it; or drops a reference that it holds.
pub data Call : Type 0 where
  set_to : Bool → Option ℕ → Call
  get_it : Bool → Call
  drop_one : ℕ → Call

abbrev pub may_pass : (ℕ → ℕ) → Option ℕ → Bool
may_pass held none = true
may_pass held (some p) = if held p == 0 then false else true

abbrev pub after_set : World → Option (Option ℕ × Counts) → Option World
after_set w none = none
after_set w (some (ptr, c)) = some (record w { counts = c; ptr = ptr })

abbrev pub after_get : World → Option (Option ℕ × Counts) → Option World
after_get w none = none
after_get w (some (ptr, c)) = some (record w { counts = c; held = λ x. w.held x + points ptr x })

abbrev pub after_drop : World → ℕ → Option Counts → Option World
after_drop w p none = none
after_drop w p (some c) = some (record w { counts = c; held = with_count w.held p (w.held p - 1) })

-- What a user does not hold it does not pass and does not drop.
unfoldable pub call : Call → World → Option World
call (set_to locked new) w =
    if may_pass w.held new then after_set w (safeptr_set locked w.counts w.ptr new) else some w
call (get_it locked) w = after_get w (safeptr_get locked w.counts w.ptr)
call (drop_one p) w = if w.held p == 0 then some w else after_drop w p (release w.counts p)

unfoldable pub calls : List Call → World → Option World
calls [] w = some w
calls (x ∷ xs) w = elim (call x w) [ none ↦ none | some w₁ ↦ calls xs w₁ ]

-- A pointer to an object with a reference can be retained.
retain_pointer-counts :
    (c : Counts) (p : Option ℕ)
    → ((x : ℕ) → points p x ≤ c x)
    → (c₁ : Counts) × (retain_pointer c p ≡ some c₁) × ((x : ℕ) → c₁ x ≡ c x + points p x)
unfolding retain
retain_pointer-counts c none h = (c, refl, λ x. omega arith)
retain_pointer-counts c (some p) h =
    let some_left : 0 < c p = ground (arith, h p) in
    let alive : (c p == 0) ≡ false = ground (arith, some_left) in
    (with_count c p (c p + 1), rw alive refl, λ x. ground arith)

release_pointer-counts :
    (c : Counts) (p : Option ℕ)
    → ((x : ℕ) → points p x ≤ c x)
    → (c₁ : Counts) × (release_pointer c p ≡ some c₁) × ((x : ℕ) → c₁ x + points p x ≡ c x)
unfolding release
release_pointer-counts c none h = (c, refl, λ x. omega arith)
release_pointer-counts c (some p) h =
    let some_left : 0 < c p = ground (arith, h p) in
    let alive : (c p == 0) ≡ false = ground (arith, some_left) in
    (with_count c p (c p - 1), rw alive refl, λ x. ground (arith, some_left))

points-held : (held : ℕ → ℕ) (p : Option ℕ) → may_pass held p ≡ true → (x : ℕ) → points p x ≤ held x
points-held held none h x = omega arith
points-held held (some p) h x = elim (Bool-cases (x == p)) [
  | inl here ↦ let same : x ≡ p = ground (arith, here) in rw same (ground (arith, h))
  | inr other ↦ rw other (omega arith)
]

set_to-Balanced :
    (w : World) (new : Option ℕ)
    → Balanced w
    → may_pass w.held new ≡ true
    → (w₁ : World) × (after_set w (safeptr_set true w.counts w.ptr new) ≡ some w₁) × Balanced w₁
unfolding safeptr_set
set_to-Balanced w new b may =
    let (c₁, released, left) = release_pointer-counts w.counts w.ptr (λ x. omega (arith, b x)) in
    let (c₂, retained, more) =
      retain_pointer-counts c₁ new
        (λ x. omega (arith, left x, b x, points-held w.held new may x)) in
    (
      record w { counts = c₂; ptr = new },
      ap (after_set w) (ap (set_retain new) released ∙ ap (pointing new) retained),
      λ x. omega (arith, more x, left x, b x),
    )

get_it-Balanced :
    (w : World)
    → Balanced w
    → (w₁ : World) × (after_get w (safeptr_get true w.counts w.ptr) ≡ some w₁) × Balanced w₁
unfolding safeptr_get
get_it-Balanced w b =
    let (c₁, retained, more) = retain_pointer-counts w.counts w.ptr (λ x. omega (arith, b x)) in
    (
      record w { counts = c₁; held = λ x. w.held x + points w.ptr x },
      ap (after_get w) (ap (pointing w.ptr) retained),
      λ x. omega (arith, more x, b x),
    )

drop_one-Balanced :
    (w : World) (p : ℕ)
    → Balanced w
    → (w.held p == 0) ≡ false
    → (w₁ : World) × (after_drop w p (release w.counts p) ≡ some w₁) × Balanced w₁
unfolding release
drop_one-Balanced w p b holds =
    let alive : (w.counts p == 0) ≡ false = ground (arith, b p, holds) in
    (
      record w {
        counts = with_count w.counts p (w.counts p - 1);
        held = with_count w.held p (w.held p - 1);
      },
      rw alive refl,
      λ x. ground (arith, b x, b p, holds),
    )

call-Balanced :
    (x : Call) (w : World) → Balanced w → (w₁ : World) × (call x w ≡ some w₁) × Balanced w₁
unfolding call safeptr_set safeptr_get
call-Balanced (set_to true new) w b = elim (Bool-cases (may_pass w.held new)) [
  | inl may ↦ rw may (set_to-Balanced w new b may)
  | inr not_his ↦ rw not_his (w, refl, b)
]
call-Balanced (set_to false new) w b = elim (Bool-cases (may_pass w.held new)) [
  | inl may ↦ rw may (w, refl, b)
  | inr not_his ↦ rw not_his (w, refl, b)
]
call-Balanced (get_it true) w b = get_it-Balanced w b
call-Balanced (get_it false) w b =
    (record w { held = λ x. w.held x + 0 }, refl, λ x. omega (arith, b x))
call-Balanced (drop_one p) w b = elim (Bool-cases (w.held p == 0)) [
  | inl none_held ↦ rw none_held (w, refl, b)
  | inr holds ↦ rw holds (drop_one-Balanced w p b holds)
]

-- Where every count is that of the references, whatever the users do with the safe pointer and with
-- the references that they hold uses no object that was freed, whether or not the mutex can be
-- locked, and leaves the counts right: an object lives as long as it is pointed to or held.
pub calls-Balanced :
    (xs : List Call) (w : World) → Balanced w → (w₁ : World) × (calls xs w ≡ some w₁) × Balanced w₁
unfolding calls
calls-Balanced [] w b = (w, refl, b)
calls-Balanced (x ∷ xs) w b =
    let (w₁, made, b₁) = call-Balanced x w b in
    let (w₂, done, b₂) = calls-Balanced xs w₁ b₁ in (w₂, rw (made, calls) done, b₂)
