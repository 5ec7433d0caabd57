-- ===== src/Mst/Search.antt =====
-- The search for the closest subsets in a round of `mdv_mst_find` in mdv_mst.c.
use mathlib.Core.Option.{some-injective}
use medved_db.Base.{
  ℕ, zero, suc, ◌+◌, ◌≡◌, refl, sym, List, [], ◌∷◌, Bool, true, false, Option, none, some, arith,
  ◌==◌, get_elem?, Bool-cases, Option-cases, inl, inr,
}
use medved_db.Mst.{Link, is_closer, offer, search_step, search}

abbrev pub is_some {ℓ} : {A : Type ℓ} → Option A → Bool
is_some none = false
is_some (some a) = true

-- A link of a subset goes to another one.
abbrev pub Crossing : List Link → (ℕ → ℕ) → (ℕ → Option ℕ) → Type 0
Crossing links set_id link =
    (s j : ℕ)
    → link s ≡ some j
    → (l : Link) × (get_elem? links j ≡ some l) × ((set_id l.src == set_id l.dst) ≡ false)

offer-Crossing :
    (links : List Link) (set_id : ℕ → ℕ) (link : ℕ → Option ℕ) (s : ℕ) (old : Option ℕ) (i : ℕ)
    (l : Link)
    → get_elem? links i ≡ some l
    → (set_id l.src == set_id l.dst) ≡ false
    → Crossing links set_id link
    → Crossing links set_id (offer links link s old i l)
offer-Crossing links set_id link s old i l stands cross c t j h =
    elim (Bool-cases (is_closer links old l)) [
      | inr far ↦ c t j (ground (arith, far, h))
      | inl near ↦ elim (Bool-cases (t == s)) [
        | inr other ↦ c t j (ground (arith, near, other, h))
        | inl same ↦ let e : i ≡ j = ground (arith, near, same, h) in (l, rw (sym e) stands, cross)
      ]
    ]

offer_keeps :
    (links : List Link) (link : ℕ → Option ℕ) (s : ℕ) (old : Option ℕ) (i : ℕ) (l : Link) (t : ℕ)
    → is_some (link t) ≡ true
    → is_some (offer links link s old i l t) ≡ true
offer_keeps links link s old i l t h = ground (arith, h)

offer_finds :
    (links : List Link) (link : ℕ → Option ℕ) (s i : ℕ) (l : Link)
    → is_some (offer links link s (link s) i l s) ≡ true
unfolding is_closer
offer_finds links link s i l = elim (Option-cases (link s)) [
  | inl empty ↦ rw empty (ground arith)
  | inr (j, old) ↦ ground (arith, old)
]

search_step-Crossing :
    (links : List Link) (set_id : ℕ → ℕ) (link : ℕ → Option ℕ) (i : ℕ) (l : Link)
    → get_elem? links i ≡ some l
    → Crossing links set_id link
    → Crossing links set_id (search_step links set_id link i l)
unfolding search_step
search_step-Crossing links set_id link i l stands c =
    let s : ℕ = set_id l.src in
    let d : ℕ = set_id l.dst in
    elim (Bool-cases (s == d)) [
      | inl together ↦ rw together c
      | inr cross ↦ rw cross (
          offer-Crossing links set_id (offer links link s (link s) i l) d (link d) i l stands cross
            (offer-Crossing links set_id link s (link s) i l stands cross c))
    ]

search_step_keeps :
    (links : List Link) (set_id : ℕ → ℕ) (link : ℕ → Option ℕ) (i : ℕ) (l : Link) (t : ℕ)
    → is_some (link t) ≡ true
    → is_some (search_step links set_id link i l t) ≡ true
unfolding search_step
search_step_keeps links set_id link i l t h =
    let s : ℕ = set_id l.src in
    let d : ℕ = set_id l.dst in
    elim (Bool-cases (s == d)) [
      | inl together ↦ rw together h
      | inr cross ↦ rw cross (
          offer_keeps links (offer links link s (link s) i l) d (link d) i l t
            (offer_keeps links link s (link s) i l t h))
    ]

search_step_finds :
    (links : List Link) (set_id : ℕ → ℕ) (link : ℕ → Option ℕ) (i : ℕ) (l : Link)
    → (set_id l.src == set_id l.dst) ≡ false
    → is_some (search_step links set_id link i l (set_id l.src)) ≡ true
unfolding search_step
search_step_finds links set_id link i l cross =
    let s : ℕ = set_id l.src in
    let d : ℕ = set_id l.dst in
    rw cross (
      offer_keeps links (offer links link s (link s) i l) d (link d) i l s
        (offer_finds links link s i l))

-- Every link that the search records goes between two subsets.
pub search-Crossing :
    (links : List Link) (set_id : ℕ → ℕ) (link : ℕ → Option ℕ) (i : ℕ) (ls : List Link)
    → ((k : ℕ) (l : Link) → get_elem? ls k ≡ some l → get_elem? links (i + k) ≡ some l)
    → Crossing links set_id link
    → Crossing links set_id (search links set_id link i ls)
unfolding search
search-Crossing links set_id link i [] part c = c
search-Crossing links set_id link i (l ∷ ls) part c =
    search-Crossing links set_id (search_step links set_id link i l) (i + 1) ls
      (λ k x h. let place : i + 1 + k ≡ i + suc k = omega arith in rw place (part (suc k) x h))
      (search_step-Crossing links set_id link i l
        (let place : i + 0 ≡ i = omega arith in rw (sym place) (part 0 l refl)) c)

search_keeps :
    (links : List Link) (set_id : ℕ → ℕ) (link : ℕ → Option ℕ) (i : ℕ) (ls : List Link) (t : ℕ)
    → is_some (link t) ≡ true
    → is_some (search links set_id link i ls t) ≡ true
unfolding search
search_keeps links set_id link i [] t h = h
search_keeps links set_id link i (l ∷ ls) t h =
    search_keeps links set_id (search_step links set_id link i l) (i + 1) ls t
      (search_step_keeps links set_id link i l t h)

-- A link between two subsets makes the search record one.
pub search_finds :
    (links : List Link) (set_id : ℕ → ℕ) (link : ℕ → Option ℕ) (i : ℕ) (ls : List Link) (k : ℕ)
    (l : Link)
    → get_elem? ls k ≡ some l
    → (set_id l.src == set_id l.dst) ≡ false
    → is_some (search links set_id link i ls (set_id l.src)) ≡ true
unfolding search
search_finds links set_id link i [] k l h cross = absurd (cc)
search_finds links set_id link i (x ∷ ls) zero l h cross =
    let same : x ≡ l = some-injective _ _ h in
    search_keeps links set_id (search_step links set_id link i x) (i + 1) ls (set_id l.src)
      (rw same (search_step_finds links set_id link i l cross))
search_finds links set_id link i (x ∷ ls) (suc k) l h cross =
    search_finds links set_id (search_step links set_id link i x) (i + 1) ls k l h cross
