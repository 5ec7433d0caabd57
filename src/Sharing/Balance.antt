-- ===== src/Sharing/Balance.antt =====
-- When the objects with a reference count are freed.
use mathlib.Core.Option.{some-injective}
use medved_db.Base.{
  ℕ, zero, suc, ◌+◌, ◌-◌, ◌≡◌, refl, ap, ◌∙◌, List, [], ◌∷◌, Option, none, some, arith,
}
use medved_db.Hashmap.{Hashmap}
use medved_db.Lru.{Cache}
use medved_db.Vector.{Vector}
use medved_db.Predicate.{Predicate}
use medved_db.Topology.{Topology}
use medved_db.Sharing.{
  counted, release_pointer, Shared, live, freed, retain, release, hashmap_retain, hashmap_release,
  lru_retain, lru_release, predicate_retain, predicate_release, vector_at, vector_retain,
  vector_release, topology_at, topology_retain, topology_release,
}

-- What the users of an object do: one of them passes it on to one more, or one gives it up.
pub data Use : Type 0 where
  passes_on gives_up : Use

-- How many users there are afterwards; `none` if one uses the object without having it.
unfoldable pub holders : ℕ → List Use → Option ℕ
holders n [] = some n
holders zero (u ∷ uses) = none
holders (suc n) (passes_on ∷ uses) = holders (suc (suc n)) uses
holders (suc n) (gives_up ∷ uses) = holders n uses

-- The calls for the uses, in their order.
unfoldable pub use_all : {P : Type 0} → (P → P) → (P → P) → List Use → P → P
use_all retains releases [] p = p
use_all retains releases (passes_on ∷ uses) p = use_all retains releases uses (retains p)
use_all retains releases (gives_up ∷ uses) p = use_all retains releases uses (releases p)

-- An object that so many users have: it is freed when there is none.
abbrev pub shared_by : {A : Type 0} → ℕ → A → Shared A
shared_by zero a = freed
shared_by (suc n) a = live (suc n) a

abbrev pub on_pointer : {P : Type 0} → (P → P) → Option P → Option P
on_pointer f none = none
on_pointer f (some p) = some (f p)

use_all-retain :
    {A : Type 0} (uses : List Use) (m n : ℕ) (a : A)
    → holders m uses ≡ some n
    → use_all retain (λ s. (release s).1) uses (shared_by m a) ≡ shared_by n a
unfolding holders use_all retain release
use_all-retain [] m n a h = ap (λ k. shared_by k a) (some-injective _ _ h)
use_all-retain (u ∷ uses) zero n a h = absurd (cc)
use_all-retain (passes_on ∷ uses) (suc m) n a h =
    let one_more : suc m + 1 ≡ suc (suc m) = omega arith in
    rw one_more (use_all-retain uses (suc (suc m)) n a h)
use_all-retain (gives_up ∷ uses) (suc zero) n a h = use_all-retain uses zero n a h
use_all-retain (gives_up ∷ uses) (suc (suc m)) n a h =
    let still : counted a (suc (suc m) - 1) ≡ live (suc m) a = ground arith in
    ap (use_all retain (λ s. (release s).1) uses) still ∙ use_all-retain uses (suc m) n a h

-- Objects that are reached through something else.
use_all-at :
    {A P : Type 0} (at : Shared A → P) (retains releases : P → P) (uses : List Use) (s : Shared A)
    → ((x : Shared A) → retains (at x) ≡ at (retain x))
    → ((x : Shared A) → releases (at x) ≡ at ((release x).1))
    → use_all retains releases uses (at s) ≡ at (use_all retain (λ x. (release x).1) uses s)
unfolding use_all
use_all-at at retains releases [] s up down = refl
use_all-at at retains releases (passes_on ∷ uses) s up down =
    ap (use_all retains releases uses) (up s)
    ∙ use_all-at at retains releases uses (retain s) up down
use_all-at at retains releases (gives_up ∷ uses) s up down =
    ap (use_all retains releases uses) (down s)
    ∙ use_all-at at retains releases uses ((release s).1) up down

-- A hash map, a cache, a predicate, a vector and a topology that were made with count 1 are used in
-- any order, by users that have them: each is as it was made and has the number of its users as
-- count, as long as there is one, and it is freed by the last release and not before.
pub use_all-shared_by :
    {A : Type 0} (hm : Hashmap A) (cache : Cache) (p : Predicate) (v : Vector A) (t : Topology)
    (uses : List Use) (n : ℕ)
    → holders 1 uses ≡ some n
    → (use_all (on_pointer hashmap_retain) (λ q. (hashmap_release q).1) uses (some (live 1 hm))
        ≡ some (shared_by n hm))
      × (use_all (on_pointer lru_retain) (λ q. (lru_release q).1) uses (some (live 1 cache))
          ≡ some (shared_by n cache))
      × (use_all (on_pointer predicate_retain) (λ q. (predicate_release q).1) uses (some (live 1 p))
          ≡ some (shared_by n p))
      × (use_all vector_retain (λ q. (vector_release q).1) uses (vector_at (live 1 v))
          ≡ vector_at (shared_by n v))
      × (use_all
            (on_pointer topology_retain)
            (λ q. (topology_release q).1)
            uses
            (some (topology_at (live 1 t)))
          ≡ some (topology_at (shared_by n t)))
unfolding hashmap_retain hashmap_release lru_retain lru_release predicate_retain predicate_release
    vector_retain vector_release topology_retain topology_release release_pointer
use_all-shared_by hm cache p v t uses n h = (
  use_all-at some (on_pointer hashmap_retain) (λ q. (hashmap_release q).1) uses (live 1 hm)
        (λ x. refl) (λ x. refl)
      ∙ ap some (use_all-retain uses 1 n hm h),
  use_all-at some (on_pointer lru_retain) (λ q. (lru_release q).1) uses (live 1 cache) (λ x. refl)
        (λ x. refl)
      ∙ ap some (use_all-retain uses 1 n cache h),
  use_all-at some (on_pointer predicate_retain) (λ q. (predicate_release q).1) uses (live 1 p)
        (λ x. refl) (λ x. refl)
      ∙ ap some (use_all-retain uses 1 n p h),
  use_all-at vector_at vector_retain (λ q. (vector_release q).1) uses (live 1 v) (λ x. refl)
        (λ x. refl)
      ∙ ap vector_at (use_all-retain uses 1 n v h),
  use_all-at (λ x. some (topology_at x)) (on_pointer topology_retain) (λ q. (topology_release q).1)
        uses (live 1 t) (λ x. refl) (λ x. refl)
      ∙ ap (λ x. some (topology_at x)) (use_all-retain uses 1 n t h),
)
