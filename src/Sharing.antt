-- ===== src/Sharing.antt =====
-- The reference counts of mdv_hashmap.c, mdv_lrucache.c, mdv_vector.c, mdv_predicate.c and
-- mdv_topology.c. A call is one atomic step; the count is taken not to wrap. A pointer is `none` if
-- it is null.
pub mod Balance
use medved_db.Base.{
  ℕ, zero, suc, ◌+◌, ◌-◌, Bool, true, false, Option, none, some, ◌==◌, if◌then◌else◌,
}
use medved_db.Hashmap.{Hashmap}
use medved_db.Hashmap
use medved_db.Lru.{Cache}
use medved_db.Vector.{Vector}
use medved_db.Predicate.{Predicate}
use medved_db.Topology.{Topology}

-- An object with its count, `freed` after the last release.
pub data Shared {ℓ} (A : Type ℓ) : Type ℓ where
  live : ℕ → A → Shared A
  freed : Shared A

module _ {A : Type 0} where
  abbrev pub counted : A → ℕ → Shared A
  counted a rc = if rc == 0 then freed else live rc a

  -- A use of an object that is freed is not defined in the source.
  unfoldable pub retain : Shared A → Shared A
  retain (live rc a) = live (rc + 1) a
  retain freed = freed

  -- The count after the release, and the object, which the last release frees.
  unfoldable pub release : Shared A → ℕ × Shared A
  release (live rc a) = (rc - 1, counted a (rc - 1))
  release freed = (0, freed)

  unfoldable pub release_pointer : Option (Shared A) → ℕ × Option (Shared A)
  unfolding release
  release_pointer none = (0, none)
  release_pointer (some s) = let (rc, s₁) = release s in (rc, some s₁)

unfoldable pub hashmap_retain : {A : Type 0} → Shared (Hashmap A) → Shared (Hashmap A)
hashmap_retain hm = retain hm

unfoldable pub hashmap_release :
    {A : Type 0} → Option (Shared (Hashmap A)) → ℕ × Option (Shared (Hashmap A))
hashmap_release hm = release_pointer hm

unfoldable pub lru_retain : Shared Cache → Shared Cache
lru_retain cache = retain cache

unfoldable pub lru_release : Option (Shared Cache) → ℕ × Option (Shared Cache)
lru_release cache = release_pointer cache

unfoldable pub predicate_retain : Shared Predicate → Shared Predicate
predicate_retain predicate = retain predicate

unfoldable pub predicate_release : Option (Shared Predicate) → ℕ × Option (Shared Predicate)
predicate_release predicate = release_pointer predicate

-- A vector has also the one empty vector that is never freed.
pub data VectorPointer (A : Type 0) : Type 0 where
  null_vector empty_vector : VectorPointer A
  vector_at : Shared (Vector A) → VectorPointer A

unfoldable pub vector_retain : {A : Type 0} → VectorPointer A → VectorPointer A
vector_retain null_vector = null_vector
vector_retain empty_vector = empty_vector
vector_retain (vector_at s) = vector_at (retain s)

unfoldable pub vector_release : {A : Type 0} → VectorPointer A → ℕ × VectorPointer A
vector_release null_vector = (0, null_vector)
vector_release empty_vector = (0, empty_vector)
vector_release (vector_at s) = let (rc, s₁) = release s in (rc, vector_at s₁)

-- A topology, or the one empty topology that is never freed. The retained one is not null.
pub data TopologyRef : Type 0 where
  empty_ref : TopologyRef
  topology_at : Shared Topology → TopologyRef

unfoldable pub topology_retain : TopologyRef → TopologyRef
topology_retain empty_ref = empty_ref
topology_retain (topology_at s) = topology_at (retain s)

unfoldable pub topology_release : Option TopologyRef → ℕ × Option TopologyRef
topology_release none = (0, none)
topology_release (some empty_ref) = (1, some empty_ref)
topology_release (some (topology_at s)) = let (rc, s₁) = release s in (rc, some (topology_at s₁))
