-- ===== src/Tests/Sets.antt =====
-- Runs of mdv_algorithm.c, mdv_rollbacker.c and the reference counts.
use Prim.Native.Nat.{compare, Ordering}
use medved_db.Base.{
  ltb, ℕ, ◌<◌, if◌then◌else◌, ◌+◌, ◌≡◌, refl, List, [], ◌∷◌, true, false, some, arith,
}
use medved_db.Algorithm.{diff}
use medved_db.Algorithm.{before_array, position, lower_bound}
use medved_db.Algorithm.Bounds.{lower_bound-below}
use medved_db.Algorithm.Membership.{has, has-diff}
use medved_db.Rollbacker.{Op, create, rollback, Call, perform}
use medved_db.Rollbacker.Order.{push_all, undo, rollback-undo}
use medved_db.Sharing.{
  live, hashmap_retain, hashmap_release, lru_retain, lru_release, predicate_retain,
  predicate_release, vector_at, vector_retain, vector_release, topology_at, topology_retain,
  topology_release,
}
use medved_db.Sharing.Balance.{
  Use, passes_on, gives_up, holders, use_all, on_pointer, use_all-shared_by,
}
use medved_db.Hashmap.{Hashmap}
use medved_db.Lru.{Cache}
use medved_db.Vector.{Vector}
use medved_db.Predicate.{Predicate}
use medved_db.Topology.{Topology}

has-diff_example : has 5 (diff (3 ∷ 5 ∷ 8 ∷ []) (5 ∷ 9 ∷ [])) ≡ false
unfolding has
has-diff_example = has-diff 5 (3 ∷ 5 ∷ 8 ∷ []) (5 ∷ 9 ∷ []) (omega arith) (omega arith)

abbrev two_ops : List Op
two_ops =
    record { function = 7; args_count = 1; args = 40 ∷ [] }
    ∷ record { function = 8; args_count = 2; args = 41 ∷ 42 ∷ [] }
    ∷ []

abbrev calls : List Call
calls =
    record { callee = 8; with_args = 41 ∷ 42 ∷ [] }
    ∷ record { callee = 7; with_args = 40 ∷ [] }
    ∷ record { callee = 1; with_args = 64 ∷ [] }
    ∷ []

rollback-undo_example :
    ((push_all (create 1 (some 64) 2) two_ops).0 ≡ true)
    × (rollback (push_all (create 1 (some 64) 2) two_ops).1 ≡ calls)
unfolding undo perform
rollback-undo_example = rollback-undo 1 64 2 two_ops (omega arith)

abbrev table : Hashmap ℕ
table = record { capacity = 1; size = 1; key_offset = 0; key_size = 8; buckets = (4 ∷ []) ∷ [] }

abbrev cache : Cache
cache = record {
  capacity = 1;
  keys = record { capacity = 1; size = 0; key_offset = 0; key_size = 8; buckets = [] ∷ [] };
  values = [];
}

abbrev predicate : Predicate
predicate = record { expr = record { capacity = 1; items = 255 ∷ [] }; fns = [] }

-- The object is passed on twice and given up by two of its three users.
abbrev uses : List Use
uses = passes_on ∷ gives_up ∷ passes_on ∷ passes_on ∷ gives_up ∷ []

abbrev vector : Vector ℕ
vector = record { capacity = 2; items = 6 ∷ [] }

abbrev topology : Topology
topology = record { nodes = []; links = []; extradata = 7 ∷ [] }

use_all-shared_by_example :
    (use_all (on_pointer hashmap_retain) (λ q. (hashmap_release q).1) uses (some (live 1 table))
      ≡ some (live 2 table))
    × (use_all (on_pointer lru_retain) (λ q. (lru_release q).1) uses (some (live 1 cache))
        ≡ some (live 2 cache))
    × (use_all
          (on_pointer predicate_retain)
          (λ q. (predicate_release q).1)
          uses
          (some (live 1 predicate))
        ≡ some (live 2 predicate))
    × (use_all vector_retain (λ q. (vector_release q).1) uses (vector_at (live 1 vector))
        ≡ vector_at (live 2 vector))
    × (use_all
          (on_pointer topology_retain)
          (λ q. (topology_release q).1)
          uses
          (some (topology_at (live 1 topology)))
        ≡ some (topology_at (live 2 topology)))
unfolding holders
use_all-shared_by_example = use_all-shared_by table cache predicate vector topology uses 2 refl

-- The key 1 and the items from 4 on: of twelve items the one before the array is read.
above_one : (i : ℕ) → i < 12 → compare 1 (i + 4) ≡ Ordering.lt
above_one i h = ground arith

lower_bound-below_example :
    lower_bound (λ i. compare 1 (i + 4)) 12 ≡ (if ltb 13 12 then position 0 else before_array)
lower_bound-below_example =
    lower_bound-below (λ i. compare 1 (i + 4)) 12 2 (omega arith) (omega arith) above_one
