-- ===== src/Lib.antt =====
-- Verification library of MedvedDB, a distributed database in C.
--
-- The program's parts. `mdv_platform` has the containers and the virtual machine, `mdv_storage` the
-- predicates over rows, the transactions over LMDB and the sets of objects, `mdv_core` the
-- transaction log and its synchronization; the rest of the server, the network and the client are
-- built on them. The models are shallow: a structure is a record, a call is a function from the
-- state before to the result and the state after, an allocation that may fail is an argument of type
-- Bool.
--
-- - Base: shared names, Boolean tests, lists over native numbers, little-endian bytes.
-- - Errno: the codes of mdv_platform/mdv_errno.h.
-- - Stack: the macros of mdv_platform/generic/mdv_stack.h.
-- - Vm: mdv_platform/mdv_vm.c. `Vm` has the data on the byte stack (`mdv_vm_stack_push`, `_pop`,
--   `_top`), Vm.Ops the handlers `mdv_vmop_*`, Vm.Run the interpreter `mdv_vm_run`; Vm.RoundTrip,
--   Vm.Overflow, Vm.Safety, Vm.Order and Vm.Logic have what holds of them; Vm.Programs,
--   Vm.Instructions and Vm.Compiled follow programs that come from expressions.
-- - Predicate: `mdv_predicate_parse` of mdv_storage/mdv_predicate.c, which uses Vector and Vm.
-- - Hashmap: mdv_platform/generic/mdv_hashmap.c. Hashmap.Interface is what it asks of the key
--   functions, Hashmap.Chain is a bucket, Hashmap.Placed and Hashmap.Resize are the table,
--   Hashmap.Refines, Hashmap.Insert and Hashmap.Clear its operations against a function from keys
--   to items.
-- - Queue: mdv_platform/generic/mdv_queue.c, a ring against a list (Queue.Ring, .Push, .Pop).
-- - Lru: mdv_platform/mdv_lrucache.c over Hashmap; Lru.Entries is its list (mdv_list.c),
--   Lru.Invariant the specification and the invariant, Lru.Put and Lru.Get the operations.
-- - Vector: mdv_platform/generic/mdv_vector.c.
-- - Algorithm: mdv_platform/generic/mdv_algorithm.c; Algorithm.Membership is what is in the results,
--   Algorithm.Bounds the lower bound of a key below all items.
-- - Bitset: mdv_platform/generic/mdv_bitset.c.
-- - Rollbacker: mdv_platform/mdv_rollbacker.c; Rollbacker.Order is the order in which it undoes.
-- - Sharing: the reference counts of mdv_hashmap.c, mdv_lrucache.c, mdv_vector.c, mdv_predicate.c
--   and mdv_topology.c; Sharing.Balance says when an object is freed.
-- - Lmdb: the transactions and maps of mdv_storage/mdv_lmdb.c. LMDB itself is a parameter:
--   Lmdb.Engine has its calls and what is asked of them, Lmdb.Ranges lemmas on sorted entries.
-- - Trlog: mdv_core/storage/mdv_trlog.c over Lmdb. Trlog.Append is the addition of operations
--   (`mdv_trlog_add`, `_add_op`), Trlog.Reading the reading of a range, Trlog.Loops and Trlog.Apply
--   the application, Trlog.Drain repeated application, Trlog.Foreach the iteration,
--   Trlog.Init a log that is opened again.
-- - Syncerlog: the sending side of mdv_core/mdv_syncerlog.c; Syncerlog.Ranges is how it cuts a log
--   into jobs, Syncerlog.Delivery follows the operations to a peer's log (Trlog).
-- - Pset: mdv_storage/mdv_2pset.c over Lmdb; Pset.Add and Pset.Batch are the additions,
--   Pset.Aborted a batch with a removed key, Pset.Idgen the identifiers.
-- - Ops: the operators of mdv_storage/ops over the enumerator of mdv_2pset.c; binn, which holds the
--   values of a row, is a parameter. Ops.Slices is about the loops of the projections, Ops.Rows about
--   the rows that the operators go through, Ops.Reset about starting again.
-- - Bloom: mdv_platform/generic/mdv_bloom.c over a hash function as a parameter; Bloom.Keeps is about
--   the bits, Bloom.Negatives about what a lookup denies.
-- - Uuid: mdv_platform/mdv_uuid.c; Uuid.Text is about its text, Uuid.Keys makes it the keys of
--   Hashmap, as the trackers and committers of the server use it.
-- - Safeptr: mdv_platform/mdv_safeptr.c; Safeptr.Alive follows it with the references that its users
--   hold.
-- - Mst: mdv_platform/generic/mdv_mst.c. Mst.Rings is the circular lists of the subsets and Mst.Union
--   their union, Mst.Marks the marked links as a forest, Mst.Merge, Mst.Search and Mst.Rounds the
--   parts of a round, Mst.Spanning the result.
-- - Topology: mdv_platform/mdv_topology.c over Hashmap and Uuid; `qsort` is a parameter.
--   Topology.Pairs makes links the keys of a map, Topology.Maps is the map of the links and the set
--   of the peers and Topology.Filled what they hold, Topology.Linked and Topology.Numbered are about
--   the nodes that are linked, Topology.Created is the creation, Topology.Indices its map from
--   identifiers to indices and Topology.Restored what it keeps; Topology.Delta is the difference, with
--   Topology.Asked on the map that it asks, Topology.Kept on its loops over the links,
--   Topology.Entries on links without indices, Topology.Appended on the link that is appended and
--   Topology.Difference on the whole.
-- - Tests: runs on concrete data.
--
-- Bounds and fuel. `mdv_vm_run` is a loop on fuel, a round each; the programs of expressions end
-- within the rounds that `rounds` counts, and other programs may run out of fuel. The loop that
-- doubles a vector's capacity has as much fuel as the capacity that is needed, which is enough from
-- capacity 1 on. Sizes of 64 bits are taken not to wrap; the 32-bit size of a datum, its 64-bit
-- address and the 16-bit number of a handler are written as little-endian bytes of their width. The
-- 64-bit positions of a transaction log and the identifiers wrap around (`word`). The ranges of a
-- synchronization are a loop on fuel, one more than the next number, of which each turn but the
-- last uses at least one where the batch size is above 0; the exchange of the counter has fuel for
-- two tries, which is enough for one thread. The rounds of the spanning tree, and the walk over a
-- circular list, have fuel one more than the nodes: a list holds each node at most once, and each
-- round but the last leaves fewer trees. The weights of links are subtracted as numbers of 32 bits.
--
-- Not modelled: memory orders of atomics, calls that interleave, logging, and what the operating
-- system, the network and the libraries of mdv_thirdparty do.
pub mod Base
pub mod Pset
pub mod Syncerlog
pub mod Trlog
pub mod Lmdb
pub mod Bitset
pub mod Sharing
pub mod Rollbacker
pub mod Algorithm
pub mod Errno
pub mod Stack
pub mod Vm
pub mod Hashmap
pub mod Queue
pub mod Lru
pub mod Predicate
pub mod Vector
pub mod Topology
pub mod Tests
pub mod Ops
pub mod Bloom
pub mod Uuid
pub mod Safeptr
pub mod Mst
