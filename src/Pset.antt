-- ===== src/Pset.antt =====
-- The two-phase set of objects of mdv_storage/mdv_2pset.c, over the transactions of Lmdb: the objects
-- that were added, and those that were removed, whose removal has priority. A call is one step; the
-- maps are closed and the transaction is finished on every path. The enumerator of the
-- set is in Ops.
pub mod Add
pub mod Batch
pub mod Aborted
pub mod Idgen
use medved_db.Base.{
  ℕ, zero, suc, ◌+◌, List, [], ◌∷◌, Bool, true, false, Option, none, some, ◌||◌, if◌then◌else◌,
  le_bytes, of_le,
}
use medved_db.Errno.{Errno, failed}
use medved_db.Lmdb.Engine.{Engine as LmdbEngine, Bytes}
use medved_db.Lmdb.{
  Transaction, closed, active, transaction_ok, transaction_start, transaction_commit,
  transaction_abort, map_put, map_put_unique, map_get,
}
use medved_db.Trlog.{Works, word, stored_number}

-- `MDV_MAP_OBJECTS`, `MDV_MAP_REMOVED` and `MDV_MAP_IDGEN`.
abbrev pub objects_map : ℕ
objects_map = 0

abbrev pub removed_map : ℕ
removed_map = 1

abbrev pub idgen_map : ℕ
idgen_map = 2

pub record Pset (E : Type 0) : Type 0 where
  pub storage : E
  pub idgen : ℕ

-- `none` is `MDV_OK`.
abbrev pub Status : Type 0
Status = Option Errno

module _ {E K : Type 0} {same : K → K → Bool} (db : LmdbEngine E K same) where
  -- `mdv_objects_is_deleted`.
  abbrev pub is_deleted : Bool → Transaction E → K → Bool
  is_deleted works txn id = elim (map_get db works removed_map txn id) [
    | none ↦ false
    | some v ↦ true
  ]

  -- Both maps are opened, or the transaction is rolled back.
  abbrev pub both_opened : Works → Bool
  both_opened w = if w.opened objects_map then w.opened removed_map else false

  abbrev pub finish_commit : Pset E → Bool × Transaction E × E → Status × Pset E
  finish_commit set (false, txn, e) = (some failed, record set { storage = e })
  finish_commit set (true, txn, e) = (none, record set { storage = e })

  -- Whether the object could be stored is not looked at, since it may be there already.
  unfoldable pub add : Works → Pset E → K → Bytes → Status × Pset E
  add w set id obj =
      let txn = transaction_start w.started set.storage in
      if transaction_ok txn
      then (if both_opened w
          then (if is_deleted (w.found 0) txn id
              then (none, set)
              else finish_commit set (
                  transaction_commit w.committed
                    (map_put_unique db (w.stored 0) objects_map txn id obj).1 set.storage))
          else (some failed, set))
      else (some failed, set)

  -- The object of the batch that comes next; `commit` is whether one was stored.
  abbrev pub batch_step : Bool → Bool → Transaction E × Bool → K → Bytes → Transaction E × Bool
  batch_step found works (txn, commit) id obj =
      let put = map_put_unique db works objects_map txn id obj in
      if is_deleted found txn id
      then ((transaction_abort txn).1, commit)
      else (put.1, put.0 || commit)

  -- The loop over what `next` returns; `i` counts the objects.
  unfoldable pub batch_loop :
      (ℕ → Bool) → (ℕ → Bool) → ℕ → Transaction E × Bool → List (K × Bytes) → Transaction E × Bool
  batch_loop found stored i r [] = r
  batch_loop found stored i r ((id, obj) ∷ objs) =
      batch_loop found stored (i + 1) (batch_step (found i) (stored i) r id obj) objs

  abbrev pub finish_batch : Bool → Pset E → Transaction E × Bool → Status × Pset E
  finish_batch works set (txn, false) = (none, set)
  finish_batch works set (txn, true) = finish_commit set (transaction_commit works txn set.storage)

  unfoldable pub add_batch : Works → Pset E → List (K × Bytes) → Status × Pset E
  add_batch w set objs =
      let txn = transaction_start w.started set.storage in
      if transaction_ok txn
      then (if both_opened w
          then finish_batch w.committed set (batch_loop w.found w.stored 0 (txn, false) objs)
          else (some failed, set))
      else (some failed, set)

  -- The value for `restore`; a null pointer if the object was removed or is not there.
  unfoldable pub get : Works → Pset E → K → Option Bytes
  get w set id =
      let txn = transaction_start w.started set.storage in
      if transaction_ok txn
      then (if both_opened w
          then (if is_deleted (w.found 0) txn id
              then none
              else map_get db (w.found 1) objects_map txn id)
          else none)
      else none

  abbrev pub reserved : Pset E → ℕ → Bool × Transaction E × E → Option ℕ × Pset E
  reserved set new_id (false, txn, e) = (none, set)
  reserved set new_id (true, txn, e) =
      (some (set.idgen), record set { storage = e; idgen = new_id })

  -- The first of so many new identifiers. `locked` is whether the mutex was taken, `key` stands for
  -- the 16-bit number 0.
  unfoldable pub reserve_ids_range : Bool → Works → K → Pset E → ℕ → Option ℕ × Pset E
  reserve_ids_range locked w key set range =
      let txn = transaction_start w.started set.storage in
      let new_id = word (set.idgen + range) in
      let put = map_put db (w.stored 0) idgen_map txn key (le_bytes 8 new_id) in
      if locked
      then (if transaction_ok txn
          then (if w.opened idgen_map
              then (if put.0
                  then reserved set new_id (transaction_commit w.committed put.1 set.storage)
                  else (none, set))
              else (none, set))
          else (none, set))
      else (none, set)

  -- `mdv_objects_idgen_init` on an opened storage: the number of the set, if it can be opened.
  unfoldable pub idgen_init : Works → K → E → Option (Pset E)
  idgen_init w key e =
      let txn = transaction_start w.started e in
      let stored =
        if w.opened idgen_map
        then stored_number (map_get db (w.found 0) idgen_map txn key)
        else 0 in
      if transaction_ok txn then some (record { storage = e; idgen = stored }) else none
