-- ===== src/Trlog.antt =====
-- The transaction log of mdv_core/storage/mdv_trlog.c: operations by their numbers, in a map of an
-- LMDB environment, with the number that comes next (`top`) and the number up to which the operations
-- are applied. Positions have 64 bits. A call is one step: the atomic counters are read and written
-- by it alone, so that the compare-exchange loop of `mdv_trlog_id_maximize` is one comparison. The
-- events that announce a change are a Boolean result.
pub mod Loops
pub mod Append
pub mod Apply
pub mod Drain
pub mod Reading
pub mod Init
pub mod Foreach
use medved_db.Base.{
  ℕ, zero, suc, ◌+◌, ◌%◌, ◌^◌, List, [], ◌∷◌, Bool, true, false, Option, none, some, ltb, leb, ◌==◌,
  if◌then◌else◌, length, le_bytes, of_le,
}
use medved_db.Lmdb.Engine.{Engine as LmdbEngine, Cursors, Bytes}
use medved_db.Lmdb.{
  Transaction, closed, active, transaction_ok, transaction_start, transaction_commit, map_put,
  map_put_unique, map_get,
}

-- `mdv_trlog_data`.
pub record Op : Type 0 where
  pub id : ℕ
  pub op : Bytes

pub record Trlog (E : Type 0) : Type 0 where
  pub storage : E
  pub top : ℕ
  pub applied : ℕ

-- Which of the calls of LMDB and of the allocator succeed.
pub record Works : Type 0 where
  pub started : Bool
  pub opened : ℕ → Bool
  pub stored : ℕ → Bool
  pub found : ℕ → Bool
  pub committed : Bool
  pub allocated : ℕ → Bool

-- `MDV_MAP_TRLOG` and `MDV_MAP_APPLIED`.
abbrev pub trlog_map : ℕ
trlog_map = 0

abbrev pub applied_map : ℕ
applied_map = 1

abbrev pub applied_pos_key : ℕ
applied_pos_key = 0

-- Arithmetic of `uint64_t`.
unfoldable pub word : ℕ → ℕ
word n = n % 2 ^ 64

unfoldable pub id_maximize : ℕ → ℕ → ℕ
unfolding word
id_maximize top id = if ltb top (word (id + 1)) then word (id + 1) else top

-- An entry of the map, as the operation that it stands for.
abbrev pub op_of : ℕ × Bytes → Op
op_of (id, op) = record { id = id; op = op }

module _ {E : Type 0} (db : LmdbEngine E ℕ ◌==◌) where
  abbrev pub try_put : Bool → E → Op → Option E
  try_put works e op = if works then db.put_new e trlog_map op.id op.op else none

  abbrev pub after_put : E → ℕ → Bool → Op → Option E → E × ℕ × Bool
  after_put e top ch op none = (e, top, ch)
  after_put e top ch op (some e₁) = (e₁, id_maximize top op.id, true)

  -- The loop of `mdv_trlog_add` in an open transaction; `i` counts the operations that were tried.
  -- The result is the environment, the next number and whether anything was stored.
  unfoldable pub add_ops : (ℕ → Bool) → ℕ → E × ℕ × Bool → List Op → E × ℕ × Bool
  add_ops stored i r [] = r
  add_ops stored i (e, top, ch) (op ∷ ops) =
      add_ops stored (i + 1) (after_put e top ch op (try_put (stored i) e op)) ops

  -- The result and the announcement of a change, with the log.
  abbrev pub finish_add : Bool → Trlog E → E × ℕ × Bool → Bool × Bool × Trlog E
  finish_add committed trlog (e, top, changed) =
      if committed
      then (true, changed, record trlog { storage = e; top = top })
      else (false, false, record trlog { top = top })

  unfoldable pub add : Works → Trlog E → List Op → Bool × Bool × Trlog E
  add w trlog ops =
      let loop = add_ops w.stored 0 (trlog.storage, trlog.top, false) ops in
      if w.started
      then (if w.opened trlog_map then finish_add w.committed trlog loop else (false, false, trlog))
      else (false, false, trlog)

  -- The number is taken before the operation is stored.
  abbrev pub finish_add_op : Bool → Trlog E → Option E → Bool × Bool × Trlog E
  finish_add_op committed trlog none = (false, false, trlog)
  finish_add_op committed trlog (some e) =
      if committed then (true, true, record trlog { storage = e }) else (false, false, trlog)

  unfoldable pub add_op : Works → Trlog E → Bytes → Bool × Bool × Trlog E
  add_op w trlog op =
      let id = trlog.top in
      let next = record trlog { top = word (id + 1) } in
      let put = if w.stored 0 then db.put_new trlog.storage trlog_map id op else none in
      if w.started
      then (if w.opened trlog_map
          then finish_add_op w.committed next put
          else (false, false, trlog))
      else (false, false, trlog)

  unfoldable pub changed : Trlog E → Bool
  changed trlog = ltb trlog.applied trlog.top

  -- The position is kept in memory, whether it is stored or not.
  unfoldable pub applied_pos_set : Works → Trlog E → ℕ → Trlog E
  applied_pos_set w trlog pos =
      let moved = record trlog { applied = pos } in
      let stored = db.put trlog.storage applied_map applied_pos_key (le_bytes 8 pos) in
      if w.started
      then (if w.opened applied_map
          then (if w.stored 0
              then (if w.committed then record moved { storage = stored } else moved)
              else moved)
          else moved)
      else moved

-- The loop of `mdv_trlog_read`; `n` counts the operations that were read.
unfoldable pub read_ops : (ℕ → Bool) → ℕ → ℕ → List (ℕ × Bytes) → List Op
read_ops allocated size n [] = []
read_ops allocated size n (e ∷ es) =
    let rest = read_ops allocated size (n + 1) es in
    if allocated n then op_of e ∷ (if leb size (n + 1) then [] else rest) else []

-- The loop of `mdv_trlog_range_read`.
unfoldable pub range_ops : (ℕ → Bool) → ℕ → ℕ → List (ℕ × Bytes) → List Op
range_ops allocated to n [] = []
range_ops allocated to n (e ∷ es) =
    let rest = range_ops allocated to (n + 1) es in
    if leb to e.0 then [] else if allocated n then op_of e ∷ rest else []

-- The loop over the operations that were read, up to the first that is refused: how many were
-- accepted, and the position after them.
unfoldable pub apply_ops : {A : Type 0} → (A → Bytes → Bool × A) → A → ℕ → ℕ → List Op → A × ℕ × ℕ
apply_ops fn arg n pos [] = (arg, n, pos)
apply_ops fn arg n pos (op ∷ ops) =
    let (ok, arg₁) = fn arg op.op in
    let rest = apply_ops fn arg₁ (n + 1) (word (op.id + 1)) ops in
    if ok then rest else (arg₁, n, pos)

-- The loop of `mdv_trlog_foreach`, which hands out the operations with their numbers.
unfoldable pub foreach_ops : {A : Type 0} → (A → Op → Bool × A) → A → ℕ → List Op → A × ℕ
foreach_ops fn arg n [] = (arg, n)
foreach_ops fn arg n (op ∷ ops) =
    let (ok, arg₁) = fn arg op in
    let rest = foreach_ops fn arg₁ (n + 1) ops in if ok then rest else (arg₁, n)

-- The number after the last operation of the map, and 0 if there is no map or it is empty.
abbrev pub next_number : Option (ℕ × Bytes) → ℕ
next_number none = 0
next_number (some (id, op)) = word (id + 1)

abbrev pub stored_number : Option Bytes → ℕ
stored_number none = 0
stored_number (some v) = of_le v

module _ {E : Type 0} (db : LmdbEngine E ℕ ◌==◌) (cs : Cursors db) where
  unfoldable pub read : Works → Trlog E → ℕ → ℕ → List Op
  read w trlog pos size =
      let found = read_ops w.allocated size 0 (cs.range trlog.storage trlog_map pos) in
      if w.started then (if w.opened trlog_map then found else []) else []

  unfoldable pub range_read : Works → Trlog E → ℕ → ℕ → List Op
  range_read w trlog from to =
      let found = range_ops w.allocated to 0 (cs.range trlog.storage trlog_map from) in
      if w.started then (if w.opened trlog_map then found else []) else []

  abbrev pub finish_apply : {A : Type 0} → Works → Trlog E → A × ℕ × ℕ → ℕ × A × Trlog E
  finish_apply w trlog (arg, n, pos) =
      (n, arg, if n == 0 then trlog else applied_pos_set db w trlog pos)

  -- `reading` and `saving` are the two transactions of the call.
  unfoldable pub apply :
      {A : Type 0} → Works → Works → Trlog E → ℕ → A → (A → Bytes → Bool × A) → ℕ × A × Trlog E
  apply reading saving trlog batch_size arg fn =
      let ops = read reading trlog trlog.applied batch_size in
      if leb trlog.top trlog.applied
      then (0, arg, trlog)
      else if length ops == 0
      then (0, arg, trlog)
      else finish_apply saving trlog (apply_ops fn arg 0 trlog.applied ops)

  -- `mdv_trlog_init` on the environment of an opened log.
  unfoldable pub init : Works → E → Trlog E
  init w e =
      let top = if w.opened trlog_map then next_number (cs.last e trlog_map) else 0 in
      let applied =
        if w.opened applied_map
        then stored_number (map_get db (w.found 0) applied_map (active e) applied_pos_key)
        else 0 in
      if w.started
      then record { storage = e; top = top; applied = applied }
      else record { storage = e; top = 0; applied = 0 }

  -- The result of the loop, with the count first.
  abbrev pub counted : {A : Type 0} → A × ℕ → ℕ × A
  counted (arg, n) = (n, arg)

  unfoldable pub foreach : {A : Type 0} → Works → Trlog E → ℕ → ℕ → A → (A → Op → Bool × A) → ℕ × A
  foreach w trlog id batch_size arg fn =
      let ops = read w trlog id batch_size in
      if length ops == 0 then (0, arg) else counted (foreach_ops fn arg 0 ops)
