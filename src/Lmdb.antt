-- ===== src/Lmdb.antt =====
-- The transactions of mdv_storage/mdv_lmdb.c over LMDB, which is a parameter (Lmdb.Engine). The
-- Boolean argument of a call says whether LMDB carries it out; a call with the null pointer that a
-- finished transaction leaves is refused by the source itself.
pub mod Engine
pub mod Ranges
use medved_db.Base.{ℕ, Bool, true, false, Option, none, some, if◌then◌else◌}
use Engine.{Engine as LmdbEngine, Bytes}

-- `mdv_transaction`: the environment as the transaction sees it, until it is finished.
pub data Transaction (E : Type 0) : Type 0 where
  closed : Transaction E
  active : E → Transaction E

module _ {E : Type 0} where
  abbrev pub transaction_ok : Transaction E → Bool
  transaction_ok closed = false
  transaction_ok (active e) = true

  abbrev pub transaction_start : Bool → E → Transaction E
  transaction_start works db = if works then active db else closed

  -- The environment after the commit is that of the transaction, if it is carried out.
  abbrev pub transaction_commit : Bool → Transaction E → E → Bool × Transaction E × E
  transaction_commit works closed db = (false, closed, db)
  transaction_commit works (active e) db = if works then (true, closed, e) else (false, closed, db)

  abbrev pub transaction_abort : Transaction E → Bool × Transaction E
  transaction_abort closed = (false, closed)
  transaction_abort (active e) = (true, closed)

module _ {E K : Type 0} {same : K → K → Bool} (db : LmdbEngine E K same) where
  abbrev pub map_put : Bool → ℕ → Transaction E → K → Bytes → Bool × Transaction E
  map_put works m closed k v = (false, closed)
  map_put works m (active e) k v =
      if works then (true, active (db.put e m k v)) else (false, active e)

  abbrev pub put_unique_into : E → Option E → Bool × Transaction E
  put_unique_into e none = (false, active e)
  put_unique_into e (some e₁) = (true, active e₁)

  abbrev pub map_put_unique : Bool → ℕ → Transaction E → K → Bytes → Bool × Transaction E
  map_put_unique works m closed k v = (false, closed)
  map_put_unique works m (active e) k v =
      if works then put_unique_into e (db.put_new e m k v) else (false, active e)

  -- A call that LMDB does not carry out answers like one that finds nothing.
  abbrev pub map_get : Bool → ℕ → Transaction E → K → Option Bytes
  map_get works m closed k = none
  map_get works m (active e) k = if works then db.get e m k else none
